-- ===== src/Buffer/Split/Divides.antt =====
-- What a split of a child does to the words of the nodes.
use lite3_cpp.Base.{ℕ, ◌+◌, ◌<◌, ◌≤◌, ◌≡◌, ltb, if◌then◌else◌}
use lite3_cpp.Memory.{Memory}
use lite3_cpp.Memory.Laws.{SameOn}
use lite3_cpp.Node.{key_count, get_hash, get_kv_offset, get_child_offset}
use lite3_cpp.Node.Head.{SameHead}
use lite3_cpp.Buffer.Insert.Leaf.{Apart}
use lite3_cpp.Buffer.Insert.Slots.{inserted}

-- What becomes of a node at `n`, its parent at `p` and its new sibling at `s`, and what is kept.
pub record Divides (m m' : Memory) (p n s i : ℕ) : Type 0 where
  pub sibling_count : key_count m' s ≡ 3
  pub sibling_hash : (j : ℕ) → j < 3 → get_hash m' s j ≡ get_hash m n (4 + j)
  pub sibling_kv : (j : ℕ) → j < 3 → get_kv_offset m' s j ≡ get_kv_offset m n (4 + j)
  pub sibling_child :
      (j : ℕ)
      → j < 8
      → get_child_offset m' s j ≡ (if ltb j 4 then get_child_offset m n (4 + j) else 0)
  pub node_count : key_count m' n ≡ 3
  pub node_hash : (j : ℕ) → j < 7 → get_hash m' n j ≡ get_hash m n j
  pub node_kv : (j : ℕ) → j < 7 → get_kv_offset m' n j ≡ get_kv_offset m n j
  pub node_child : (j : ℕ) → j < 8 → get_child_offset m' n j ≡ get_child_offset m n j
  pub parent_count : key_count m' p ≡ key_count m p + 1
  pub parent_hash :
      (j : ℕ) → j ≤ key_count m p → get_hash m' p j ≡ inserted (get_hash m p) i (get_hash m n 3) j
  pub parent_kv :
      (j : ℕ)
      → j ≤ key_count m p
      → get_kv_offset m' p j ≡ inserted (get_kv_offset m p) i (get_kv_offset m n 3) j
  pub parent_child :
      (j : ℕ)
      → j ≤ key_count m p + 1
      → get_child_offset m' p j ≡ inserted (get_child_offset m p) (i + 1) s j
  pub parent_head : SameHead m m' p
  pub kept : (x k : ℕ) → Apart x k p 96 → Apart x k n 96 → x + k ≤ s → SameOn x k m m'
