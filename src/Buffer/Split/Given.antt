-- ===== src/Buffer/Split/Given.antt =====
-- The sibling that a full node gives its upper keys to.
use lite3_cpp.Base.{ℕ, ◌+◌, ◌*◌, ◌<◌, ◌≤◌, ◌≡◌, ◌∙◌, arith, ltb, if◌then◌else◌}
use lite3_cpp.Memory.{Memory, clear}
use lite3_cpp.Memory.Laws.{SameOn, SameOutside}
use lite3_cpp.Memory.Frame.{SameOn-outside, clear-outside, load32-clear}
use lite3_cpp.Node.{
  generation, tag, key_count, get_hash, get_kv_offset, get_child_offset, set_gen_type, set_size_kc,
  set_child_offset,
}
use lite3_cpp.Node.Fields.{get_child_offset-set_gen_type}
use lite3_cpp.Node.Children.{
  get_child_offset-lt, get_child_offset-set_child_offset, key_count-set_size_kc,
  get_hash-set_size_kc, get_kv_offset-set_size_kc, get_child_offset-set_size_kc,
}
use lite3_cpp.Node.Frame.{
  set_gen_type-outside, set_size_kc-outside, set_child_offset-outside, key_count-same,
  get_hash-same, get_kv_offset-same, get_child_offset-same,
}
use lite3_cpp.Buffer.State.{Buffer}
use lite3_cpp.Buffer.Split.{move_keys}
use lite3_cpp.Buffer.Split.Sibling.{
  move_keys-outside, move_keys-hash, move_keys-kv, move_keys-child,
}

-- The sibling, empty but for its type.
abbrev emptied : Buffer → ℕ → Memory
emptied b n =
    let m = clear b.m_data b.m_used_size 96 in
    set_gen_type m b.m_used_size (generation m n) (tag m n)

abbrev begun : Buffer → ℕ → Memory
begun b n = set_child_offset (emptied b n) b.m_used_size 0 (get_child_offset (emptied b n) n 4)

-- The memory once the sibling has its keys.
abbrev pub given : Buffer → ℕ → Memory
given b n = set_size_kc (move_keys (begun b n) n b.m_used_size 0 3) b.m_used_size 0 3

module _ (b : Buffer) (n : ℕ) (node_in : n + 96 ≤ b.m_used_size) where
  abbrev m : Memory
  m = b.m_data

  abbrev s : ℕ
  s = b.m_used_size

  abbrev m₂ : Memory
  m₂ = emptied b n

  abbrev m₃ : Memory
  m₃ = begun b n

  abbrev m₅ : Memory
  m₅ = given b n

  m₂-outside : SameOutside s 96 m m₂
  m₂-outside x h =
      set_gen_type-outside (clear m s 96) s (generation (clear m s 96) n) (tag (clear m s 96) n) x h
      ∙ clear-outside m s 96 x h

  m₃-outside : SameOutside s 96 m m₃
  m₃-outside x h =
      set_child_offset-outside m₂ s 0 (get_child_offset m₂ n 4) (omega arith) x h ∙ m₂-outside x h

  pub given-outside : SameOutside s 96 m m₅
  given-outside x h =
      set_size_kc-outside (move_keys m₃ n s 0 3) s 0 3 x h
      ∙ move_keys-outside n s (omega arith) 3 0 m₃ (omega arith) x h
      ∙ m₃-outside x h

  node₂ : SameOn n 96 m m₂
  node₂ = SameOn-outside s 96 n 96 m m₂ (omega arith) m₂-outside

  node₃ : SameOn n 96 m m₃
  node₃ = SameOn-outside s 96 n 96 m m₃ (omega arith) m₃-outside

  pub node-given : SameOn n 96 m m₅
  node-given = SameOn-outside s 96 n 96 m m₅ (omega arith) given-outside

  pub sibling-hash : (j : ℕ) → j < 3 → get_hash m₅ s j ≡ get_hash m n (4 + j)
  sibling-hash j h =
      get_hash-set_size_kc (move_keys m₃ n s 0 3) s 0 3 j (omega arith)
      ∙ move_keys-hash n s (omega arith) j (omega arith) 3 0 m₃ (omega arith)
      ∙ ground (arith, get_hash-same m m₃ n node₃ (4 + j) (omega arith))

  pub sibling-kv : (j : ℕ) → j < 3 → get_kv_offset m₅ s j ≡ get_kv_offset m n (4 + j)
  sibling-kv j h =
      get_kv_offset-set_size_kc (move_keys m₃ n s 0 3) s 0 3 j
      ∙ move_keys-kv n s (omega arith) j (omega arith) 3 0 m₃ (omega arith)
      ∙ ground (arith, get_kv_offset-same m m₃ n node₃ (4 + j) (omega arith))

  -- The children that the node gives, and none behind them.
  cleared-child : (j : ℕ) → j < 8 → get_child_offset m₂ s j ≡ 0
  cleared-child j h =
      get_child_offset-set_gen_type (clear m s 96) s (generation (clear m s 96) n)
        (tag (clear m s 96) n) j
      ∙ unfold get_child_offset in
        (load32-clear m s 96 (s + 64 + 4 * j) (omega arith) (omega arith))

  pub sibling-child :
      (j : ℕ)
      → j < 8
      → get_child_offset m₅ s j ≡ (if ltb j 4 then get_child_offset m n (4 + j) else 0)
  sibling-child j h =
      get_child_offset-set_size_kc (move_keys m₃ n s 0 3) s 0 3 j
      ∙ move_keys-child n s (omega arith) 3 0 j m₃ (omega arith)
      ∙ ground (
        arith,
        get_child_offset-same m m₃ n node₃ (4 + j),
        get_child_offset-set_child_offset m₂ s 0 (get_child_offset m₂ n 4) j,
        get_child_offset-same m m₂ n node₂ 4 (omega arith),
        get_child_offset-lt m n 4,
        cleared-child j h,
      )

  pub count-sibling : key_count m₅ s ≡ 3
  count-sibling = key_count-set_size_kc (move_keys m₃ n s 0 3) s 0 3 ∙ omega arith

  pub key_count-emptied : key_count m₂ n ≡ key_count m n
  key_count-emptied = key_count-same m m₂ n node₂
