-- ===== src/Buffer/Tree/Held.antt =====
-- A tree as it lies in memory.
use lite3_cpp.Base.{ℕ, ◌+◌, ◌<◌, ◌≤◌, ◌≡◌, ◌≢◌, Bool, false, List, length}
use lite3_cpp.Memory.{Memory}
use lite3_cpp.Node.{get_child_offset}
use lite3_cpp.Buffer.Search.Table.{Entry, nth}
use lite3_cpp.Buffer.Search.Held.{Keys, value_at}
use lite3_cpp.Buffer.Tree.{Tree, node, Trees, nil, cons, count, child_address}

-- The row of children: zeros in a leaf, and else one more child than there are keys.
abbrev pub Links : Memory → ℕ → List Entry → Trees → Type 0
Links m a es nil = (j : ℕ) → j < 8 → get_child_offset m a j ≡ 0
Links m a es (cons t ts) =
    (count (cons t ts) ≡ length es + 1)
    × ((j : ℕ)
        → j ≤ length es
        → (get_child_offset m a j ≡ child_address (cons t ts) j)
          × (child_address (cons t ts) j ≢ 0))

unfoldable mutual
  pub TreeAt : Memory → Bool → Tree → Type 0
  TreeAt m arr (node a es ts) =
      Keys m arr a es × (length es ≤ 7) × Links m a es ts × TreesAt m arr ts

  pub TreesAt : Memory → Bool → Trees → Type 0
  TreesAt m arr nil = Unit
  TreesAt m arr (cons t ts) = TreeAt m arr t × TreesAt m arr ts

-- Every value begins below `n`.
unfoldable mutual
  pub ValuesBelow : ℕ → Tree → Type 0
  ValuesBelow n (node a es ts) =
      ((j : ℕ) → j < length es → value_at false (nth es j) < n) × ValuesBelowOf n ts

  pub ValuesBelowOf : ℕ → Trees → Type 0
  ValuesBelowOf n nil = Unit
  ValuesBelowOf n (cons t ts) = ValuesBelow n t × ValuesBelowOf n ts
