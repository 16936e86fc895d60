-- ===== src/Buffer/Tree/Entries.antt =====
-- Every entry of a tree lies in memory.
use lite3_cpp.Base.{ℕ, suc, ◌<◌, false, List, [], ◌∷◌, ◌++◌, All, arith, length}
use lite3_cpp.Memory.{Memory}
use lite3_cpp.Buffer.Search.Table.{Entry, nth}
use lite3_cpp.Buffer.Search.Held.{Held, value_at}
use lite3_cpp.Buffer.Tree.{Tree, node, Trees, nil, cons, entries, weave}
use lite3_cpp.Buffer.Tree.Held.{TreeAt, TreesAt, ValuesBelow, ValuesBelowOf}

pub All-append :
    {A : Type 0} (P : A → Type 0) (xs ys : List A) → All P xs → All P ys → All P (xs ++ ys)
All-append P [] ys h k = k
All-append P (x ∷ xs) ys h k = (h.0, All-append P xs ys h.1 k)

module _ (m : Memory) where
  -- An entry whose value begins in the buffer.
  abbrev pub IsHeld : Entry → Type 0
  IsHeld e = Held m false e × (value_at false e < m.size)

  All-nth :
      (es : List Entry)
      → ((j : ℕ) → j < length es → Held m false (nth es j))
      → ((j : ℕ) → j < length es → value_at false (nth es j) < m.size)
      → All IsHeld es
  All-nth [] h k = tt
  All-nth (e ∷ es) h k = (
    (h 0 (omega arith), k 0 (omega arith)),
    All-nth es (λ j p. h (suc j) (omega arith)) (λ j p. k (suc j) (omega arith)),
  )

  mutual
    unfolding entries TreeAt ValuesBelow

    pub entries-IsHeld :
        (t : Tree) → TreeAt m false t → ValuesBelow m.size t → All IsHeld (entries t)
    entries-IsHeld (node a es nil) held inside = All-nth es held.0.held inside.0
    entries-IsHeld (node a es (cons t ts)) held inside =
        All-append IsHeld (entries t) (weave es ts) (entries-IsHeld t held.3.0 inside.1.0)
          (weave-IsHeld es ts (All-nth es held.0.held inside.0) held.3.1 inside.1.1)

    weave-IsHeld :
        (es : List Entry) (ts : Trees)
        → All IsHeld es
        → TreesAt m false ts
        → ValuesBelowOf m.size ts
        → All IsHeld (weave es ts)
    weave-IsHeld es nil all held inside = all
    weave-IsHeld [] (cons t ts) all held inside = tt
    weave-IsHeld (e ∷ es) (cons t ts) all held inside = (
      all.0,
      All-append IsHeld (entries t) (weave es ts) (entries-IsHeld t held.0 inside.0)
          (weave-IsHeld es ts all.1 held.1 inside.1),
    )
