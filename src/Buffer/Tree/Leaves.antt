-- ===== src/Buffer/Tree/Leaves.antt =====
-- A leaf as a tree, and the tree that the split of a root makes, apart from each other.
use lite3_cpp.Base.{ℕ, ◌+◌, ◌≤◌, Bool, List, arith}
use lite3_cpp.Node.{node_size}
use lite3_cpp.Buffer.State.{Buffer}
use lite3_cpp.Buffer.Insert.Leaf.{Apart, LeafIn}
use lite3_cpp.Buffer.Search.Table.{Entry}
use lite3_cpp.Buffer.Tree.{Tree, node, Trees, nil, cons}
use lite3_cpp.Buffer.Tree.Held.{TreeAt}
use lite3_cpp.Buffer.Tree.Frame.{Spans, SpansOf, SpansOf-map}
use lite3_cpp.Buffer.Tree.Tidy.{Off, OffOf, Tidy}
use lite3_cpp.Buffer.Split.Root.{lifted}

module _ (b : Buffer) (arr : Bool) (a : ℕ) (es : List Entry) (inv : LeafIn b arr a es) where
  pub LeafIn-TreeAt : TreeAt b.m_data arr (node a es nil)
  unfolding TreeAt
  LeafIn-TreeAt = (inv.leaf.keys, inv.leaf.room, inv.leaf.bottom, tt)

  pub LeafIn-Tidy : Tidy arr (node a es nil)
  unfolding Tidy Off Spans
  LeafIn-Tidy = (λ j h. (inv.apart j h, tt), tt, tt, tt)

  pub LeafIn-Spans : Spans (λ x n. x + n ≤ b.m_used_size) arr (node a es nil)
  unfolding Spans
  LeafIn-Spans = (inv.node_in, inv.below, tt)

-- What holds of every region.
module _ (P : ℕ → ℕ → Type 0) (arr : Bool) (always : (x n : ℕ) → P x n) where
  mutual
    unfolding Spans

    Spans-all : (t : Tree) → Spans P arr t
    Spans-all (node a es ts) = (always a node_size, λ j h. always _ _, SpansOf-all ts)

    pub SpansOf-all : (ts : Trees) → SpansOf P arr ts
    SpansOf-all nil = tt
    SpansOf-all (cons t ts) = (Spans-all t, SpansOf-all ts)

-- A region behind a tree is off its nodes.
module _ (arr : Bool) (u x n : ℕ) (behind : u ≤ x) where
  mutual
    unfolding Spans Off

    pub Spans-Off : (t : Tree) → Spans (λ y k. y + k ≤ u) arr t → Off t x n
    Spans-Off (node a es ts) h = (omega (arith, h.0), SpansOf-OffOf ts h.2)

    pub SpansOf-OffOf : (ts : Trees) → SpansOf (λ y k. y + k ≤ u) arr ts → OffOf ts x n
    SpansOf-OffOf nil h = tt
    SpansOf-OffOf (cons t ts) h = (Spans-Off t h.0, SpansOf-OffOf ts h.1)

-- The tree below an empty node, its old root moved behind the bytes it lies in.
module _ (arr : Bool) (a to u : ℕ) (es : List Entry) (ts : Trees) (behind : u ≤ to)
    (tidy : Tidy arr (node a es ts)) (inside : Spans (λ x n. x + n ≤ u) arr (node a es ts)) where
  pub lifted-Tidy : Tidy arr (lifted a to es ts)
  unfolding Tidy Spans Off
  lifted-Tidy = (
    λ j h. absurd (omega arith),
    ((omega (arith, inside.0), (λ j h. (tidy.0 j h).0), tidy.1), tt),
    ((omega (arith, inside.0), tidy.2), tt),
    (
      (
        λ j h. (omega (arith, inside.1 j h), (tidy.0 j h).1),
        SpansOf-map (λ x n. x + n ≤ u) (λ x n. Apart x n to node_size) arr (λ x n h. omega arith) ts
            inside.2,
        SpansOf-OffOf arr u to node_size behind ts inside.2,
        tidy.3,
      ),
      tt,
      Spans-tt,
      tt,
    ),
  )
    where
      Spans-tt : Spans (OffOf nil) arr (node to es ts)
      Spans-tt = Spans-all (OffOf nil) arr (λ x n. tt) (node to es ts)

  pub lifted-Spans : Spans (λ x n. x + n ≤ to + node_size) arr (lifted a to es ts)
  unfolding Spans
  lifted-Spans = (
    omega (arith, inside.0),
    λ j h. absurd (omega arith),
    (
      (
        omega arith,
        λ j h. omega (arith, inside.1 j h),
        SpansOf-map (λ x n. x + n ≤ u) (λ x n. x + n ≤ to + node_size) arr (λ x n h. omega arith) ts
            inside.2,
      ),
      tt,
    ),
  )
