-- ===== src/Tests/Full.antt =====
-- The theorem on the split of a full child, at an object of seven members whose root has been split.
use lite3_cpp.Base.{
  ℕ, subst, sym, ◌+◌, ◌≤◌, ◌≡◌, ◌≢◌, refl, true, false, List, [], ◌∷◌, arith, length, ltb,
  if◌then◌else◌,
}
use lite3_cpp.Node.{string, node_size}
use lite3_cpp.Outcome.{ok}
use lite3_cpp.Buffer.State.{Buffer, init_structure, new}
use lite3_cpp.Buffer.Entry.{value_len}
use lite3_cpp.Buffer.Compare.Order.{Key}
use lite3_cpp.Buffer.Search.{get_impl, rounds}
use lite3_cpp.Buffer.Search.Table.{Entry, nth}
use lite3_cpp.Buffer.Insert.Leaf.{LeafIn}
use lite3_cpp.Buffer.Object.Many.{
  Members, Distinct, Short, total_len, put_all, put_all-leaf, nothing-Fresh,
}
use lite3_cpp.Buffer.Tree.{node, Trees, nil, cons, entries, height}
use lite3_cpp.Buffer.Tree.Held.{TreeAt}
use lite3_cpp.Buffer.Tree.Frame.{Spans, SpansOf}
use lite3_cpp.Buffer.Tree.Order.{IsSorted}
use lite3_cpp.Buffer.Tree.Parts.{child}
use lite3_cpp.Buffer.Tree.Tidy.{Tidy}
use lite3_cpp.Buffer.Tree.Leaves.{
  LeafIn-TreeAt, LeafIn-Tidy, LeafIn-Spans, lifted-Tidy, lifted-Spans,
}
use lite3_cpp.Buffer.Split.{align_up}
use lite3_cpp.Buffer.Set.{continue, split_round}
use lite3_cpp.Buffer.Set.Root.{InUsed, raised, raised_buffer, split_round-root}
use lite3_cpp.Buffer.Set.Child.{halved, halved_buffer, split_round-child}
use lite3_cpp.Tests.Objects.{empty, empty_leaf}

abbrev seven_members : Members
seven_members =
    (b'a' ∷ [], 1 ∷ [])
    ∷ (b'b' ∷ [], 2 ∷ [])
    ∷ (b'c' ∷ [], 3 ∷ [])
    ∷ (b'd' ∷ [], 4 ∷ [])
    ∷ (b'e' ∷ [], 5 ∷ [])
    ∷ (b'f' ∷ [], 6 ∷ [])
    ∷ (b'g' ∷ [], 7 ∷ [])
    ∷ []

char_of : (c d : ℕ) → c ∷ [] ≡ d ∷ [] → c ≡ d
char_of c d e = cc

other : (c d : ℕ) → c ≢ d → c ∷ [] ≢ d ∷ []
other c d ne e = ne (char_of c d e)

seven-Distinct : Distinct seven_members
seven-Distinct = (
  (
    other b'b' b'a' (omega arith),
    (
      other b'c' b'a' (omega arith),
      (
        other b'd' b'a' (omega arith),
        (
          other b'e' b'a' (omega arith),
          (other b'f' b'a' (omega arith), (other b'g' b'a' (omega arith), tt)),
        ),
      ),
    ),
  ),
  (
    (
      other b'c' b'b' (omega arith),
      (
        other b'd' b'b' (omega arith),
        (
          other b'e' b'b' (omega arith),
          (other b'f' b'b' (omega arith), (other b'g' b'b' (omega arith), tt)),
        ),
      ),
    ),
    (
      (
        other b'd' b'c' (omega arith),
        (
          other b'e' b'c' (omega arith),
          (other b'f' b'c' (omega arith), (other b'g' b'c' (omega arith), tt)),
        ),
      ),
      (
        (
          other b'e' b'd' (omega arith),
          (other b'f' b'd' (omega arith), (other b'g' b'd' (omega arith), tt)),
        ),
        (
          (other b'f' b'e' (omega arith), (other b'g' b'e' (omega arith), tt)),
          ((other b'g' b'f' (omega arith), tt), (tt, tt)),
        ),
      ),
    ),
  ),
)

seven-Short : Short seven_members
seven-Short = (
  (omega arith, omega arith),
  (
    (omega arith, omega arith),
    (
      (omega arith, omega arith),
      (
        (omega arith, omega arith),
        (
          (omega arith, omega arith),
          ((omega arith, omega arith), ((omega arith, omega arith), tt)),
        ),
      ),
    ),
  ),
)

seven_len : total_len seven_members ≡ 70
unfolding total_len value_len
seven_len = refl

empty_used : empty.m_used_size ≡ 96
unfolding init_structure new
empty_used = refl

-- The object of seven members.
filled :
    (b' : Buffer) × (es' : List Entry) × (put_all empty 0 seven_members ≡ ok b')
    × LeafIn b' false 0 es'
    × (length es' ≡ 0 + 7)
    × (b'.m_used_size ≡ empty.m_used_size + total_len seven_members)
filled =
    put_all-leaf 0 seven_members empty [] empty_leaf (omega arith) seven-Distinct seven-Short
      (nothing-Fresh seven_members) (omega (arith, seven_len, empty_used))

abbrev b₇ : Buffer
b₇ = filled.0

abbrev es₇ : List Entry
es₇ = filled.1

leaf₇ : LeafIn b₇ false 0 es₇
leaf₇ = filled.3

counted : length es₇ ≡ 7
counted = filled.4

used₇ : b₇.m_used_size ≡ 166
used₇ = omega (arith, filled.5, seven_len, empty_used)

-- The root split, and its only child full.
abbrev b₈ : Buffer
b₈ = raised_buffer b₇ 0

no_children : SpansOf (InUsed b₇ 0) false nil
unfolding SpansOf
no_children = tt

flat : height (node 0 es₇ nil) ≡ 1
unfolding height
flat = refl

root_split :
    TreeAt b₈.m_data false (raised b₇ 0 es₇ nil)
    × (b₈.m_used_size ≡ align_up b₇.m_used_size + node_size)
    × (b₈.m_used_size ≤ b₈.m_data.size)
root_split =
    let all =
      split_round-root b₇ false 0 es₇ nil leaf₇.fits leaf₇.node_in (omega (arith, used₇))
        (LeafIn-TreeAt b₇ false 0 es₇ leaf₇) (λ j p. (leaf₇.apart j p, leaf₇.below j p)) no_children
        [] 0 [] string (omega (arith, flat)) in
    (all.1, all.5, all.6)

tidy : Tidy false (raised b₇ 0 es₇ nil)
tidy =
    lifted-Tidy false 0 (align_up b₇.m_used_size) b₇.m_used_size es₇ nil (omega arith)
      (LeafIn-Tidy b₇ false 0 es₇ leaf₇) (LeafIn-Spans b₇ false 0 es₇ leaf₇)

inside : Spans (λ x n. x + n ≤ b₈.m_used_size) false (raised b₇ 0 es₇ nil)
inside =
    subst (λ u. Spans (λ x n. x + n ≤ u) false (raised b₇ 0 es₇ nil)) (sym root_split.1)
      (lifted-Spans false 0 (align_up b₇.m_used_size) b₇.m_used_size es₇ nil (omega arith)
        (LeafIn-Tidy b₇ false 0 es₇ leaf₇) (LeafIn-Spans b₇ false 0 es₇ leaf₇))

abbrev only_child : Trees
only_child = cons (node (align_up b₇.m_used_size) es₇ nil) nil

first_child : child 0 only_child ≡ node (align_up b₇.m_used_size) es₇ nil
unfolding child
first_child = refl

split_round-child_example :
    (split_round [] 0 [] string false b₈ 0 (align_up b₇.m_used_size)
      ≡ continue 0
          (if ltb (nth es₇ 3).key.hash 0 then align_up b₈.m_used_size else align_up b₇.m_used_size)
          (halved_buffer b₈ 0 (align_up b₇.m_used_size) 0))
    × TreeAt
        (halved_buffer b₈ 0 (align_up b₇.m_used_size) 0).m_data
        false
        (halved 0 (align_up b₇.m_used_size) (align_up b₈.m_used_size) [] only_child 0 es₇ nil)
    × (entries
          (halved 0 (align_up b₇.m_used_size) (align_up b₈.m_used_size) [] only_child 0 es₇ nil)
        ≡ entries (node 0 [] only_child))
    × ((halved_buffer b₈ 0 (align_up b₇.m_used_size) 0).m_used_size
        ≡ align_up b₈.m_used_size + node_size)
    × ((halved_buffer b₈ 0 (align_up b₇.m_used_size) 0).m_used_size
        ≤ (halved_buffer b₈ 0 (align_up b₇.m_used_size) 0).m_data.size)
    × (IsSorted (entries (node 0 [] only_child))
        → height (node 0 [] only_child) ≤ rounds b₈
        → (k : Key) → (false ≡ true → k.text ≡ [])
        → get_impl (halved_buffer b₈ 0 (align_up b₇.m_used_size) 0) 0 k.text k.hash false
          ≡ get_impl b₈ 0 k.text k.hash false)
split_round-child_example =
    split_round-child b₈ false 0 (align_up b₇.m_used_size) 0 [] es₇ only_child nil root_split.2
      (omega (arith, root_split.1, used₇)) root_split.0 tidy inside (omega arith) first_child
      counted (omega arith) [] 0 [] string
