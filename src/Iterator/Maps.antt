-- ===== src/Iterator/Maps.antt =====
-- The walk over an object of any size.
use lite3_cpp.Base.{ℕ, ◌+◌, ◌^◌, ◌<◌, ◌≤◌, ◌≡◌, ap, subst, false, List, length, arith}
use mathlib.Core.List.{map}
use lite3_cpp.Outcome.{ok}
use lite3_cpp.Buffer.State.{Buffer}
use lite3_cpp.Buffer.Entry.{value_len}
use lite3_cpp.Buffer.Search.Table.{Entry, nth}
use lite3_cpp.Buffer.Search.Held.{value_at, entry_size}
use lite3_cpp.Buffer.Tree.{Tree, node, Trees, nil, cons, address, height}
use lite3_cpp.Buffer.Tree.Held.{ValuesBelow, ValuesBelowOf}
use lite3_cpp.Buffer.Tree.Frame.{Spans, SpansOf, Spans-address}
use lite3_cpp.Buffer.Tree.Order.{TreeAt-IsFormed}
use lite3_cpp.Buffer.Tree.Depth.{Even-levels}
use lite3_cpp.Buffer.Map.{IsMap}
use lite3_cpp.Iterator.{begin, items}
use lite3_cpp.Iterator.Step.{item}
use lite3_cpp.Iterator.Walk.{items-begin}

starts : (u n : ℕ) (e : Entry) → u ≤ n → e.address + entry_size false e ≤ u → value_at false e < n
unfolding value_len
starts u n e le h = omega arith

-- A value begins before the entry ends.
module _ (u n : ℕ) (le : u ≤ n) where
  mutual
    unfolding Spans ValuesBelow

    Spans-ValuesBelow : (t : Tree) → Spans (λ x k. x + k ≤ u) false t → ValuesBelow n t
    Spans-ValuesBelow (node a es ts) h =
        ((λ j p. starts u n (nth es j) le (h.1 j p)), SpansOf-ValuesBelowOf ts h.2)

    SpansOf-ValuesBelowOf : (ts : Trees) → SpansOf (λ x k. x + k ≤ u) false ts → ValuesBelowOf n ts
    SpansOf-ValuesBelowOf nil h = tt
    SpansOf-ValuesBelowOf (cons t ts) h = (Spans-ValuesBelow t h.0, SpansOf-ValuesBelowOf ts h.1)

module _ (b : Buffer) (a : ℕ) (es : List Entry) (h : ℕ) (map' : IsMap b false a es h)
    (few : length es + 1 < 4 ^ 10) where
  pub IsMap-low : height map'.tree ≤ 10
  IsMap-low =
      Even-levels 10 map'.tree map'.depth
        (TreeAt-IsFormed b.m_data false map'.tree map'.stored.held) map'.even
        (omega (arith, ap (λ xs. length xs) map'.listed))

  pub IsMap-ValuesBelow : ValuesBelow b.m_data.size map'.tree
  IsMap-ValuesBelow =
      Spans-ValuesBelow b.m_used_size b.m_data.size map'.stored.fits map'.tree map'.stored.inside

  pub IsMap-data : 0 < b.m_data.size
  IsMap-data = omega (
    arith,
    Spans-address (λ x k. x + k ≤ b.m_used_size) false map'.tree map'.stored.inside,
    map'.stored.fits,
  )

  -- At an object of any size (`IsMap`) of fewer than 4^10 - 1 entries: a loop from `begin` to `end`
  -- ends, and its items are the entries in the order of their keys, each with its key, the address
  -- of its value and its type.
  pub items-IsMap : (fuel : ℕ) → length es < fuel → items b fuel (begin b a) ≡ ok (map item es)
  items-IsMap fuel enough =
      subst (λ x. items b fuel (begin b x) ≡ ok (map item es)) map'.at
        (subst (λ xs. items b fuel (begin b (address map'.tree)) ≡ ok (map item xs)) map'.listed
          (items-begin b IsMap-data map'.tree fuel map'.stored.held IsMap-ValuesBelow IsMap-low
            (omega (arith, ap (λ xs. length xs) map'.listed))))
