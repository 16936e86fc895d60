-- ===== src/Buffer/Set/Inner.antt =====
-- A round of `set_impl` at a full node below a parent.
use lite3_cpp.Base.{
  ℕ, zero, suc, ◌+◌, ◌^◌, ◌<◌, ◌≤◌, ◌≡◌, ◌≢◌, sym, ◌∙◌, ap, ap₂, subst, Bool, true, List, ◌∷◌, ◌++◌,
  some, length, arith, ◌==◌, ==_iff, Bool-cases, inl, inr,
}
use lite3_cpp.Memory.{Memory}
use lite3_cpp.Node.{key_count, get_hash, get_child_offset}
use lite3_cpp.Node.Head.{SameHead}
use lite3_cpp.Buffer.State.{Buffer}
use lite3_cpp.Buffer.Insert.Leaf.{Apart}
use lite3_cpp.Buffer.Search.Table.{Entry, nth, insert_at}
use lite3_cpp.Buffer.Tree.{node, Trees, address, count, child_address, entries}
use lite3_cpp.Buffer.Tree.Held.{TreeAt}
use lite3_cpp.Buffer.Tree.Frame.{EntrySpans, Spans-address, Spans, SpansOf, Kept}
use lite3_cpp.Buffer.Tree.Parts.{child, divide, take, drop, take_trees, drop_trees}
use lite3_cpp.Buffer.Tree.Spread.{entries-spread, spread-divide, spread-halves}
use lite3_cpp.Buffer.Tree.Tidy.{
  Off, Tidy, OffOf-child, TidyOf-child, SpansOf-child, Others, Others-child, SpansOf-Others,
  TidyOf-Others, SpansOf-zip, Others-zip, TreesAt-child,
}
use lite3_cpp.Buffer.Split.{find_child, split_child}
use lite3_cpp.Buffer.Split.Divides.{Divides}
use lite3_cpp.Buffer.Split.Child.{split_child-Divides}
use lite3_cpp.Buffer.Split.Halves.{lower_half, upper_half, parent-TreeAt}
use lite3_cpp.Buffer.Split.Rows.{Links-inner, child_address-child}

-- `i_in_parent` is the place of the child.
find_child-some :
    (m : Memory) (p n i : ℕ) (left k : ℕ)
    → ((x : ℕ) → x < i → get_child_offset m p x ≢ n)
    → get_child_offset m p i ≡ n
    → k ≤ i
    → i < k + left
    → find_child m p n k left ≡ some i
unfolding find_child
find_child-some m p n i zero k before at lo hi = absurd (omega arith)
find_child-some m p n i (suc left) k before at lo hi = elim (Bool-cases (k == i)) [
  | inl here ↦
      let same : k ≡ i = (==_iff k i).0 here in
      let hit : (get_child_offset m p k == n) ≡ true =
        (==_iff _ _).1 (ap (get_child_offset m p) same ∙ at) in
      rw (find_child, hit) (ap some same)
  | inr past ↦
      let less : k < i = ground arith in
      elim (Bool-cases (get_child_offset m p k == n)) [
        | inl hit ↦ absurd (before k less ((==_iff _ _).0 hit))
        | inr miss ↦
            rw (find_child, miss)
              (find_child-some m p n i left (k + 1) before at (omega arith) (omega arith))
      ]
]

-- A parent at `p` with room, whose child `i` is full, in the used bytes.
module _ (b : Buffer) (arr : Bool) (p n i : ℕ) (es ces : List Entry) (ts cts : Trees)
    (held : TreeAt b.m_data arr (node p es ts)) (tidy : Tidy arr (node p es ts))
    (inside : Spans (λ x k. x + k ≤ b.m_used_size) arr (node p es ts)) (there : i < count ts)
    (at : child i ts ≡ node n ces cts) (full : length ces ≡ 7) (room : length es < 7)
    (addressable : b.m_used_size < 2 ^ 32) where
  abbrev pub m : Memory
  m = b.m_data

  abbrev pub s : ℕ
  s = b.m_used_size

  abbrev m' : Memory
  m' = (split_child b p n i).m_data

  -- What the split keeps: the regions in the used bytes that meet neither the parent nor the child.
  abbrev pub Clear : ℕ → ℕ → Type 0
  Clear x k = (Apart x k p 96) × (Apart x k n 96) × (x + k ≤ s)

  child_held : TreeAt m arr (node n ces cts)
  unfolding TreeAt
  child_held = subst (TreeAt m arr) at (TreesAt-child arr m i ts there held.3)

  pub child-Tidy : Tidy arr (node n ces cts)
  unfolding Tidy
  child-Tidy = subst (Tidy arr) at (TidyOf-child arr i ts there tidy.3)

  pub child_inside : Spans (λ x k. x + k ≤ s) arr (node n ces cts)
  unfolding Spans
  child_inside =
      subst (Spans (λ x k. x + k ≤ s) arr) at
        (SpansOf-child arr (λ x k. x + k ≤ s) i ts there inside.2)

  pub child-Apart : Spans (λ x k. Apart x k p 96) arr (node n ces cts)
  unfolding Tidy
  child-Apart =
      subst (Spans (λ x k. Apart x k p 96) arr) at
        (SpansOf-child arr (λ x k. Apart x k p 96) i ts there tidy.1)

  Off-Apart : (x k : ℕ) → Off (child i ts) x k → Apart x k n 96
  unfolding Off
  Off-Apart x k off = (subst (λ t. Off t x k) at off).0

  divides : Divides m m' p n s i
  unfolding Spans TreeAt
  divides =
      split_child-Divides b p n i inside.0 child_inside.0 (omega (arith, child-Apart.0)) addressable
        (omega (arith, child_held.0.count)) (omega (arith, held.0.count))
        (omega (arith, held.0.count, (Links-inner m p es ts (omega arith) held.2).0))

  pub split_child-SameHead : SameHead m m' p
  split_child-SameHead = divides.parent_head

  pub keeps : (x k : ℕ) → Clear x k → Kept m m' arr x k
  keeps x k h = divides.kept x k h.0 h.1 h.2

  child_entries : EntrySpans (Kept m m' arr) arr ces
  unfolding Spans Tidy
  child_entries j h = keeps _ _ (child-Apart.1 j h, (child-Tidy.0 j h).0, child_inside.1 j h)

  child_children : SpansOf (Kept m m' arr) arr cts
  unfolding Spans Tidy
  child_children =
      SpansOf-zip arr (λ x k. Apart x k p 96) (λ x k. (Apart x k n 96) × (x + k ≤ s))
        (Kept m m' arr) (λ x k h h'. keeps x k (h, h'.0, h'.1)) cts child-Apart.2
        (SpansOf-zip arr (λ x k. Apart x k n 96) (λ x k. x + k ≤ s)
          (λ x k. (Apart x k n 96) × (x + k ≤ s)) (λ x k h h'. (h, h')) cts child-Tidy.1
          child_inside.2)

  parent_entries : EntrySpans (Kept m m' arr) arr es
  unfolding Spans Tidy
  parent_entries j h =
      keeps _ _
        ((tidy.0 j h).0, Off-Apart _ _ (OffOf-child i ts _ _ there (tidy.0 j h).1), inside.1 j h)

  others : Others arr (Kept m m' arr) i ts
  unfolding Spans Tidy
  others =
      Others-zip arr (λ x k. (Apart x k p 96) × (x + k ≤ s)) (Off (child i ts)) (Kept m m' arr)
        (λ x k h h'. keeps x k (h.0, Off-Apart x k h', h.1)) i ts
        (SpansOf-Others arr (λ x k. (Apart x k p 96) × (x + k ≤ s)) i ts
          (SpansOf-zip arr (λ x k. Apart x k p 96) (λ x k. x + k ≤ s)
            (λ x k. (Apart x k p 96) × (x + k ≤ s)) (λ x k h h'. (h, h')) ts tidy.1 inside.2))
        (TidyOf-Others arr i ts there tidy.3)

  pub split_child-TreeAt : TreeAt m' arr (
      node p
        (insert_at i (nth ces 3) es)
        (divide i (lower_half n ces cts) (upper_half s ces cts) ts))
  unfolding Spans
  split_child-TreeAt =
      parent-TreeAt m m' arr p n s i ces cts divides full child_held child_entries child_children es
        ts there room at (λ e. omega (arith, inside.0, e)) held parent_entries others

  apart_child : (x : ℕ) → x < i → child_address ts x ≢ n
  unfolding Tidy
  apart_child x h e =
      let off =
        Others-child arr (Off (child i ts)) i x ts (omega arith) (λ e'. omega (arith, e'))
          (TidyOf-Others arr i ts there tidy.3) in
      let apart =
        Off-Apart (address (child x ts)) 96
          (Spans-address (Off (child i ts)) arr (child x ts) off) in
      omega (arith, apart, child_address-child x ts (omega arith), e)

  pub found_child : find_child m p n 0 (key_count m p + 1) ≡ some i
  unfolding TreeAt Tidy Spans
  found_child =
      let inner = Links-inner m p es ts (omega arith) held.2 in
      let here : child_address ts i ≡ n = child_address-child i ts there ∙ ap address at in
      find_child-some m p n i (key_count m p + 1) 0
        (λ x h e. apart_child x h (sym ((inner.1 x (omega (arith, inner.0))).0) ∙ e))
        ((inner.1 i (omega (arith, inner.0))).0 ∙ here) (omega arith)
        (omega (arith, inner.0, held.0.count))

  -- The same entries in the same order.
  pub entries_kept :
      count ts ≡ length es + 1
      → (0 < count cts → count cts ≡ length ces + 1)
      → entries (
          node p
            (insert_at i (nth ces 3) es)
            (divide i (lower_half n ces cts) (upper_half s ces cts) ts))
        ≡ entries (node p es ts)
  entries_kept counted child_counted =
      entries-spread p (insert_at i (nth ces 3) es)
        (divide i (lower_half n ces cts) (upper_half s ces cts) ts)
      ∙ spread-divide i (nth ces 3) (lower_half n ces cts) (upper_half s ces cts) es ts there
          counted
          (ap entries at
            ∙ entries-spread n ces cts
            ∙ spread-halves 3 ces cts (omega arith) child_counted
            ∙ ap₂ (λ xs ys. xs ++ (nth ces 3 ∷ ys))
                (sym (entries-spread n (take 3 ces) (take_trees 4 cts)))
                (sym (entries-spread s (drop 4 ces) (drop_trees 4 cts))))
      ∙ sym (entries-spread p es ts)

  pub promoted-hash : get_hash m' p i ≡ (nth ces 3).key.hash
  unfolding TreeAt
  promoted-hash =
      let inner = Links-inner m p es ts (omega arith) held.2 in
      divides.parent_hash i (omega (arith, inner.0, held.0.count))
      ∙ ground arith
      ∙ child_held.0.hashes 3 (omega arith)
