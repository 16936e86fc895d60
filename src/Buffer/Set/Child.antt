-- ===== src/Buffer/Set/Child.antt =====
-- The round of `set_impl` that splits a full child of a node with room.
use lite3_cpp.Base.{
  ℕ, ◌+◌, ◌^◌, ◌<◌, ◌≤◌, ◌≡◌, refl, sym, ◌∙◌, ap, subst, Bool, true, false, List, [], length, arith,
  ltb, ◌==◌, if◌then◌else◌, size_max,
}
use lite3_cpp.Node.{Tag, node_size}
use lite3_cpp.Outcome.{ok}
use lite3_cpp.Buffer.State.{Buffer}
use lite3_cpp.Buffer.Compare.Order.{Key}
use lite3_cpp.Buffer.Search.{get_impl, rounds}
use lite3_cpp.Buffer.Search.Leaf.{found}
use lite3_cpp.Buffer.Search.Table.{Entry, nth, insert_at, lookup}
use lite3_cpp.Buffer.Tree.{Tree, node, Trees, count, entries, height}
use lite3_cpp.Buffer.Tree.Held.{TreeAt}
use lite3_cpp.Buffer.Tree.Frame.{Spans, Spans-map}
use lite3_cpp.Buffer.Tree.Order.{IsSorted, get_impl-entries}
use lite3_cpp.Buffer.Tree.Parts.{child, divide}
use lite3_cpp.Buffer.Tree.Tidy.{Tidy, TreesAt-child}
use lite3_cpp.Buffer.Tree.Height.{height-take_trees, height-drop_trees, height-divide}
use lite3_cpp.Buffer.Split.{align_up, make_room, split_child}
use lite3_cpp.Buffer.Split.Room.{make_room-TreeAt, make_room-fits, make_room-used}
use lite3_cpp.Buffer.Split.Halves.{lower_half, upper_half}
use lite3_cpp.Buffer.Split.Rows.{Links-inner}
use lite3_cpp.Buffer.Set.{continue, split_inner, split_round}
use lite3_cpp.Buffer.Set.Growth.{size-split_child}
use lite3_cpp.Buffer.Set.Inner.{split_child-TreeAt, found_child, entries_kept, promoted-hash}

-- The tree at a parent whose child `i` is halved, the upper half at `s`.
abbrev pub halved : ℕ → ℕ → ℕ → List Entry → Trees → ℕ → List Entry → Trees → Tree
halved p n s es ts i ces cts =
    node p (insert_at i (nth ces 3) es) (divide i (lower_half n ces cts) (upper_half s ces cts) ts)

abbrev pub halved_buffer : Buffer → ℕ → ℕ → ℕ → Buffer
halved_buffer b p n i = split_child (make_room b p) p n i

module _ (b : Buffer) (arr : Bool) (p n i : ℕ) (es ces : List Entry) (ts cts : Trees)
    (fits : b.m_used_size ≤ b.m_data.size) (addressable : b.m_used_size + 3 < 2 ^ 32)
    (held : TreeAt b.m_data arr (node p es ts)) (tidy : Tidy arr (node p es ts))
    (inside : Spans (λ x k. x + k ≤ b.m_used_size) arr (node p es ts)) (there : i < count ts)
    (at : child i ts ≡ node n ces cts) (full : length ces ≡ 7) (room : length es < 7) where
  abbrev pub roomy : Buffer
  roomy = make_room b p

  used : roomy.m_used_size ≡ align_up b.m_used_size
  used = make_room-used b p fits

  pub held₁ : TreeAt roomy.m_data arr (node p es ts)
  held₁ = make_room-TreeAt b p fits arr (node p es ts) inside held

  pub inside₁ : Spans (λ x k. x + k ≤ roomy.m_used_size) arr (node p es ts)
  inside₁ =
      Spans-map (λ x k. x + k ≤ b.m_used_size) (λ x k. x + k ≤ roomy.m_used_size) arr
        (λ x k h. omega (arith, used)) (node p es ts) inside

  pub addressable₁ : roomy.m_used_size < 2 ^ 32
  addressable₁ = omega (arith, used)

  child_held : TreeAt b.m_data arr (child i ts)
  unfolding TreeAt
  child_held = TreesAt-child arr b.m_data i ts there held.3

  abbrev t' : Tree
  t' = halved p n (align_up b.m_used_size) es ts i ces cts

  pub halved-at : TreeAt (halved_buffer b p n i).m_data arr t'
  halved-at =
      subst (λ s. TreeAt (halved_buffer b p n i).m_data arr (halved p n s es ts i ces cts)) used
        (split_child-TreeAt roomy arr p n i es ces ts cts held₁ tidy inside₁ there at full room
          addressable₁)

  pub halved-entries : entries t' ≡ entries (node p es ts)
  unfolding TreeAt
  halved-entries =
      let child_at = subst (TreeAt b.m_data arr) at child_held in
      subst (λ s. entries (halved p n s es ts i ces cts) ≡ entries (node p es ts)) used
        (entries_kept roomy arr p n i es ces ts cts held₁ tidy inside₁ there at full room
          addressable₁ (Links-inner b.m_data p es ts (omega arith) held.2).0
          (λ h. (Links-inner b.m_data n ces cts h child_at.2).0))

  pub halved-height : height t' ≤ height (node p es ts)
  unfolding height
  halved-height =
      let top : height (child i ts) ≡ height (node n ces cts) = ap height at in
      omega (
        arith,
        height-divide i (lower_half n ces cts) (upper_half (align_up b.m_used_size) ces cts) ts
            (omega (arith, top, height-take_trees 4 cts))
            (omega (arith, top, height-drop_trees 4 cts)),
      )

  pub halved-used : (halved_buffer b p n i).m_used_size ≡ align_up b.m_used_size + node_size
  unfolding split_child
  halved-used = ap (λ s. s + node_size) used

  pub split_round-halved :
      (text : List ℕ) (hash : ℕ) (val : List ℕ) (type : Tag)
      → split_round text hash val type arr b p n
        ≡ continue p
            (if ltb (nth ces 3).key.hash hash then align_up b.m_used_size else n)
            (halved_buffer b p n i)
  unfolding split_round split_inner Spans
  split_round-halved text hash val type =
      let below : (p == size_max) ≡ false = ground (arith, inside.0) in
      rw
        (
          below,
          split_inner,
          found_child roomy arr p n i es ces ts cts held₁ tidy inside₁ there at full room
              addressable₁,
          promoted-hash roomy arr p n i es ces ts cts held₁ tidy inside₁ there at full room
              addressable₁,
          used,
        )
        refl

  -- At a node of fewer than seven keys with a tree below it that lies in the used bytes, no node of
  -- it meeting another node or an entry, and with a child of seven keys, the used bytes inside the
  -- vector and at least four bytes below 2^32: the round that splits the child goes on below the
  -- same parent, at the sibling at the next aligned address if the sought hash is above that of the
  -- child's fourth key, and else at the child, and leaves the tree in which the child's lower and
  -- upper three keys stand before and behind its fourth, which the parent has in the child's place;
  -- the entries from left to right are those of before, the used bytes end behind the sibling,
  -- inside the vector, and if the entries are in the order of their keys and the tree has no more
  -- levels than the loops have rounds, `get_impl` at the parent finds under every key what it found
  -- before; in an array the key has no text.
  pub split_round-child :
      (text : List ℕ) (hash : ℕ) (val : List ℕ) (type : Tag)
      → (split_round text hash val type arr b p n
          ≡ continue p
              (if ltb (nth ces 3).key.hash hash then align_up b.m_used_size else n)
              (halved_buffer b p n i))
        × TreeAt
            (halved_buffer b p n i).m_data
            arr
            (halved p n (align_up b.m_used_size) es ts i ces cts)
        × (entries (halved p n (align_up b.m_used_size) es ts i ces cts) ≡ entries (node p es ts))
        × ((halved_buffer b p n i).m_used_size ≡ align_up b.m_used_size + node_size)
        × ((halved_buffer b p n i).m_used_size ≤ (halved_buffer b p n i).m_data.size)
        × (IsSorted (entries (node p es ts))
            → height (node p es ts) ≤ rounds b
            → (k : Key) → (arr ≡ true → k.text ≡ [])
            → get_impl (halved_buffer b p n i) p k.text k.hash arr ≡ get_impl b p k.text k.hash arr)
  split_round-child text hash val type = (
    split_round-halved text hash val type,
    halved-at,
    halved-entries,
    halved-used,
    omega (arith, halved-used, size-split_child roomy p n i, make_room-fits b p fits, used),
    λ sorted low k array.
        get_impl-entries (halved_buffer b p n i) arr t' k array halved-at
          (subst IsSorted (sym halved-entries) sorted) (omega (arith, halved-height, halved-used))
        ∙ ap (λ xs. ok (found arr (lookup k xs))) halved-entries
        ∙ sym (get_impl-entries b arr (node p es ts) k array held sorted low),
  )
