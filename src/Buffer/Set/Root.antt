-- ===== src/Buffer/Set/Root.antt =====
-- A round of `set_impl` at a full root.
use lite3_cpp.Base.{
  ℕ, ◌+◌, ◌^◌, ◌<◌, ◌≤◌, ◌≡◌, refl, ◌∙◌, sym, ap, Bool, true, List, [], arith, size_max,
}
use lite3_cpp.Node.{Tag, node_size, generation, tag, size}
use lite3_cpp.Node.Frame.{tag-same, size-same}
use lite3_cpp.Buffer.Set.Growth.{size-split_root}
use lite3_cpp.Outcome.{ok}
use lite3_cpp.Buffer.State.{Buffer}
use lite3_cpp.Buffer.Compare.Order.{Key}
use lite3_cpp.Buffer.Search.{get_impl, rounds}
use lite3_cpp.Buffer.Search.Leaf.{found}
use lite3_cpp.Buffer.Search.Table.{Entry, lookup, position}
use lite3_cpp.Buffer.Insert.Leaf.{Apart}
use lite3_cpp.Buffer.Tree.{Tree, node, Trees, height, lookup_tree}
use lite3_cpp.Buffer.Tree.Held.{TreeAt}
use lite3_cpp.Buffer.Tree.Get.{get_impl-Tree}
use lite3_cpp.Buffer.Tree.Frame.{EntrySpans, Spans, SpansOf, SpansOf-map}
use lite3_cpp.Buffer.Split.{align_up, make_room, split_root}
use lite3_cpp.Buffer.Split.Room.{make_room-TreeAt, make_room-fits, make_room-used, make_room-kept}
use lite3_cpp.Buffer.Split.Root.{lifted, split_root-Tree}
use lite3_cpp.Buffer.Set.{replace, split_round}

-- What lies in the used bytes, apart from the node at `a`.
abbrev pub InUsed : Buffer → ℕ → ℕ → ℕ → Type 0
InUsed b a x n = (Apart x n a node_size) × (x + n ≤ b.m_used_size)

abbrev pub raised_buffer : Buffer → ℕ → Buffer
raised_buffer b a = split_root (make_room b size_max) a

-- The tree with the root's keys and children one level below.
abbrev pub raised : Buffer → ℕ → List Entry → Trees → Tree
raised b a es ts = lifted a (align_up b.m_used_size) es ts

module _ (b : Buffer) (arr : Bool) (a : ℕ) (es : List Entry) (ts : Trees)
    (fits : b.m_used_size ≤ b.m_data.size) (node_in : a + node_size ≤ b.m_used_size)
    (addressable : b.m_used_size + 3 < 2 ^ 32) (held : TreeAt b.m_data arr (node a es ts))
    (entries : EntrySpans (InUsed b a) arr es) (children : SpansOf (InUsed b a) arr ts) where
  abbrev roomy : Buffer
  roomy = make_room b size_max

  in_used : Spans (λ x n. x + n ≤ b.m_used_size) arr (node a es ts)
  unfolding Spans
  in_used = (
    node_in,
    λ j p. (entries j p).1,
    SpansOf-map (InUsed b a) (λ x n. x + n ≤ b.m_used_size) arr (λ x n h. h.1) ts children,
  )

  grown : align_up b.m_used_size ≡ roomy.m_used_size
  grown = sym (make_room-used b size_max fits)

  widen : (x n : ℕ) → InUsed b a x n → InUsed roomy a x n
  widen x n h = (h.0, omega (arith, h.1, grown))

  above : a + node_size ≤ roomy.m_used_size
  above = omega (arith, node_in, grown)

  low : roomy.m_used_size < 2 ^ 32
  low = omega (arith, addressable, grown)

  raised-at :
      TreeAt (raised_buffer b a).m_data arr (raised b a es ts)
      × (generation (raised_buffer b a).m_data a ≡ 1)
      × (tag (raised_buffer b a).m_data a ≡ tag roomy.m_data a)
      × (size (raised_buffer b a).m_data a ≡ size roomy.m_data a)
      × ((raised_buffer b a).m_used_size ≡ roomy.m_used_size + node_size)
  unfolding make_room
  raised-at =
      split_root-Tree roomy a above low arr es ts
        (make_room-TreeAt b size_max fits arr (node a es ts) in_used held)
        (λ j p. widen _ _ (entries j p))
        (SpansOf-map (InUsed b a) (InUsed roomy a) arr widen ts children)

  get_impl-raised :
      height (node a es ts) < rounds b
      → (k : Key) → (arr ≡ true → k.text ≡ [])
      → get_impl (raised_buffer b a) a k.text k.hash arr ≡ get_impl b a k.text k.hash arr
  unfolding height lookup_tree
  get_impl-raised flat k array =
      get_impl-Tree (raised_buffer b a) arr (raised b a es ts) k array raised-at.0
        (omega (arith, raised-at.4, grown))
      ∙ ap (λ r. ok (found arr r)) lookup-raised
      ∙ sym (get_impl-Tree b arr (node a es ts) k array held (omega arith))
    where
      lookup-raised : lookup_tree k (raised b a es ts) ≡ lookup_tree k (node a es ts)
      lookup-raised = unfold lookup position in refl

  -- At the root of a tree that lies in the used bytes, the root apart from every other node and
  -- every entry, the used bytes inside the vector and at least four bytes below 2^32, of fewer
  -- levels than the loops have rounds: the round that splits the root goes on at the old root's
  -- copy at the next aligned address, and leaves there the tree with its root's keys and children
  -- one level below an empty node of generation 1 at the root's address; type and size of the root
  -- are kept, the used bytes end behind the copy, inside the vector, and `get_impl` finds under
  -- every key what it found before; in an array the key has no text.
  pub split_round-root :
      (text : List ℕ) (hash : ℕ) (val : List ℕ) (type : Tag)
      → height (node a es ts) < rounds b
      → (split_round text hash val type arr b size_max a
          ≡ replace a (align_up b.m_used_size) (raised_buffer b a))
        × TreeAt (raised_buffer b a).m_data arr (raised b a es ts)
        × (generation (raised_buffer b a).m_data a ≡ 1)
        × (tag (raised_buffer b a).m_data a ≡ tag b.m_data a)
        × (size (raised_buffer b a).m_data a ≡ size b.m_data a)
        × ((raised_buffer b a).m_used_size ≡ align_up b.m_used_size + node_size)
        × ((raised_buffer b a).m_used_size ≤ (raised_buffer b a).m_data.size)
        × ((k : Key)
            → (arr ≡ true → k.text ≡ [])
            → get_impl (raised_buffer b a) a k.text k.hash arr ≡ get_impl b a k.text k.hash arr)
  unfolding split_round
  split_round-root text hash val type flat =
      let same = make_room-kept b size_max fits a node_size node_in in
      (
        ap (λ x. replace a x (raised_buffer b a)) (sym grown),
        raised-at.0,
        raised-at.1,
        raised-at.2 ∙ tag-same b.m_data roomy.m_data a same,
        raised-at.3 ∙ size-same b.m_data roomy.m_data a same,
        raised-at.4 ∙ ap (λ n. n + node_size) (sym grown),
        omega (arith, raised-at.4, size-split_root roomy a, make_room-fits b size_max fits),
        get_impl-raised flat,
      )
