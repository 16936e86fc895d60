-- ===== src/Buffer/Split/Root.antt =====
-- `split_root` on a tree.
use lite3_cpp.Base.{
  ℕ, zero, suc, ◌+◌, ◌*◌, ◌/◌, ◌%◌, ◌^◌, ◌<◌, ◌≤◌, ◌≡◌, ◌≢◌, refl, sym, ◌∙◌, ap, Bool, List, [],
  length, arith, u32, inl, inr,
}
use lite3_cpp.Memory.{Memory, copy, clear, load32}
use lite3_cpp.Memory.Laws.{SameOn, SameOutside, load32-store32, load32-store32_outside}
use lite3_cpp.Memory.Frame.{load32-outside, clear-outside}
use lite3_cpp.Memory.Copy.{Moved, copy-Moved, copy-outside, load32-Moved}
use lite3_cpp.Node.{
  code, of_code, node_size, generation, tag, size, key_count, get_hash, get_kv_offset,
  get_child_offset, set_gen_type, set_size_kc, set_key_count, set_child_offset,
}
use lite3_cpp.Node.Laws.{
  generation_lem, tag_lem, size_lem, key_count_lem, set_gen_type_word, set_size_kc_word,
  code-of_code,
}
use lite3_cpp.Node.Frame.{
  set_gen_type-outside, set_key_count-outside, set_child_offset-outside, set_size_kc-outside,
}
use lite3_cpp.Buffer.State.{Buffer}
use lite3_cpp.Buffer.Insert.Leaf.{Apart}
use lite3_cpp.Buffer.Search.Table.{Entry, nth}
use lite3_cpp.Buffer.Search.Held.{Keys}
use lite3_cpp.Buffer.Search.Frame.{Held-same}
use lite3_cpp.Buffer.Tree.{Tree, node, Trees, nil, cons, address, child_address}
use lite3_cpp.Buffer.Tree.Held.{Links, TreeAt}
use lite3_cpp.Buffer.Tree.Frame.{EntrySpans, SpansOf, SpansOf-map, Kept, TreesAt-same}
use lite3_cpp.Buffer.Split.{split_root}

-- A node that is moved reads as it did.
module _ (m m' : Memory) (a a' : ℕ) (moved : Moved m a m' a' node_size) where
  word : (k : ℕ) → k + 4 ≤ node_size → load32 m' (a' + k) ≡ load32 m (a + k)
  word k h = load32-Moved m m' a a' node_size k moved h

  key_count-Moved : key_count m' a' ≡ key_count m a
  key_count-Moved =
      key_count_lem m' a' ∙ ap (λ w. w % 8) (word 32 (omega arith)) ∙ sym (key_count_lem m a)

  size-Moved : size m' a' ≡ size m a
  size-Moved =
      size_lem m' a' ∙ ap (λ w. w / 2 ^ 6 % 2 ^ 26) (word 32 (omega arith)) ∙ sym (size_lem m a)

  get_hash-Moved : (j : ℕ) → j < 7 → get_hash m' a' j ≡ get_hash m a j
  unfolding get_hash
  get_hash-Moved j h =
      ap (load32 m') (omega arith) ∙ word (4 + 4 * j) (omega arith) ∙ ap (load32 m) (omega arith)

  get_kv_offset-Moved : (j : ℕ) → j < 7 → get_kv_offset m' a' j ≡ get_kv_offset m a j
  unfolding get_kv_offset
  get_kv_offset-Moved j h =
      ap (load32 m') (omega arith) ∙ word (36 + 4 * j) (omega arith) ∙ ap (load32 m) (omega arith)

  get_child_offset-Moved : (j : ℕ) → j < 8 → get_child_offset m' a' j ≡ get_child_offset m a j
  unfolding get_child_offset
  get_child_offset-Moved j h =
      ap (load32 m') (omega arith) ∙ word (64 + 4 * j) (omega arith) ∙ ap (load32 m) (omega arith)

  Keys-Moved :
      (arr : Bool) (es : List Entry)
      → length es ≤ 7
      → EntrySpans (λ x n. SameOn x n m m') arr es
      → Keys m arr a es
      → Keys m' arr a' es
  Keys-Moved arr es room same h = record {
    count = key_count-Moved ∙ h.count;
    hashes = λ j p. get_hash-Moved j (omega arith) ∙ h.hashes j p;
    addresses = λ j p. get_kv_offset-Moved j (omega arith) ∙ h.addresses j p;
    held = λ j p. Held-same m m' arr (nth es j) (same j p) (h.held j p);
  }

  Links-Moved : (es : List Entry) (ts : Trees) → length es ≤ 7 → Links m a es ts → Links m' a' es ts
  Links-Moved es nil room h = λ j p. get_child_offset-Moved j p ∙ h j p
  Links-Moved es (cons t ts) room h =
      (h.0, λ j p. (get_child_offset-Moved j (omega arith) ∙ (h.1 j p).0, (h.1 j p).1))

-- The tree below an empty node in its place, its old root moved to `to`.
abbrev pub lifted : ℕ → ℕ → List Entry → Trees → Tree
lifted a to es ts = node a [] (cons (node to es ts) nil)

-- The new root: no key and one child.
module _ (b : Buffer) (a : ℕ) (above : a + node_size ≤ b.m_used_size)
    (addressable : b.m_used_size < 2 ^ 32) where
  abbrev used : ℕ
  used = b.m_used_size

  abbrev m₁ : Memory
  m₁ = copy b.m_data used a node_size

  abbrev m₃ : Memory
  m₃ = set_gen_type (clear m₁ a node_size) a 1 (tag m₁ a)

  abbrev m₅ : Memory
  m₅ = set_child_offset (set_key_count m₃ a 0) a 0 (u32 used)

  abbrev m₆ : Memory
  m₆ = set_size_kc m₅ a (size m₅ used) 0

  m₅-outside : SameOutside a node_size m₁ m₅
  m₅-outside x h =
      set_child_offset-outside (set_key_count m₃ a 0) a 0 (u32 used) (omega arith) x h
      ∙ set_key_count-outside m₃ a 0 x h
      ∙ set_gen_type-outside (clear m₁ a node_size) a 1 (tag m₁ a) x h
      ∙ clear-outside m₁ a node_size x h

  m₆-outside : SameOutside a node_size m₁ m₆
  m₆-outside x h = set_size_kc-outside m₅ a (size m₅ used) 0 x h ∙ m₅-outside x h

  -- What lies in the used bytes apart from the root is as before.
  kept : (x n : ℕ) → (Apart x n a node_size) × (x + n ≤ used) → SameOn x n b.m_data m₆
  kept x n h y p q =
      m₆-outside y (omega arith) ∙ copy-outside b.m_data used a node_size y (omega arith)

  moved : Moved b.m_data a m₆ used node_size
  moved k h = m₆-outside (used + k) (omega arith) ∙ copy-Moved b.m_data used a node_size k h

  child-new : get_child_offset m₆ a 0 ≡ used
  unfolding get_child_offset set_size_kc set_child_offset
  child-new =
      load32-store32_outside m₅ (a + 32) _ (a + 64 + 4 * 0) (inr (omega arith))
      ∙ load32-store32 (set_key_count m₃ a 0) (a + 64 + 4 * 0) (u32 used)
      ∙ omega arith

  count-new : key_count m₆ a ≡ 0
  count-new = ground (arith, key_count_lem m₆ a, set_size_kc_word m₅ a (size m₅ used) 0)

  size-new : size m₆ a ≡ size b.m_data a
  size-new =
      let moved₅ : Moved b.m_data a m₅ used node_size =
        λ k h. m₅-outside (used + k) (omega arith) ∙ copy-Moved b.m_data used a node_size k h in
      omega (
        arith,
        size_lem m₆ a,
        set_size_kc_word m₅ a (size m₅ used) 0,
        size-Moved b.m_data m₅ a used moved₅,
        size_lem b.m_data a,
      )

  type_word : load32 m₆ a ≡ 1 * 2 ^ 8 + code (tag m₁ a) % 2 ^ 8
  unfolding set_size_kc set_child_offset set_key_count
  type_word =
      load32-store32_outside m₅ (a + 32) _ a (inl (omega arith))
      ∙ load32-store32_outside (set_key_count m₃ a 0) (a + 64 + 4 * 0) (u32 used) a
          (inl (omega arith))
      ∙ load32-store32_outside m₃ (a + 32) _ a (inl (omega arith))
      ∙ set_gen_type_word (clear m₁ a node_size) a 1 (tag m₁ a)
      ∙ omega arith

  tag-new : tag m₆ a ≡ tag b.m_data a
  tag-new =
      let word : load32 m₁ a ≡ load32 b.m_data a =
        load32-outside used node_size a b.m_data m₁ (inl (omega arith))
          (copy-outside b.m_data used a node_size) in
      let byte : code (tag m₁ a) ≡ load32 b.m_data a % 2 ^ 8 =
        ap code (tag_lem m₁ a) ∙ code-of_code (load32 m₁ a % 2 ^ 8) ∙ ap (λ w. w % 2 ^ 8) word in
      tag_lem m₆ a ∙ ap of_code (omega (arith, type_word, byte)) ∙ sym (tag_lem b.m_data a)

  generation-new : generation m₆ a ≡ 1
  generation-new = omega (arith, generation_lem m₆ a, type_word)

  link-new :
      (t : Tree)
      → address t ≡ used
      → (j : ℕ) → j ≤ 0
      → (get_child_offset m₆ a j ≡ child_address (cons t nil) j)
        × (child_address (cons t nil) j ≢ 0)
  link-new t at zero h = (child-new ∙ sym at, λ e. omega (arith, at, e))
  link-new t at (suc j) h = absurd (omega arith)

  module _ (arr : Bool) (es : List Entry) (ts : Trees) where
    pub split_root-Tree :
        TreeAt b.m_data arr (node a es ts)
        → EntrySpans (λ x n. (Apart x n a node_size) × (x + n ≤ used)) arr es
        → SpansOf (λ x n. (Apart x n a node_size) × (x + n ≤ used)) arr ts
        → TreeAt (split_root b a).m_data arr (lifted a used es ts)
          × (generation (split_root b a).m_data a ≡ 1)
          × (tag (split_root b a).m_data a ≡ tag b.m_data a)
          × (size (split_root b a).m_data a ≡ size b.m_data a)
          × ((split_root b a).m_used_size ≡ used + node_size)
    unfolding split_root TreeAt
    split_root-Tree held entries children =
        let below : TreeAt m₆ arr (node used es ts) = (
          Keys-Moved b.m_data m₆ a used moved arr es held.1 (λ j p. kept _ _ (entries j p)) held.0,
          held.1,
          Links-Moved b.m_data m₆ a used moved es ts held.1 held.2,
          TreesAt-same b.m_data m₆ arr ts
              (SpansOf-map (λ x n. (Apart x n a node_size) × (x + n ≤ used)) (Kept b.m_data m₆ arr)
                arr kept ts children)
              held.3,
        ) in
        let no_keys : Keys m₆ arr a [] = record {
          count = count-new;
          hashes = λ j p. absurd (omega arith);
          addresses = λ j p. absurd (omega arith);
          held = λ j p. absurd (omega arith);
        } in
        (
          (no_keys, omega arith, (refl, link-new (node used es ts) refl), (below, tt)),
          generation-new,
          tag-new,
          size-new,
          refl,
        )
