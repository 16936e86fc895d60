-- ===== src/Node/Head.antt =====
-- The type and the size of a node, which the writers of keys and children keep.
use lite3_cpp.Base.{ℕ, ◌+◌, ◌*◌, ◌^◌, ◌<◌, ◌≡◌, ◌%◌, ◌/◌, sym, ◌∙◌, ap, inl, inr, arith}
use lite3_cpp.Memory.{Memory, load32}
use lite3_cpp.Memory.Laws.{SameOn, load32-store32_outside, load32-lt}
use lite3_cpp.Node.{
  code, of_code, node_size, tag, size, set_gen_type, set_hash, set_kv_offset, set_child_offset,
  set_key_count, set_size_kc,
}
use lite3_cpp.Node.Laws.{
  tag_lem, size_lem, code-of_code, set_gen_type_word, set_key_count_word, set_size_kc_word,
}
use lite3_cpp.Node.Fields.{size-set_gen_type}
use lite3_cpp.Node.Frame.{tag-same, size-same}

abbrev pub SameHead : Memory → Memory → ℕ → Type 0
SameHead m m' p = (tag m' p ≡ tag m p) × (size m' p ≡ size m p)

pub SameHead-trans :
    (m m' m'' : Memory) (p : ℕ) → SameHead m m' p → SameHead m' m'' p → SameHead m m'' p
SameHead-trans m m' m'' p h k = (k.0 ∙ h.0, k.1 ∙ h.1)

pub SameHead-same : (m m' : Memory) (p : ℕ) → SameOn p node_size m m' → SameHead m m' p
SameHead-same m m' p same = (tag-same m m' p same, size-same m m' p same)

tag-word : (m m' : Memory) (p : ℕ) → load32 m' p ≡ load32 m p → tag m' p ≡ tag m p
tag-word m m' p h = tag_lem m' p ∙ ap (λ w. of_code (w % 2 ^ 8)) h ∙ sym (tag_lem m p)

SameHead-words :
    (m m' : Memory) (p : ℕ)
    → load32 m' p ≡ load32 m p
    → load32 m' (p + 32) ≡ load32 m (p + 32)
    → SameHead m m' p
SameHead-words m m' p h k =
    (tag-word m m' p h, size_lem m' p ∙ ap (λ w. w / 2 ^ 6 % 2 ^ 26) k ∙ sym (size_lem m p))

module _ (m : Memory) (p : ℕ) where
  pub SameHead-set_hash : (i v : ℕ) → i < 7 → SameHead m (set_hash m p i v) p
  unfolding set_hash
  SameHead-set_hash i v h =
      SameHead-words m (set_hash m p i v) p
        (load32-store32_outside m (p + 4 + 4 * i) v p (inl (omega arith)))
        (load32-store32_outside m (p + 4 + 4 * i) v (p + 32) (inr (omega arith)))

  pub SameHead-set_kv_offset : (i v : ℕ) → SameHead m (set_kv_offset m p i v) p
  unfolding set_kv_offset
  SameHead-set_kv_offset i v =
      SameHead-words m (set_kv_offset m p i v) p
        (load32-store32_outside m (p + 36 + 4 * i) v p (inl (omega arith)))
        (load32-store32_outside m (p + 36 + 4 * i) v (p + 32) (inl (omega arith)))

  pub SameHead-set_child_offset : (i v : ℕ) → SameHead m (set_child_offset m p i v) p
  unfolding set_child_offset
  SameHead-set_child_offset i v =
      SameHead-words m (set_child_offset m p i v) p
        (load32-store32_outside m (p + 64 + 4 * i) v p (inl (omega arith)))
        (load32-store32_outside m (p + 64 + 4 * i) v (p + 32) (inl (omega arith)))

  first_word-set_key_count : (k : ℕ) → load32 (set_key_count m p k) p ≡ load32 m p
  unfolding set_key_count
  first_word-set_key_count k = load32-store32_outside m (p + 32) _ p (inl (omega arith))

  pub SameHead-set_key_count : (k : ℕ) → SameHead m (set_key_count m p k) p
  SameHead-set_key_count k = (
    tag-word m (set_key_count m p k) p (first_word-set_key_count k),
    size_lem (set_key_count m p k) p
        ∙ omega (arith, set_key_count_word m p k, load32-lt m (p + 32), size_lem m p),
  )

  first_word-set_size_kc : (n k : ℕ) → load32 (set_size_kc m p n k) p ≡ load32 m p
  unfolding set_size_kc
  first_word-set_size_kc n k = load32-store32_outside m (p + 32) _ p (inl (omega arith))

  pub SameHead-set_size_kc : (k : ℕ) → SameHead m (set_size_kc m p (size m p) k) p
  SameHead-set_size_kc k = (
    tag-word m (set_size_kc m p (size m p) k) p (first_word-set_size_kc (size m p) k),
    size_lem (set_size_kc m p (size m p) k) p
        ∙ omega (arith, set_size_kc_word m p (size m p) k, size_lem m p),
  )

  -- The type is set to what it was.
  pub SameHead-set_gen_type : (g : ℕ) → SameHead m (set_gen_type m p g (tag m p)) p
  SameHead-set_gen_type g =
      let byte : code (tag m p) ≡ load32 m p % 2 ^ 8 =
        ap code (tag_lem m p) ∙ code-of_code (load32 m p % 2 ^ 8) in
      (
        tag_lem (set_gen_type m p g (tag m p)) p
            ∙ ap of_code (omega (arith, set_gen_type_word m p g (tag m p), byte))
            ∙ sym (tag_lem m p),
        size-set_gen_type m p g (tag m p),
      )
