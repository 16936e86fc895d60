-- ===== src/Node/Fields.antt =====
-- Each field of a node over each setter: the field that is set is read back, and every other field
-- is as before.
use lite3_cpp.Base.{
  ℕ, ◌+◌, ◌*◌, ◌^◌, ◌<◌, ◌≡◌, ◌%◌, ◌/◌, inl, inr, ap, ◌∙◌, arith, u32, ◌==◌, if◌then◌else◌, bit_and,
}
use lite3_cpp.Memory.{Memory}
use lite3_cpp.Memory.Laws.{load32-store32_if, load32-store32_outside, load32-lt}
use lite3_cpp.Node.Laws.{
  generation_lem, tag_lem, size_lem, key_count_lem, set_gen_type_word, set_key_count_word,
}
use lite3_cpp.Node.{
  code, of_code, Tag, generation, tag, size, key_count, get_hash, get_kv_offset, get_child_offset,
  set_gen_type, set_key_count, set_hash, set_kv_offset,
}

module _ (m : Memory) (p : ℕ) where
  pub get_hash-lt : (i : ℕ) → get_hash m p i < 2 ^ 32
  unfolding get_hash
  get_hash-lt i = load32-lt m (p + 4 + 4 * i)

  pub get_kv_offset-lt : (i : ℕ) → get_kv_offset m p i < 2 ^ 32
  unfolding get_kv_offset
  get_kv_offset-lt i = load32-lt m (p + 36 + 4 * i)

  module _ (i v j : ℕ) where
    pub get_hash-set_hash :
        get_hash (set_hash m p i v) p j ≡ (if i == j then u32 v else get_hash m p j)
    unfolding get_hash set_hash
    get_hash-set_hash = ground (arith, load32-store32_if m (p + 4 + 4 * i) v (p + 4 + 4 * j))

    pub get_kv_offset-set_kv_offset :
        get_kv_offset (set_kv_offset m p i v) p j ≡ (if i == j then u32 v else get_kv_offset m p j)
    unfolding get_kv_offset set_kv_offset
    get_kv_offset-set_kv_offset =
        ground (arith, load32-store32_if m (p + 36 + 4 * i) v (p + 36 + 4 * j))

    pub get_hash-set_kv_offset : j < 7 → get_hash (set_kv_offset m p i v) p j ≡ get_hash m p j
    unfolding get_hash set_kv_offset
    get_hash-set_kv_offset h =
        ground (arith, load32-store32_if m (p + 36 + 4 * i) v (p + 4 + 4 * j))

    pub get_kv_offset-set_hash : i < 7 → get_kv_offset (set_hash m p i v) p j ≡ get_kv_offset m p j
    unfolding get_kv_offset set_hash
    get_kv_offset-set_hash h =
        ground (arith, load32-store32_if m (p + 4 + 4 * i) v (p + 36 + 4 * j))

    pub get_child_offset-set_hash :
        i < 7 → get_child_offset (set_hash m p i v) p j ≡ get_child_offset m p j
    unfolding get_child_offset set_hash
    get_child_offset-set_hash h =
        ground (arith, load32-store32_if m (p + 4 + 4 * i) v (p + 64 + 4 * j))

    pub get_child_offset-set_kv_offset :
        i < 7 → get_child_offset (set_kv_offset m p i v) p j ≡ get_child_offset m p j
    unfolding get_child_offset set_kv_offset
    get_child_offset-set_kv_offset h =
        ground (arith, load32-store32_if m (p + 36 + 4 * i) v (p + 64 + 4 * j))

  module _ (k : ℕ) where
    pub key_count-set_key_count : key_count (set_key_count m p k) p ≡ k % 8
    key_count-set_key_count =
        ground (arith, key_count_lem (set_key_count m p k) p, set_key_count_word m p k)

    pub get_hash-set_key_count :
        (j : ℕ) → j < 7 → get_hash (set_key_count m p k) p j ≡ get_hash m p j
    unfolding get_hash set_key_count
    get_hash-set_key_count j h =
        load32-store32_outside m (p + 32) _ (p + 4 + 4 * j) (inl (omega arith))

    pub get_kv_offset-set_key_count :
        (j : ℕ) → get_kv_offset (set_key_count m p k) p j ≡ get_kv_offset m p j
    unfolding get_kv_offset set_key_count
    get_kv_offset-set_key_count j =
        load32-store32_outside m (p + 32) _ (p + 36 + 4 * j) (inr (omega arith))

    pub get_child_offset-set_key_count :
        (j : ℕ) → get_child_offset (set_key_count m p k) p j ≡ get_child_offset m p j
    unfolding get_child_offset set_key_count
    get_child_offset-set_key_count j =
        load32-store32_outside m (p + 32) _ (p + 64 + 4 * j) (inr (omega arith))

  module _ (g : ℕ) (t : Tag) where
    pub key_count-set_gen_type : key_count (set_gen_type m p g t) p ≡ key_count m p
    unfolding key_count set_gen_type
    key_count-set_gen_type =
        ap (λ w. bit_and w 7 / 2 ^ 0) (load32-store32_outside m p _ (p + 32) (inr (omega arith)))

    pub size-set_gen_type : size (set_gen_type m p g t) p ≡ size m p
    unfolding size set_gen_type
    size-set_gen_type =
        ap (λ w. bit_and w 0xFFFFFFC0 / 2 ^ 6)
          (load32-store32_outside m p _ (p + 32) (inr (omega arith)))

    pub get_hash-set_gen_type : (j : ℕ) → get_hash (set_gen_type m p g t) p j ≡ get_hash m p j
    unfolding get_hash set_gen_type
    get_hash-set_gen_type j = load32-store32_outside m p _ (p + 4 + 4 * j) (inr (omega arith))

    pub get_kv_offset-set_gen_type :
        (j : ℕ) → get_kv_offset (set_gen_type m p g t) p j ≡ get_kv_offset m p j
    unfolding get_kv_offset set_gen_type
    get_kv_offset-set_gen_type j = load32-store32_outside m p _ (p + 36 + 4 * j) (inr (omega arith))

    pub get_child_offset-set_gen_type :
        (j : ℕ) → get_child_offset (set_gen_type m p g t) p j ≡ get_child_offset m p j
    unfolding get_child_offset set_gen_type
    get_child_offset-set_gen_type j =
        load32-store32_outside m p _ (p + 64 + 4 * j) (inr (omega arith))

    -- The generation counts modulo 2^24, and the tag is read back.
    pub generation-set_gen_type : generation (set_gen_type m p g t) p ≡ g % 2 ^ 24
    generation-set_gen_type =
        ground (arith, generation_lem (set_gen_type m p g t) p, set_gen_type_word m p g t)

    pub tag-set_gen_type : tag (set_gen_type m p g t) p ≡ of_code (code t % 2 ^ 8)
    tag-set_gen_type = ground (arith, tag_lem (set_gen_type m p g t) p, set_gen_type_word m p g t)

  module _ (i v : ℕ) where
    pub key_count-set_hash : i < 7 → key_count (set_hash m p i v) p ≡ key_count m p
    unfolding key_count set_hash
    key_count-set_hash h =
        ap (λ w. bit_and w 7 / 2 ^ 0)
          (load32-store32_outside m (p + 4 + 4 * i) v (p + 32) (inr (omega arith)))

    pub key_count-set_kv_offset : key_count (set_kv_offset m p i v) p ≡ key_count m p
    unfolding key_count set_kv_offset
    key_count-set_kv_offset =
        ap (λ w. bit_and w 7 / 2 ^ 0)
          (load32-store32_outside m (p + 36 + 4 * i) v (p + 32) (inl (omega arith)))

  -- `set_gen_type` sets a generation below 2^24 and a type whose number fits a byte and that its
  -- number stands for, and keeps the key count, the size and the rows of hashes, addresses and
  -- children.
  pub set_gen_type-node :
      (g : ℕ) (t : Tag)
      → g < 2 ^ 24
      → code t < 256
      → of_code (code t) ≡ t
      → (generation (set_gen_type m p g t) p ≡ g)
        × (tag (set_gen_type m p g t) p ≡ t)
        × (key_count (set_gen_type m p g t) p ≡ key_count m p)
        × (size (set_gen_type m p g t) p ≡ size m p)
        × ((j : ℕ)
            → (get_hash (set_gen_type m p g t) p j ≡ get_hash m p j)
              × (get_kv_offset (set_gen_type m p g t) p j ≡ get_kv_offset m p j)
              × (get_child_offset (set_gen_type m p g t) p j ≡ get_child_offset m p j))
  set_gen_type-node g t g_fits t_fits known =
      let same : code t % 2 ^ 8 ≡ code t = omega arith in
      (
        generation-set_gen_type g t ∙ omega arith,
        tag-set_gen_type g t ∙ ap of_code same ∙ known,
        key_count-set_gen_type g t,
        size-set_gen_type g t,
        λ j. (
          get_hash-set_gen_type g t j,
          get_kv_offset-set_gen_type g t j,
          get_child_offset-set_gen_type g t j,
        ),
      )

  -- `set_key_count` sets a count below 8 and keeps the size beside it, the seven hashes and the
  -- rows of addresses and children.
  pub set_key_count-node :
      (k : ℕ)
      → k < 8
      → (key_count (set_key_count m p k) p ≡ k)
        × (size (set_key_count m p k) p ≡ size m p)
        × ((j : ℕ)
            → ((j < 7) → get_hash (set_key_count m p k) p j ≡ get_hash m p j)
              × (get_kv_offset (set_key_count m p k) p j ≡ get_kv_offset m p j)
              × (get_child_offset (set_key_count m p k) p j ≡ get_child_offset m p j))
  set_key_count-node k fits = (
    key_count-set_key_count k ∙ omega arith,
    size_lem (set_key_count m p k) p
        ∙ omega (arith, set_key_count_word m p k, load32-lt m (p + 32), size_lem m p),
    λ j. (
      get_hash-set_key_count k j,
      get_kv_offset-set_key_count k j,
      get_child_offset-set_key_count k j,
    ),
  )
