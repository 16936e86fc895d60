-- ===== src/Node/Children.antt =====
-- The row of children, and `set_size_kc`, beside the other fields.
use lite3_cpp.Base.{
  ℕ, ◌+◌, ◌*◌, ◌^◌, ◌<◌, ◌≡◌, ◌%◌, ◌/◌, inl, inr, ap, arith, u32, ◌==◌, if◌then◌else◌, bit_and,
}
use lite3_cpp.Memory.{Memory}
use lite3_cpp.Memory.Laws.{load32-store32_if, load32-store32_outside, load32-lt}
use lite3_cpp.Node.Laws.{key_count_lem, set_size_kc_word}
use lite3_cpp.Node.{
  key_count, get_hash, get_kv_offset, get_child_offset, set_child_offset, set_size_kc,
}

module _ (m : Memory) (p : ℕ) where
  pub get_child_offset-lt : (i : ℕ) → get_child_offset m p i < 2 ^ 32
  unfolding get_child_offset
  get_child_offset-lt i = load32-lt m (p + 64 + 4 * i)

  module _ (i v j : ℕ) where
    pub get_child_offset-set_child_offset :
        get_child_offset (set_child_offset m p i v) p j
        ≡ (if i == j then u32 v else get_child_offset m p j)
    unfolding get_child_offset set_child_offset
    get_child_offset-set_child_offset =
        ground (arith, load32-store32_if m (p + 64 + 4 * i) v (p + 64 + 4 * j))

    pub get_hash-set_child_offset : j < 7 → get_hash (set_child_offset m p i v) p j ≡ get_hash m p j
    unfolding get_hash set_child_offset
    get_hash-set_child_offset h =
        load32-store32_outside m (p + 64 + 4 * i) v (p + 4 + 4 * j) (inl (omega arith))

    pub get_kv_offset-set_child_offset :
        j < 7 → get_kv_offset (set_child_offset m p i v) p j ≡ get_kv_offset m p j
    unfolding get_kv_offset set_child_offset
    get_kv_offset-set_child_offset h =
        load32-store32_outside m (p + 64 + 4 * i) v (p + 36 + 4 * j) (inl (omega arith))

  pub key_count-set_child_offset :
      (i v : ℕ) → key_count (set_child_offset m p i v) p ≡ key_count m p
  unfolding key_count set_child_offset
  key_count-set_child_offset i v =
      ap (λ w. bit_and w 7 / 2 ^ 0)
        (load32-store32_outside m (p + 64 + 4 * i) v (p + 32) (inl (omega arith)))

  module _ (n k : ℕ) where
    pub key_count-set_size_kc : key_count (set_size_kc m p n k) p ≡ k % 8
    key_count-set_size_kc =
        ground (arith, key_count_lem (set_size_kc m p n k) p, set_size_kc_word m p n k)

    pub get_hash-set_size_kc : (j : ℕ) → j < 7 → get_hash (set_size_kc m p n k) p j ≡ get_hash m p j
    unfolding get_hash set_size_kc
    get_hash-set_size_kc j h =
        load32-store32_outside m (p + 32) _ (p + 4 + 4 * j) (inl (omega arith))

    pub get_kv_offset-set_size_kc :
        (j : ℕ) → get_kv_offset (set_size_kc m p n k) p j ≡ get_kv_offset m p j
    unfolding get_kv_offset set_size_kc
    get_kv_offset-set_size_kc j =
        load32-store32_outside m (p + 32) _ (p + 36 + 4 * j) (inr (omega arith))

    pub get_child_offset-set_size_kc :
        (j : ℕ) → get_child_offset (set_size_kc m p n k) p j ≡ get_child_offset m p j
    unfolding get_child_offset set_size_kc
    get_child_offset-set_size_kc j =
        load32-store32_outside m (p + 32) _ (p + 64 + 4 * j) (inr (omega arith))
