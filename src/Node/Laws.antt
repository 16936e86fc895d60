-- ===== src/Node/Laws.antt =====
-- The accessors of a node as arithmetic on its words, and what each setter changes and keeps.
use lite3_cpp.Base.{ℕ, ◌+◌, ◌-◌, ◌*◌, ◌/◌, ◌%◌, ◌^◌, ◌≡◌, arith, u32, bit_and, bit_or}
use lite3_cpp.Base.Bits.{bit_and_low, bit_and_high, bit_or_sum, bit_or_sum_low}
use lite3_cpp.Memory.{Memory, load32}
use lite3_cpp.Memory.Laws.{load32-store32}
use lite3_cpp.Node.{
  Tag, code, of_code, generation, tag, size, key_count, set_gen_type, set_size, set_size_kc,
  set_key_count,
}

pub code-of_code : (n : ℕ) → code (of_code n) ≡ n
unfolding code of_code
code-of_code n = ground arith

module _ (m : Memory) (p : ℕ) where
  pub generation_lem : generation m p ≡ load32 m p / 2 ^ 8 % 2 ^ 24
  unfolding generation
  generation_lem =
      ground (arith, bit_and_high 8 (load32 m p) (2 ^ 24 - 1), bit_and_low 24 (load32 m p / 2 ^ 8))

  pub tag_lem : tag m p ≡ of_code (load32 m p % 2 ^ 8)
  unfolding tag
  tag_lem = ground (arith, bit_and_low 8 (load32 m p))

  pub size_lem : size m p ≡ load32 m (p + 32) / 2 ^ 6 % 2 ^ 26
  unfolding size
  size_lem = ground (
    arith,
    bit_and_high 6 (load32 m (p + 32)) (2 ^ 26 - 1),
    bit_and_low 26 (load32 m (p + 32) / 2 ^ 6),
  )

  pub key_count_lem : key_count m p ≡ load32 m (p + 32) % 8
  unfolding key_count
  key_count_lem = ground (arith, bit_and_low 3 (load32 m (p + 32)))

  -- `set_gen_type` replaces the first word: 24 bits of the generation above the byte of the tag.
  pub set_gen_type_word :
      (gen : ℕ) (t : Tag)
      → load32 (set_gen_type m p gen t) p ≡ gen % 2 ^ 24 * 2 ^ 8 + code t % 2 ^ 8
  unfolding set_gen_type
  set_gen_type_word gen t = ground (
    arith,
    load32-store32 m p (bit_or (u32 (gen * 2 ^ 8)) (bit_and (code t) 255)),
    bit_or_sum 8 (gen % 2 ^ 24) (code t % 2 ^ 8),
    bit_and_low 8 (code t),
  )

  -- `set_size_kc` replaces the word of size and count.
  pub set_size_kc_word :
      (n k : ℕ) → load32 (set_size_kc m p n k) (p + 32) ≡ n % 2 ^ 26 * 2 ^ 6 + k % 8
  unfolding set_size_kc
  set_size_kc_word n k = ground (
    arith,
    load32-store32 m (p + 32) (bit_or (u32 (n * 2 ^ 6)) (bit_and k 7)),
    bit_or_sum 6 (n % 2 ^ 26) (k % 8),
    bit_and_low 3 k,
  )

  -- `set_size` keeps the low six bits.
  pub set_size_word :
      (n : ℕ) → load32 (set_size m p n) (p + 32) ≡ n % 2 ^ 26 * 2 ^ 6 + load32 m (p + 32) % 2 ^ 6
  unfolding set_size
  set_size_word n = ground (
    arith,
    load32-store32 m (p + 32)
        (bit_or (bit_and (load32 m (p + 32)) 0x3F) (bit_and (u32 (n * 2 ^ 6)) 0xFFFFFFC0)),
    bit_and_low 6 (load32 m (p + 32)),
    bit_and_high 6 (u32 (n * 2 ^ 6)) (2 ^ 26 - 1),
    bit_and_low 26 (u32 (n * 2 ^ 6) / 2 ^ 6),
    bit_or_sum_low 6 (n % 2 ^ 26) (load32 m (p + 32) % 2 ^ 6),
  )

  -- `set_key_count` keeps all but the low three bits.
  pub set_key_count_word :
      (k : ℕ) → load32 (set_key_count m p k) (p + 32) ≡ load32 m (p + 32) / 8 % 2 ^ 29 * 8 + k % 8
  unfolding set_key_count
  set_key_count_word k = ground (
    arith,
    load32-store32 m (p + 32) (bit_or (bit_and (load32 m (p + 32)) 0xFFFFFFF8) (bit_and k 7)),
    bit_and_high 3 (load32 m (p + 32)) (2 ^ 29 - 1),
    bit_and_low 29 (load32 m (p + 32) / 8),
    bit_or_sum 3 (load32 m (p + 32) / 8 % 2 ^ 29) (k % 8),
    bit_and_low 3 k,
  )
