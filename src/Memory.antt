-- ===== src/Memory.antt =====
-- The bytes of the vector `m_data` of src/buffer.cpp, and the ways in which the code reads and
-- writes them: single bytes, `memset`, `memcpy`, little-endian 32-bit words and `resize`.
-- `byte a` is the byte at address `a`; what stands at or past `size` is not the vector's.
pub mod Laws
pub mod Frame
pub mod Copy
use lite3_cpp.Base.{
  ℕ, zero, suc, ◌+◌, ◌-◌, ◌*◌, ◌/◌, ◌%◌, ◌^◌, ◌&&◌, List, [], ◌∷◌, ltb, leb, if◌then◌else◌, length,
  get_or, u8, u32,
}

pub record Memory : Type 0 where
  pub size : ℕ
  pub byte : ℕ → ℕ

-- `size` bytes, all zero.
unfoldable pub zeros : ℕ → Memory
zeros n = record { size = n; byte = λ _. 0 }

-- The `n` bytes from `a` on become `f 0`, …, `f (n - 1)`.
unfoldable pub write : Memory → ℕ → ℕ → (ℕ → ℕ) → Memory
write m a n f = record m { byte = λ x. if leb a x && ltb x (a + n) then f (x - a) else m.byte x }

-- `m_data[a] = v`
unfoldable pub store8 : Memory → ℕ → ℕ → Memory
unfolding write
store8 m a v = write m a 1 (λ _. u8 v)

-- `std::memset(m_data.data() + a, 0, n)`
unfoldable pub clear : Memory → ℕ → ℕ → Memory
unfolding write
clear m a n = write m a n (λ _. 0)

-- `std::memcpy(m_data.data() + a, m_data.data() + src, n)`
unfoldable pub copy : Memory → ℕ → ℕ → ℕ → Memory
unfolding write
copy m a src n = write m a n (λ k. m.byte (src + k))

-- `std::memcpy(m_data.data() + a, v, n)` from `n` bytes outside the vector
unfoldable pub store_bytes : Memory → ℕ → List ℕ → Memory
unfolding write
store_bytes m a v = write m a (length v) (λ k. get_or v k 0)

-- A `uint32_t` through a pointer, or through `memcpy`.
unfoldable pub load32 : Memory → ℕ → ℕ
load32 m a =
    u32 (m.byte a + 2 ^ 8 * m.byte (a + 1) + 2 ^ 16 * m.byte (a + 2) + 2 ^ 24 * m.byte (a + 3))

-- Byte `k` of a 32-bit word.
abbrev pub byte_of : ℕ → ℕ → ℕ
byte_of v k = v / 2 ^ (8 * k) % 2 ^ 8

unfoldable pub store32 : Memory → ℕ → ℕ → Memory
unfolding write
store32 m a v = write m a 4 (byte_of v)

-- The `n` bytes from `a` on.
unfoldable pub read_bytes : Memory → ℕ → ℕ → List ℕ
read_bytes m a zero = []
read_bytes m a (suc n) = m.byte a ∷ read_bytes m (a + 1) n

-- `m_data.resize(n)`: bytes that are added are zero.
unfoldable pub resize : Memory → ℕ → Memory
resize m n = record { size = n; byte = λ x. if ltb x m.size then m.byte x else 0 }
