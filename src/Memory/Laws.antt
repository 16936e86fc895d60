-- ===== src/Memory/Laws.antt =====
-- What a write changes and what it leaves alone, and reading back what was written.
use lite3_cpp.Base.{
  ℕ, zero, suc, ◌+◌, ◌-◌, ◌^◌, ◌≤◌, ◌<◌, ◌≡◌, refl, ◌⊎◌, ap₂, ◌∷◌, arith, u32, ◌==◌, if◌then◌else◌,
}
use lite3_cpp.Memory.{Memory, write, load32, store32, byte_of, read_bytes}

-- Two memories hold the same bytes from `a` on, `n` of them.
abbrev pub SameOn : ℕ → ℕ → Memory → Memory → Type 0
SameOn a n m m' = (x : ℕ) → a ≤ x → x < a + n → m'.byte x ≡ m.byte x

-- `m'` differs from `m` at most in the `n` bytes from `a` on.
abbrev pub SameOutside : ℕ → ℕ → Memory → Memory → Type 0
SameOutside a n m m' = (x : ℕ) → (x < a) ⊎ (a + n ≤ x) → m'.byte x ≡ m.byte x

module _ (m : Memory) (a n : ℕ) (f : ℕ → ℕ) where
  pub byte-write : (x : ℕ) → a ≤ x → x < a + n → (write m a n f).byte x ≡ f (x - a)
  unfolding write
  byte-write x p q = ground arith

  pub byte-write_outside : SameOutside a n m (write m a n f)
  unfolding write
  byte-write_outside x h = ground arith

pub load32-same : (m m' : Memory) (a : ℕ) → SameOn a 4 m m' → load32 m' a ≡ load32 m a
unfolding load32
load32-same m m' a h = ground (arith, h a, h (a + 1), h (a + 2), h (a + 3))

pub load32-store32 : (m : Memory) (a v : ℕ) → load32 (store32 m a v) a ≡ u32 v
unfolding load32 store32
load32-store32 m a v = ground arith

-- A word is read as before if the bytes written are others.
pub load32-store32_outside :
    (m : Memory) (a v b : ℕ) → (b + 4 ≤ a) ⊎ (a + 4 ≤ b) → load32 (store32 m a v) b ≡ load32 m b
unfolding store32
load32-store32_outside m a v b h =
    load32-same m (store32 m a v) b (λ x p q. byte-write_outside m a 4 (byte_of v) x (omega arith))

pub read_bytes-same :
    (m m' : Memory) (a n : ℕ) → SameOn a n m m' → read_bytes m' a n ≡ read_bytes m a n
unfolding read_bytes
read_bytes-same m m' a zero h = refl
read_bytes-same m m' a (suc n) h =
    ap₂ ◌∷◌ (h a (omega arith) (omega arith))
      (read_bytes-same m m' (a + 1) n (λ x p q. h x (omega arith) (omega arith)))

pub load32-lt : (m : Memory) (a : ℕ) → load32 m a < 2 ^ 32
unfolding load32
load32-lt m a = omega arith

-- Reading a word over a write of a word, where the two are the same or do not overlap.
pub load32-store32_if :
    (m : Memory) (a v b : ℕ)
    → ((b + 4 ≤ a) ⊎ (a + 4 ≤ b)) ⊎ (a ≡ b)
    → load32 (store32 m a v) b ≡ (if a == b then u32 v else load32 m b)
load32-store32_if m a v b h = ground (arith, load32-store32 m a v, load32-store32_outside m a v b)
