-- ===== src/Memory/Frame.antt =====
-- The writes as changes to one region, and texts that lie in memory.
use lite3_cpp.Base.{
  ℕ, suc, ◌+◌, ◌≤◌, ◌<◌, ◌≡◌, refl, ◌∙◌, ◌⊎◌, List, [], ◌∷◌, arith, length, get_or, u8, ap, ap₂,
}
use lite3_cpp.Memory.{
  Memory, write, store8, clear, store_bytes, load32, store32, byte_of, read_bytes,
}
use lite3_cpp.Memory.Laws.{SameOn, SameOutside, byte-write, byte-write_outside, load32-same}

-- Several writes to one region, or to parts of it.
pub SameOutside-trans :
    (a n : ℕ) (m₁ m₂ m₃ : Memory)
    → SameOutside a n m₁ m₂
    → SameOutside a n m₂ m₃
    → SameOutside a n m₁ m₃
SameOutside-trans a n m₁ m₂ m₃ p q x h = q x h ∙ p x h

pub SameOutside-widen :
    (a n c k : ℕ) (m m' : Memory)
    → c ≤ a
    → a + n ≤ c + k
    → SameOutside a n m m'
    → SameOutside c k m m'
SameOutside-widen a n c k m m' lo hi s x h = s x (omega arith)

-- What does not meet the region is the same.
pub SameOn-outside :
    (a n c k : ℕ) (m m' : Memory)
    → (c + k ≤ a) ⊎ (a + n ≤ c)
    → SameOutside a n m m'
    → SameOn c k m m'
SameOn-outside a n c k m m' apart s x lo hi = s x (omega arith)

pub load32-outside :
    (a n c : ℕ) (m m' : Memory)
    → (c + 4 ≤ a) ⊎ (a + n ≤ c)
    → SameOutside a n m m'
    → load32 m' c ≡ load32 m c
load32-outside a n c m m' apart s = load32-same m m' c (SameOn-outside a n c 4 m m' apart s)

module _ (m : Memory) (a : ℕ) where
  pub store8-outside : (v : ℕ) → SameOutside a 1 m (store8 m a v)
  unfolding store8
  store8-outside v = byte-write_outside m a 1 (λ _. u8 v)

  pub store32-outside : (v : ℕ) → SameOutside a 4 m (store32 m a v)
  unfolding store32
  store32-outside v = byte-write_outside m a 4 (byte_of v)

  pub store_bytes-outside : (v : List ℕ) → SameOutside a (length v) m (store_bytes m a v)
  unfolding store_bytes
  store_bytes-outside v = byte-write_outside m a (length v) (λ k. get_or v k 0)

  pub clear-outside : (n : ℕ) → SameOutside a n m (clear m a n)
  unfolding clear
  clear-outside n = byte-write_outside m a n (λ _. 0)

  pub byte-store8 : (v : ℕ) → (store8 m a v).byte a ≡ u8 v
  unfolding store8
  byte-store8 v = byte-write m a 1 (λ _. u8 v) a (omega arith) (omega arith)

  pub byte-clear : (n x : ℕ) → a ≤ x → x < a + n → (clear m a n).byte x ≡ 0
  unfolding clear
  byte-clear n x p q = byte-write m a n (λ _. 0) x p q

pub load32-clear : (m : Memory) (a n x : ℕ) → a ≤ x → x + 4 ≤ a + n → load32 (clear m a n) x ≡ 0
unfolding load32
load32-clear m a n x p q = rw (
  byte-clear m a n x p (omega arith),
  byte-clear m a n (x + 1) (omega arith) (omega arith),
  byte-clear m a n (x + 2) (omega arith) (omega arith),
  byte-clear m a n (x + 3) (omega arith) (omega arith),
)

-- The bytes of the text from `a` on.
abbrev pub TextAt : Memory → ℕ → List ℕ → Type 0
TextAt m a [] = Unit
TextAt m a (c ∷ s) = (m.byte a ≡ c) × TextAt m (a + 1) s

pub TextAt-same :
    (m m' : Memory) (a : ℕ) (s : List ℕ) → SameOn a (length s) m m' → TextAt m a s → TextAt m' a s
TextAt-same m m' a [] h t = tt
TextAt-same m m' a (c ∷ s) h t = (
  h a (omega arith) (omega arith) ∙ t.0,
  TextAt-same m m' (a + 1) s (λ x p q. h x (omega arith) (omega arith)) t.1,
)

pub read_bytes-text :
    (m : Memory) (a : ℕ) (s : List ℕ) → TextAt m a s → read_bytes m a (length s) ≡ s
unfolding read_bytes
read_bytes-text m a [] t = refl
read_bytes-text m a (c ∷ s) t = ap₂ ◌∷◌ t.0 (read_bytes-text m (a + 1) s t.1)

-- A memory that agrees with `f` from `a` on holds the text that `f` lists.
text_of_bytes :
    (m : Memory) (a : ℕ) (s : List ℕ)
    → ((k : ℕ) → k < length s → m.byte (a + k) ≡ get_or s k 0)
    → TextAt m a s
text_of_bytes m a [] h = tt
text_of_bytes m a (c ∷ s) h = (
  ap m.byte (omega arith) ∙ h 0 (omega arith),
  text_of_bytes m (a + 1) s (λ k p. ap m.byte (omega arith) ∙ h (suc k) (omega arith)),
)

pub store_bytes-text : (m : Memory) (a : ℕ) (s : List ℕ) → TextAt (store_bytes m a s) a s
unfolding store_bytes
store_bytes-text m a s = text_of_bytes (write m a (length s) (λ j. get_or s j 0)) a s λ k p.
    byte-write m a (length s) (λ j. get_or s j 0) (a + k) (omega arith) (omega arith)
    ∙ ap (λ j. get_or s j 0) (omega arith)
