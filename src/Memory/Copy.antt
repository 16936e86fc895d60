-- ===== src/Memory/Copy.antt =====
-- `memcpy` inside the vector, to bytes that do not meet those it reads or that come from one place.
use lite3_cpp.Base.{ℕ, ◌+◌, ◌<◌, ◌≤◌, ◌≡◌, ◌∙◌, ap, arith}
use lite3_cpp.Memory.{Memory, copy, load32}
use lite3_cpp.Memory.Laws.{SameOutside, byte-write, byte-write_outside}

-- `n` bytes from `a'` on in `m'` are those from `a` on in `m`.
abbrev pub Moved : Memory → ℕ → Memory → ℕ → ℕ → Type 0
Moved m a m' a' n = (k : ℕ) → k < n → m'.byte (a' + k) ≡ m.byte (a + k)

pub copy-Moved : (m : Memory) (to from n : ℕ) → Moved m from (copy m to from n) to n
unfolding copy
copy-Moved m to from n k h =
    byte-write m to n (λ j. m.byte (from + j)) (to + k) (omega arith) (omega arith)
    ∙ ap m.byte (omega arith)

pub copy-outside : (m : Memory) (to from n : ℕ) → SameOutside to n m (copy m to from n)
unfolding copy
copy-outside m to from n = byte-write_outside m to n (λ j. m.byte (from + j))

pub load32-Moved :
    (m m' : Memory) (a a' n k : ℕ)
    → Moved m a m' a' n
    → k + 4 ≤ n
    → load32 m' (a' + k) ≡ load32 m (a + k)
unfolding load32
load32-Moved m m' a a' n k h le = ground (arith, h k, h (k + 1), h (k + 2), h (k + 3))
