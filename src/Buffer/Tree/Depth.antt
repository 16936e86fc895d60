-- ===== src/Buffer/Tree/Depth.antt =====
-- An even tree has few levels: its entries are four times as many with every level.
use native.Mathlib.Nat.{mul-le-mul_right, suc-mul, pow-succ', pow-le-pow_right}
use lite3_cpp.Base.{
  subst, length-append, inl, inr, ltb, Bool-cases, ℕ, zero, suc, ◌+◌, ◌*◌, ◌^◌, ◌<◌, ◌≤◌, ◌≡◌, ap₂,
  List, [], ◌∷◌, length, arith,
}
use lite3_cpp.Buffer.Search.Table.{Entry}
use lite3_cpp.Buffer.Tree.{Tree, node, Trees, nil, cons, count, height, height_of, entries, weave}
use lite3_cpp.Buffer.Tree.Order.{IsFormed, AreFormed}
use lite3_cpp.Buffer.Tree.Even.{root_keys, Even, EvenOf}

mutual
  unfolding Even height

  pub Even-height : (d : ℕ) (t : Tree) → Even d t → height t ≤ suc d
  Even-height zero (node a es nil) even = omega arith
  Even-height zero (node a es (cons t ts)) even = absurd (omega arith)
  Even-height (suc d) (node a es ts) even = omega (arith, EvenOf-height d ts even.1)

  EvenOf-height : (d : ℕ) (ts : Trees) → EvenOf d ts → height_of ts ≤ suc d
  EvenOf-height d nil even = omega arith
  EvenOf-height d (cons t ts) even =
      omega (arith, Even-height d t even.1, EvenOf-height d ts even.2)

-- The steps of the count, for `w` entries below each key and one more.
at_node : (k n w : ℕ) → 3 ≤ k → (k + 1) * w ≤ n + 1 → 4 * w ≤ n + 1
at_node k n w three h = omega (arith, h, mul-le-mul_right {m = 4} {n = k + 1} w (omega arith))

over_children : (k n r w : ℕ) → 4 * w ≤ n + 1 → k * (4 * w) ≤ r → suc k * (4 * w) ≤ 1 + (n + r)
over_children k n r w here rest = omega (arith, here, rest, suc-mul k (4 * w))

mutual
  unfolding Even IsFormed entries

  entries-many :
      (t : Tree) (d : ℕ)
      → IsFormed t
      → Even d t
      → (length (root_keys t) + 1) * 4 ^ d ≤ length (entries t) + 1
  entries-many (node a es nil) zero formed even = omega arith
  entries-many (node a es nil) (suc d) formed even = absurd (omega (arith, even.0))
  entries-many (node a es (cons t ts)) zero formed even = absurd (omega (arith, even))
  entries-many (node a es (cons t ts)) (suc d) formed even =
      let w = 4 ^ d in
      let (three, here, rest) = even.1 in
      let first : 4 * w ≤ length (entries t) + 1 =
        at_node (length (root_keys t)) (length (entries t)) w three
          (entries-many t d formed.1 here) in
      let others = weave-many ts d es formed.0 formed.2 rest in
      let shape : (length es + 1) * 4 ^ suc d ≡ suc (length es) * (4 * w) =
        ap₂ (λ n x. n * x) (omega arith) (pow-succ' 4 d) in
      omega (
        arith,
        over_children (length es) (length (entries t)) (length (weave es ts)) w first
            (subst (λ k. k * (4 * w) ≤ length (weave es ts)) formed.0 others),
        length-append (entries t) (weave es ts),
        shape,
      )

  weave-many :
      (ts : Trees) (d : ℕ) (es : List Entry)
      → count ts ≡ length es
      → AreFormed ts
      → EvenOf d ts
      → count ts * (4 * 4 ^ d) ≤ length (weave es ts)
  weave-many nil d es counted formed even = omega arith
  weave-many (cons t ts) d [] counted formed even = absurd (omega arith)
  weave-many (cons t ts) d (e ∷ es) counted formed even =
      let w = 4 ^ d in
      let first : 4 * w ≤ length (entries t) + 1 =
        at_node (length (root_keys t)) (length (entries t)) w even.0
          (entries-many t d formed.0 even.1) in
      let others = weave-many ts d es (omega arith) formed.1 even.2 in
      omega (
        arith,
        over_children (count ts) (length (entries t)) (length (weave es ts)) w first others,
        length-append (entries t) (weave es ts),
      )

-- As many levels below the root as `4 ^ d` may have for the entries.
pub Even-depth : (t : Tree) (d : ℕ) → IsFormed t → Even d t → 4 ^ d ≤ length (entries t) + 1
Even-depth t d formed even = omega (
  arith,
  entries-many t d formed even,
  mul-le-mul_right {m = 1} {n = length (root_keys t) + 1} (4 ^ d) (omega arith),
)

-- A tree of fewer than `4 ^ n - 1` entries has at most `n` levels.
pub Even-levels :
    (n : ℕ) (t : Tree) (d : ℕ)
    → IsFormed t
    → Even d t
    → length (entries t) + 1 < 4 ^ n
    → height t ≤ n
Even-levels n t d formed even few = elim (Bool-cases (ltb d n)) [
  | inl shallow ↦ ground (arith, Even-height d t even)
  | inr deep ↦
      let le : n ≤ d = ground arith in
      absurd (
        omega (
          arith,
          Even-depth t d formed even,
          pow-le-pow_right {n = 4} (omega arith) {i = n} {j = d} le,
        ))
]
