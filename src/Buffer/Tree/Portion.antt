-- ===== src/Buffer/Tree/Portion.antt =====
-- What holds of all entries of a tree holds of the keys of its root and of the entries of a child.
use lite3_cpp.Base.{ℕ, zero, suc, ◌+◌, ◌<◌, ◌≡◌, refl, ap, subst, List, [], ◌∷◌, All, length, arith}
use mathlib.Core.List.{append-nil}
use lite3_cpp.Buffer.Search.Table.{Entry}
use lite3_cpp.Buffer.Tree.{Tree, node, Trees, nil, cons, count, entries}
use lite3_cpp.Buffer.Tree.Order.{All-parts, IsSorted, IsSorted-append}
use lite3_cpp.Buffer.Tree.Parts.{child, divide}
use lite3_cpp.Buffer.Tree.Spread.{spread}
use lite3_cpp.Buffer.Tree.Put.{put}

module _ (P : Entry → Type 0) where
  pub All-child :
      (i : ℕ) (es : List Entry) (ts : Trees)
      → count ts ≡ length es + 1
      → i < count ts
      → All P (spread es ts)
      → All P (entries (child i ts))
  unfolding spread entries child
  All-child i es nil counted h all = absurd (omega arith)
  All-child zero [] (cons t nil) counted h all = subst (All P) (append-nil (entries t)) all
  All-child (suc i) [] (cons t nil) counted h all = absurd (omega arith)
  All-child i [] (cons t (cons t' ts)) counted h all = absurd (omega arith)
  All-child i (e ∷ es) (cons t nil) counted h all = absurd (omega arith)
  All-child zero (e ∷ es) (cons t (cons t' ts)) counted h all =
      (All-parts P (entries t) e (spread es (cons t' ts)) all).0
  All-child (suc i) (e ∷ es) (cons t (cons t' ts)) counted h all =
      let (front, at, back) = All-parts P (entries t) e (spread es (cons t' ts)) all in
      All-child i es (cons t' ts) (omega arith) (omega arith) back

  pub All-keys :
      (es : List Entry) (ts : Trees)
      → (0 < count ts → count ts ≡ length es + 1)
      → All P (spread es ts)
      → All P es
  unfolding spread entries
  All-keys es nil counted all = all
  All-keys [] (cons t ts) counted all = tt
  All-keys (e ∷ es) (cons t nil) counted all = absurd (omega (arith, counted (omega arith)))
  All-keys (e ∷ es) (cons t (cons t' ts)) counted all =
      let (front, at, back) = All-parts P (entries t) e (spread es (cons t' ts)) all in
      (at, All-keys es (cons t' ts) (λ h. omega (arith, counted (omega arith))) back)

pub IsSorted-child :
    (i : ℕ) (es : List Entry) (ts : Trees)
    → count ts ≡ length es + 1
    → i < count ts
    → IsSorted (spread es ts)
    → IsSorted (entries (child i ts))
unfolding spread entries child
IsSorted-child i es nil counted h sorted = absurd (omega arith)
IsSorted-child zero [] (cons t nil) counted h sorted =
    subst IsSorted (append-nil (entries t)) sorted
IsSorted-child (suc i) [] (cons t nil) counted h sorted = absurd (omega arith)
IsSorted-child i [] (cons t (cons t' ts)) counted h sorted = absurd (omega arith)
IsSorted-child i (e ∷ es) (cons t nil) counted h sorted = absurd (omega arith)
IsSorted-child zero (e ∷ es) (cons t (cons t' ts)) counted h sorted =
    (IsSorted-append (entries t) e (spread es (cons t' ts)) sorted).1
IsSorted-child (suc i) (e ∷ es) (cons t (cons t' ts)) counted h sorted =
    let (front, low, high) = IsSorted-append (entries t) e (spread es (cons t' ts)) sorted in
    IsSorted-child i es (cons t' ts) (omega arith) (omega arith) high

-- A child replaced by itself.
pub put-child : (i : ℕ) (ts : Trees) → put i (child i ts) ts ≡ ts
unfolding put child
put-child i nil = refl
put-child zero (cons t ts) = refl
put-child (suc i) (cons t ts) = ap (cons t) (put-child i ts)

-- The children that come of one that is divided.
pub child-divide :
    (i : ℕ) (u v : Tree) (ts : Trees)
    → i < count ts
    → (child i (divide i u v ts) ≡ u) × (child (suc i) (divide i u v ts) ≡ v)
unfolding divide child
child-divide i u v nil h = absurd (omega arith)
child-divide zero u v (cons t ts) h = (refl, refl)
child-divide (suc i) u v (cons t ts) h = child-divide i u v ts (omega arith)

pub Tree-parts : (t : Tree) → (a : ℕ) × (es : List Entry) × (ts : Trees) × (t ≡ node a es ts)
Tree-parts (node a es ts) = (a, es, ts, refl)
