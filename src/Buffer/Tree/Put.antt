-- ===== src/Buffer/Tree/Put.antt =====
-- A child replaced by another tree.
use lite3_cpp.Base.{ℕ, zero, suc, ◌<◌, ◌≤◌, ◌≡◌, refl, ap, Bool, arith}
use lite3_cpp.Memory.{Memory}
use lite3_cpp.Buffer.Tree.{Tree, Trees, nil, cons, address, count, child_address, height, height_of}
use lite3_cpp.Buffer.Tree.Held.{TreeAt, TreesAt}
use lite3_cpp.Buffer.Tree.Frame.{Spans, SpansOf, Kept, TreeAt-same, TreesAt-same}
use lite3_cpp.Buffer.Tree.Parts.{child, divide}
use lite3_cpp.Buffer.Tree.Tidy.{Off, OffOf, Others}

unfoldable pub put : ℕ → Tree → Trees → Trees
put i u nil = nil
put zero u (cons t ts) = cons u ts
put (suc i) u (cons t ts) = cons t (put i u ts)

pub count-put : (i : ℕ) (u : Tree) (ts : Trees) → count (put i u ts) ≡ count ts
unfolding put
count-put i u nil = refl
count-put zero u (cons t ts) = refl
count-put (suc i) u (cons t ts) = ap (λ n. suc n) (count-put i u ts)

pub child_address-put :
    (i : ℕ) (u : Tree) (ts : Trees) (j : ℕ)
    → address u ≡ address (child i ts)
    → child_address (put i u ts) j ≡ child_address ts j
unfolding put child
child_address-put i u nil j same = refl
child_address-put zero u (cons t ts) zero same = same
child_address-put zero u (cons t ts) (suc j) same = refl
child_address-put (suc i) u (cons t ts) zero same = refl
child_address-put (suc i) u (cons t ts) (suc j) same = child_address-put i u ts j same

pub height-put :
    (i : ℕ) (u : Tree) (ts : Trees)
    → height u ≤ height (child i ts)
    → height_of (put i u ts) ≤ height_of ts
unfolding put child height
height-put i u nil h = omega arith
height-put zero u (cons t ts) h = omega arith
height-put (suc i) u (cons t ts) h = omega (arith, height-put i u ts h)

pub height-child : (i : ℕ) (ts : Trees) → i < count ts → height (child i ts) ≤ height_of ts
unfolding child height
height-child i nil h = absurd (omega arith)
height-child zero (cons t ts) h = omega arith
height-child (suc i) (cons t ts) h = omega (arith, height-child i ts (omega arith))

-- A region that meets no node of the children but, perhaps, of child `i`.
unfoldable pub OffOthers : ℕ → Trees → ℕ → ℕ → Type 0
OffOthers i nil x n = Unit
OffOthers zero (cons t ts) x n = OffOf ts x n
OffOthers (suc i) (cons t ts) x n = Off t x n × OffOthers i ts x n

pub OffOf-OffOthers : (i : ℕ) (ts : Trees) (x n : ℕ) → OffOf ts x n → OffOthers i ts x n
unfolding OffOthers Off
OffOf-OffOthers i nil x n off = tt
OffOf-OffOthers zero (cons t ts) x n off = off.1
OffOf-OffOthers (suc i) (cons t ts) x n off = (off.0, OffOf-OffOthers i ts x n off.1)

pub OffOf-put :
    (i : ℕ) (u : Tree) (ts : Trees) (x n : ℕ)
    → OffOthers i ts x n
    → Off u x n
    → OffOf (put i u ts) x n
unfolding put OffOthers Off
OffOf-put i u nil x n others off = tt
OffOf-put zero u (cons t ts) x n others off = (off, others)
OffOf-put (suc i) u (cons t ts) x n others off = (others.0, OffOf-put i u ts x n others.1 off)

pub OffOf-divide :
    (i : ℕ) (u v : Tree) (ts : Trees) (x n : ℕ)
    → OffOthers i ts x n
    → Off u x n
    → Off v x n
    → OffOf (divide i u v ts) x n
unfolding divide OffOthers Off
OffOf-divide i u v nil x n others hu hv = tt
OffOf-divide zero u v (cons t ts) x n others hu hv = (hu, (hv, others))
OffOf-divide (suc i) u v (cons t ts) x n others hu hv =
    (others.0, OffOf-divide i u v ts x n others.1 hu hv)

module _ (P : ℕ → ℕ → Type 0) (arr : Bool) where
  pub SpansOf-put :
      (i : ℕ) (u : Tree) (ts : Trees)
      → SpansOf P arr ts
      → Spans P arr u
      → SpansOf P arr (put i u ts)
  unfolding put Spans
  SpansOf-put i u nil all new = tt
  SpansOf-put zero u (cons t ts) all new = (new, all.1)
  SpansOf-put (suc i) u (cons t ts) all new = (all.0, SpansOf-put i u ts all.1 new)

  pub SpansOf-divide :
      (i : ℕ) (u v : Tree) (ts : Trees)
      → SpansOf P arr ts
      → Spans P arr u
      → Spans P arr v
      → SpansOf P arr (divide i u v ts)
  unfolding divide Spans
  SpansOf-divide i u v nil all hu hv = tt
  SpansOf-divide zero u v (cons t ts) all hu hv = (hu, (hv, all.1))
  SpansOf-divide (suc i) u v (cons t ts) all hu hv = (all.0, SpansOf-divide i u v ts all.1 hu hv)

module _ (m m' : Memory) (arr : Bool) where
  pub TreesAt-put :
      (i : ℕ) (u : Tree) (ts : Trees)
      → TreesAt m arr ts
      → Others arr (Kept m m' arr) i ts
      → TreeAt m' arr u
      → TreesAt m' arr (put i u ts)
  unfolding TreeAt Others put
  TreesAt-put i u nil held same new = tt
  TreesAt-put zero u (cons t ts) held same new = (new, TreesAt-same m m' arr ts same held.1)
  TreesAt-put (suc i) u (cons t ts) held same new =
      (TreeAt-same m m' arr t same.0 held.0, TreesAt-put i u ts held.1 same.1 new)
