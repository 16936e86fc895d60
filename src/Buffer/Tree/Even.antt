-- ===== src/Buffer/Tree/Even.antt =====
-- Trees whose leaves all lie on one level, every node below the root with at least three keys.
use lite3_cpp.Base.{ℕ, zero, suc, ◌<◌, ◌≤◌, ◌≡◌, refl, List, length, arith}
use lite3_cpp.Buffer.Search.Table.{Entry}
use lite3_cpp.Buffer.Tree.{Tree, node, Trees, nil, cons, count}
use lite3_cpp.Buffer.Tree.Parts.{
  take_trees, drop_trees, child, divide, count-take_trees, count-drop_trees, count-divide,
}
use lite3_cpp.Buffer.Tree.Put.{put, count-put}

abbrev pub root_keys : Tree → List Entry
root_keys (node a es ts) = es

-- `d` levels lie below the root.
unfoldable mutual
  pub Even : ℕ → Tree → Type 0
  Even zero (node a es ts) = count ts ≡ 0
  Even (suc d) (node a es ts) = (0 < count ts) × EvenOf d ts

  pub EvenOf : ℕ → Trees → Type 0
  EvenOf d nil = Unit
  EvenOf d (cons t ts) = (3 ≤ length (root_keys t)) × Even d t × EvenOf d ts

module _ (d : ℕ) where
  pub EvenOf-child :
      (i : ℕ) (ts : Trees)
      → i < count ts
      → EvenOf d ts
      → (3 ≤ length (root_keys (child i ts))) × Even d (child i ts)
  unfolding Even child
  EvenOf-child i nil h even = absurd (omega arith)
  EvenOf-child zero (cons t ts) h even = (even.0, even.1)
  EvenOf-child (suc i) (cons t ts) h even = EvenOf-child i ts (omega arith) even.2

  pub EvenOf-put :
      (i : ℕ) (u : Tree) (ts : Trees)
      → 3 ≤ length (root_keys u)
      → Even d u
      → EvenOf d ts
      → EvenOf d (put i u ts)
  unfolding Even put
  EvenOf-put i u nil three new even = tt
  EvenOf-put zero u (cons t ts) three new even = (three, new, even.2)
  EvenOf-put (suc i) u (cons t ts) three new even =
      (even.0, even.1, EvenOf-put i u ts three new even.2)

  pub EvenOf-divide :
      (i : ℕ) (u v : Tree) (ts : Trees)
      → (3 ≤ length (root_keys u)) × Even d u
      → (3 ≤ length (root_keys v)) × Even d v
      → EvenOf d ts
      → EvenOf d (divide i u v ts)
  unfolding Even divide
  EvenOf-divide i u v nil hu hv even = tt
  EvenOf-divide zero u v (cons t ts) hu hv even = (hu.0, hu.1, (hv.0, hv.1, even.2))
  EvenOf-divide (suc i) u v (cons t ts) hu hv even =
      (even.0, even.1, EvenOf-divide i u v ts hu hv even.2)

  EvenOf-take : (k : ℕ) (ts : Trees) → EvenOf d ts → EvenOf d (take_trees k ts)
  unfolding Even take_trees
  EvenOf-take zero ts even = tt
  EvenOf-take (suc k) nil even = tt
  EvenOf-take (suc k) (cons t ts) even = (even.0, even.1, EvenOf-take k ts even.2)

  EvenOf-drop : (k : ℕ) (ts : Trees) → EvenOf d ts → EvenOf d (drop_trees k ts)
  unfolding Even drop_trees
  EvenOf-drop zero ts even = even
  EvenOf-drop (suc k) nil even = tt
  EvenOf-drop (suc k) (cons t ts) even = EvenOf-drop k ts even.2

-- A node cut in two, with children on both sides.
pub Even-take :
    (d k a : ℕ) (es es' : List Entry) (ts : Trees)
    → (0 < count ts → suc k ≤ count ts)
    → Even d (node a es ts)
    → Even d (node a es' (take_trees (suc k) ts))
unfolding Even
Even-take zero k a es es' nil much even = unfold take_trees in refl
Even-take zero k a es es' (cons t ts) much even = absurd (omega arith)
Even-take (suc d) k a es es' ts much even =
    (omega (arith, count-take_trees (suc k) ts (much even.0)), EvenOf-take d (suc k) ts even.1)

pub Even-drop :
    (d k a a' : ℕ) (es es' : List Entry) (ts : Trees)
    → (0 < count ts → k < count ts)
    → Even d (node a es ts)
    → Even d (node a' es' (drop_trees k ts))
unfolding Even
Even-drop zero k a a' es es' ts much even = omega (arith, count-drop_trees k ts)
Even-drop (suc d) k a a' es es' ts much even =
    (omega (arith, count-drop_trees k ts, much even.0), EvenOf-drop d k ts even.1)

pub Even-leaf : (d a : ℕ) (es es' : List Entry) → Even d (node a es nil) → Even d (node a es' nil)
unfolding Even
Even-leaf zero a es es' even = even
Even-leaf (suc d) a es es' even = even

pub Even-root :
    (d a a' : ℕ) (es : List Entry) (ts : Trees) → Even d (node a es ts) → Even d (node a' es ts)
unfolding Even
Even-root zero a a' es ts even = even
Even-root (suc d) a a' es ts even = even

pub Even-put :
    (d p i : ℕ) (es : List Entry) (ts : Trees) (u : Tree)
    → i < count ts
    → length (root_keys (child i ts)) ≤ length (root_keys u)
    → ((c : ℕ) → Even c (child i ts) → Even c u)
    → Even d (node p es ts)
    → Even d (node p es (put i u ts))
unfolding Even
Even-put zero p i es ts u there more grown even = absurd (omega (arith, even))
Even-put (suc d) p i es ts u there more grown even =
    let (three, below) = EvenOf-child d i ts there even.1 in
    (
      omega (arith, count-put i u ts),
      EvenOf-put d i u ts (omega (arith, three)) (grown d below) even.1,
    )

pub Even-divide :
    (d p i : ℕ) (es es' : List Entry) (ts : Trees) (u v : Tree)
    → i < count ts
    → 3 ≤ length (root_keys u)
    → 3 ≤ length (root_keys v)
    → ((c : ℕ) → Even c (child i ts) → Even c u × Even c v)
    → Even d (node p es ts)
    → Even d (node p es' (divide i u v ts))
unfolding Even
Even-divide zero p i es es' ts u v there hu hv grown even = absurd (omega (arith, even))
Even-divide (suc d) p i es es' ts u v there hu hv grown even =
    let (three, below) = EvenOf-child d i ts there even.1 in
    let (lower, upper) = grown d below in
    (
      omega (arith, count-divide i u v ts there),
      EvenOf-divide d i u v ts (hu, lower) (hv, upper) even.1,
    )
