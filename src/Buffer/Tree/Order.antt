-- ===== src/Buffer/Tree/Order.antt =====
-- A tree whose entries are in the order of their keys: its search is the search in the list of them.
use Prim.Native.Nat.{Ordering}
use lite3_cpp.Base.{
  ◌≤◌, ◌≡◌, refl, ◌∙◌, ap, sym, subst, Bool, true, false, List, [], ◌∷◌, ◌++◌, All, Option, none,
  some, arith, length, if◌then◌else◌, Bool-cases, inl, inr,
}
use mathlib.Core.List.{append-nil}
use lite3_cpp.Memory.{Memory}
use lite3_cpp.Buffer.Compare.Order.{Key, compare_keys, compare_keys_trans_lt, eq_of_compare_keys}
use lite3_cpp.Outcome.{ok}
use lite3_cpp.Buffer.State.{Buffer}
use lite3_cpp.Buffer.Search.{is_lt, is_eq, rounds, get_impl}
use lite3_cpp.Buffer.Search.Leaf.{found}
use lite3_cpp.Buffer.Tree.Get.{get_impl-Tree}
use lite3_cpp.Buffer.Search.Table.{Entry, lookup, position}
use lite3_cpp.Buffer.Tree.{
  Tree, address, height, node, Trees, nil, cons, count, entries, weave, or_else, lookup_tree,
  lookup_child,
}
use lite3_cpp.Buffer.Tree.Held.{TreeAt, TreesAt}

abbrev pub IsBelow : Key → Key → Type 0
IsBelow j k = is_lt (compare_keys j k) ≡ true

is_lt-lt : (o : Ordering) → is_lt o ≡ true → o ≡ Ordering.lt
is_lt-lt Ordering.lt h = refl
is_lt-lt Ordering.eq h = cc
is_lt-lt Ordering.gt h = cc

is_eq-eq : (o : Ordering) → is_eq o ≡ true → o ≡ Ordering.eq
is_eq-eq Ordering.lt h = cc
is_eq-eq Ordering.eq h = refl
is_eq-eq Ordering.gt h = cc

pub IsBelow-trans : (j k l : Key) → IsBelow j k → IsBelow k l → IsBelow j l
IsBelow-trans j k l h h' = ap is_lt (compare_keys_trans_lt j k l (is_lt-lt _ h) (is_lt-lt _ h'))

pub All-IsBelow :
    (xs : List Entry) (j k : Key)
    → All (λ (d : Entry). IsBelow d.key j) xs
    → IsBelow j k
    → All (λ (d : Entry). IsBelow d.key k) xs
All-IsBelow [] j k h below = tt
All-IsBelow (x ∷ xs) j k h below = (IsBelow-trans x.key j k h.0 below, All-IsBelow xs j k h.1 below)

unfoldable pub IsSorted : List Entry → Type 0
IsSorted [] = Unit
IsSorted (e ∷ es) = All (λ (d : Entry). IsBelow e.key d.key) es × IsSorted es

-- A node has no children, or one more than keys.
unfoldable mutual
  pub IsFormed : Tree → Type 0
  IsFormed (node a es nil) = Unit
  IsFormed (node a es (cons t ts)) = (count ts ≡ length es) × IsFormed t × AreFormed ts

  pub AreFormed : Trees → Type 0
  AreFormed nil = Unit
  AreFormed (cons t ts) = IsFormed t × AreFormed ts

mutual
  unfolding IsFormed TreeAt

  pub TreeAt-IsFormed : (m : Memory) (arr : Bool) (t : Tree) → TreeAt m arr t → IsFormed t
  TreeAt-IsFormed m arr (node a es nil) h = tt
  TreeAt-IsFormed m arr (node a es (cons t ts)) h =
      (omega (arith, h.2.0), TreeAt-IsFormed m arr t h.3.0, TreesAt-AreFormed m arr ts h.3.1)

  TreesAt-AreFormed : (m : Memory) (arr : Bool) (ts : Trees) → TreesAt m arr ts → AreFormed ts
  TreesAt-AreFormed m arr nil h = tt
  TreesAt-AreFormed m arr (cons t ts) h =
      (TreeAt-IsFormed m arr t h.0, TreesAt-AreFormed m arr ts h.1)

pub All-parts :
    {A : Type 0} (P : A → Type 0) (xs : List A) (y : A) (ys : List A)
    → All P (xs ++ (y ∷ ys))
    → All P xs × P y × All P ys
All-parts P [] y ys h = (tt, h.0, h.1)
All-parts P (x ∷ xs) y ys h =
    let (front, at, back) = All-parts P xs y ys h.1 in ((h.0, front), at, back)

-- The parts of a list in order.
pub IsSorted-append :
    (xs : List Entry) (e : Entry) (ys : List Entry)
    → IsSorted (xs ++ (e ∷ ys))
    → All (λ (d : Entry). IsBelow d.key e.key) xs × IsSorted xs × IsSorted ys
unfolding IsSorted
IsSorted-append [] e ys h = (tt, tt, h.1)
IsSorted-append (x ∷ xs) e ys h =
    let (front, at, back) = All-parts (λ (d : Entry). IsBelow x.key d.key) xs e ys h.0 in
    let (below, sorted, rest) = IsSorted-append xs e ys h.1 in ((at, below), (front, sorted), rest)

module _ (k : Key) where
  lookup-above :
      (xs : List Entry) (e : Entry) (ys : List Entry)
      → is_lt (compare_keys e.key k) ≡ false
      → is_eq (compare_keys e.key k) ≡ false
      → lookup k (xs ++ (e ∷ ys)) ≡ lookup k xs
  unfolding lookup
  lookup-above [] e ys not_lt not_eq = rw (not_lt, not_eq) refl
  lookup-above (x ∷ xs) e ys not_lt not_eq = rw (lookup-above xs e ys not_lt not_eq) refl

  lookup-below :
      (xs ys : List Entry)
      → All (λ (d : Entry). IsBelow d.key k) xs
      → lookup k (xs ++ ys) ≡ lookup k ys
  unfolding lookup
  lookup-below [] ys h = refl
  lookup-below (x ∷ xs) ys h = rw h.0 (lookup-below xs ys h.1)

  or_else-none : (r : Option Entry) → or_else r none ≡ r
  or_else-none none = refl
  or_else-none (some e) = refl

  -- The entries before the first separator, the separator and those behind it.
  lookup-separated :
      (xs : List Entry) (e : Entry) (ys : List Entry) (here behind : Option Entry)
      → All (λ (d : Entry). IsBelow d.key e.key) xs
      → here ≡ lookup k xs
      → behind ≡ lookup k ys
      → (if is_lt (compare_keys e.key k)
          then behind
          else if is_eq (compare_keys e.key k)
          then some e
          else here)
        ≡ lookup k (xs ++ (e ∷ ys))
  lookup-separated xs e ys here behind below first rest =
      elim (Bool-cases (is_lt (compare_keys e.key k))) [
        | inl lt ↦ rw lt (
            rest
            ∙ sym (
                lookup-below xs (e ∷ ys) (All-IsBelow xs e.key k below lt)
                ∙ unfold lookup in rw lt refl))
        | inr not_lt ↦ elim (Bool-cases (is_eq (compare_keys e.key k))) [
          | inl same ↦
              let equal = eq_of_compare_keys e.key k (is_eq-eq _ same) in
              rw (not_lt, same)
                (sym (
                  lookup-below xs (e ∷ ys)
                    (subst (λ j. All (λ (d : Entry). IsBelow d.key j) xs) equal below)
                  ∙ unfold lookup in rw (not_lt, same) refl))
          | inr other ↦ rw (not_lt, other) (first ∙ sym (lookup-above xs e ys not_lt other))
        ]
      ]

  or_else-separated :
      (e : Entry) (es : List Entry) (t : Tree) (ts : Trees)
      → or_else (lookup k (e ∷ es)) (lookup_child k (cons t ts) (position k (e ∷ es))) ≡ (
          if is_lt (compare_keys e.key k)
          then or_else (lookup k es) (lookup_child k ts (position k es))
          else if is_eq (compare_keys e.key k)
          then some e
          else lookup_tree k t)
  unfolding lookup position lookup_tree
  or_else-separated e es t ts = ground arith

  or_else-first :
      (t : Tree)
      → or_else (lookup k []) (lookup_child k (cons t nil) (position k [])) ≡ lookup_tree k t
  unfolding lookup position lookup_tree
  or_else-first t = refl

  -- The entries of a node and of the subtrees behind its first.
  mutual
    unfolding entries lookup_tree IsFormed

    pub lookup_tree-entries :
        (t : Tree) → IsFormed t → IsSorted (entries t) → lookup_tree k t ≡ lookup k (entries t)
    lookup_tree-entries (node a es nil) formed sorted = or_else-none (lookup k es)
    lookup_tree-entries (node a es (cons t ts)) formed sorted =
        lookup-weave es t ts formed.0 (λ h. lookup_tree-entries t formed.1 h) formed.2 sorted

    lookup-weave :
        (es : List Entry) (t : Tree) (ts : Trees)
        → count ts ≡ length es
        → (IsSorted (entries t) → lookup_tree k t ≡ lookup k (entries t))
        → AreFormed ts
        → IsSorted (entries t ++ weave es ts)
        → or_else (lookup k es) (lookup_child k (cons t ts) (position k es))
          ≡ lookup k (entries t ++ weave es ts)
    lookup-weave (e ∷ es) t nil counted first all sorted = absurd (omega arith)
    lookup-weave [] t nil counted first all sorted =
        or_else-first t
        ∙ first (subst IsSorted (append-nil (entries t)) sorted)
        ∙ ap (lookup k) (sym (append-nil (entries t)))
    lookup-weave [] t (cons t' ts) counted first all sorted = absurd (omega arith)
    lookup-weave (e ∷ es) t (cons t' ts) counted first all sorted =
        let (below, front, back) =
          IsSorted-append (entries t) e (entries t' ++ weave es ts) sorted in
        or_else-separated e es t (cons t' ts)
        ∙ lookup-separated (entries t) e (entries t' ++ weave es ts) (lookup_tree k t)
            (or_else (lookup k es) (lookup_child k (cons t' ts) (position k es))) below
            (first front)
            (lookup-weave es t' ts (omega arith) (λ h. lookup_tree-entries t' all.0 h) all.1 back)

-- At the root of a tree of nodes that lies in memory, of no more levels than the loop has rounds,
-- whose entries, taken from left to right through the nodes, are in the order of their keys:
-- `get_impl` returns, within its rounds, and finds what the search in the list of these entries
-- finds, the address of the data and the type of the entry with the key, or nothing; in an array
-- the key has no text.
pub get_impl-entries :
    (b : Buffer) (arr : Bool) (t : Tree) (k : Key)
    → (arr ≡ true → k.text ≡ [])
    → TreeAt b.m_data arr t
    → IsSorted (entries t)
    → height t ≤ rounds b
    → get_impl b (address t) k.text k.hash arr ≡ ok (found arr (lookup k (entries t)))
get_impl-entries b arr t k array held sorted low =
    get_impl-Tree b arr t k array held low
    ∙ ap (λ r. ok (found arr r))
        (lookup_tree-entries k t (TreeAt-IsFormed b.m_data arr t held) sorted)
