-- ===== src/Buffer/Tree/PutIn.antt =====
-- A new entry put into the entries of a tree: at one child, it is put into that child's.
use lite3_cpp.Base.{
  ℕ, zero, suc, ◌+◌, ◌<◌, ◌≡◌, ◌≢◌, refl, sym, ◌∙◌, ap, false, List, [], ◌∷◌, ◌++◌, All, none,
  length, arith, ltb, if◌then◌else◌, Bool-cases, inl, inr,
}
use mathlib.Core.List.{append-nil}
use lite3_cpp.Buffer.Compare.Order.{Key, compare_keys}
use lite3_cpp.Buffer.Search.{is_lt, is_eq}
use lite3_cpp.Buffer.Search.Table.{Entry, nth, position, lookup, insert_at}
use lite3_cpp.Buffer.Tree.{Tree, Trees, nil, cons, count, entries, weave}
use lite3_cpp.Buffer.Tree.Order.{IsBelow, IsBelow-trans, All-IsBelow, IsSorted, IsSorted-append}
use lite3_cpp.Buffer.Tree.Parts.{child}
use lite3_cpp.Buffer.Tree.Spread.{spread, weave-spread}
use lite3_cpp.Buffer.Tree.Put.{put, count-put}

-- The entry put in at its position.
abbrev pub put_in : Entry → List Entry → List Entry
put_in e xs = insert_at (position e.key xs) e xs

-- No entry has the hash.
abbrev pub HashFree : ℕ → List Entry → Type 0
HashFree h xs = All (λ (d : Entry). d.key.hash ≢ h) xs

pub compare-hash : (d k : Key) → d.hash ≢ k.hash → is_lt (compare_keys d k) ≡ ltb d.hash k.hash
unfolding compare_keys
compare-hash d k h = ground arith

is_eq-hash : (d k : Key) → d.hash ≢ k.hash → is_eq (compare_keys d k) ≡ false
unfolding compare_keys
is_eq-hash d k h = ground arith

pub lookup-HashFree : (k : Key) (xs : List Entry) → HashFree k.hash xs → lookup k xs ≡ none
unfolding lookup
lookup-HashFree k [] free = refl
lookup-HashFree k (x ∷ xs) free =
    rw (is_eq-hash x.key k free.0) (ground (arith, lookup-HashFree k xs free.1))

-- Behind smaller keys, and before a key that is not smaller.
put_in-below :
    (e : Entry) (xs ys : List Entry)
    → All (λ (d : Entry). IsBelow d.key e.key) xs
    → put_in e (xs ++ ys) ≡ xs ++ put_in e ys
unfolding position insert_at
put_in-below e [] ys h = refl
put_in-below e (x ∷ xs) ys h = rw h.0 (ap (λ zs. x ∷ zs) (put_in-below e xs ys h.1))

put_in-above :
    (e : Entry) (xs : List Entry) (d : Entry) (ys : List Entry)
    → is_lt (compare_keys d.key e.key) ≡ false
    → put_in e (xs ++ (d ∷ ys)) ≡ put_in e xs ++ (d ∷ ys)
unfolding position insert_at
put_in-above e [] d ys h = rw h refl
put_in-above e (x ∷ xs) d ys h = elim (Bool-cases (is_lt (compare_keys x.key e.key))) [
  | inl lt ↦ rw lt (ap (λ zs. x ∷ zs) (put_in-above e xs d ys h))
  | inr other ↦ rw other refl
]

-- The entry goes into the child at its position.
pub spread-put_in :
    (e : Entry) (u : Tree) (es : List Entry) (ts : Trees)
    → count ts ≡ length es + 1
    → IsSorted (spread es ts)
    → entries u ≡ put_in e (entries (child (position e.key es) ts))
    → spread es (put (position e.key es) u ts) ≡ put_in e (spread es ts)
unfolding spread entries put child position insert_at
spread-put_in e u es nil counted sorted new = absurd (omega arith)
spread-put_in e u [] (cons t nil) counted sorted new =
    append-nil (entries u) ∙ new ∙ ap (put_in e) (sym (append-nil (entries t)))
spread-put_in e u [] (cons t (cons t' ts)) counted sorted new = absurd (omega arith)
spread-put_in e u (d ∷ es) (cons t nil) counted sorted new = absurd (omega arith)
spread-put_in e u (d ∷ es) (cons t (cons t' ts)) counted sorted new =
    let rest = entries t' ++ weave es ts in
    let (front, low, high) = IsSorted-append (entries t) d rest sorted in
    elim (Bool-cases (is_lt (compare_keys d.key e.key))) [
      | inl lt ↦
          let i = position e.key es in
          let last : d ∷ put_in e rest ≡ put_in e (d ∷ rest) = rw lt refl in
          let inner : entries u ≡ put_in e (entries (child i (cons t' ts))) = new ∙ rw lt refl in
          rw lt (
            ap (λ xs. entries t ++ xs)
              (weave-spread d es (put i u (cons t' ts)) (omega (arith, count-put i u (cons t' ts)))
                ∙ ap (λ xs. d ∷ xs) (spread-put_in e u es (cons t' ts) (omega arith) high inner)
                ∙ last)
            ∙ sym (
                put_in-below e (entries t) (d ∷ rest)
                  (All-IsBelow (entries t) d.key e.key front lt)))
      | inr other ↦
          let here : entries u ≡ put_in e (entries t) = new ∙ rw other refl in
          rw other
            (ap (λ xs. xs ++ (d ∷ rest)) here ∙ sym (put_in-above e (entries t) d rest other))
    ]

pub All-insert_at :
    (P : Entry → Type 0) (i : ℕ) (e : Entry) (xs : List Entry)
    → P e
    → All P xs
    → All P (insert_at i e xs)
unfolding insert_at
All-insert_at P zero e xs new all = (new, all)
All-insert_at P (suc i) e [] new all = (new, tt)
All-insert_at P (suc i) e (x ∷ xs) new all = (all.0, All-insert_at P i e xs new all.1)

All-above :
    (e : Entry) (d : Key) (xs : List Entry)
    → IsBelow e.key d
    → All (λ (x : Entry). IsBelow d x.key) xs
    → All (λ (x : Entry). IsBelow e.key x.key) xs
All-above e d [] below all = tt
All-above e d (x ∷ xs) below all =
    (IsBelow-trans e.key d x.key below all.0, All-above e d xs below all.1)

-- The order is kept.
pub put_in-IsSorted :
    (e : Entry) (xs : List Entry) → HashFree e.key.hash xs → IsSorted xs → IsSorted (put_in e xs)
unfolding IsSorted insert_at position
put_in-IsSorted e [] free sorted = (tt, tt)
put_in-IsSorted e (x ∷ xs) free sorted =
    let smaller = compare-hash x.key e.key free.0 in
    elim (Bool-cases (is_lt (compare_keys x.key e.key))) [
      | inl lt ↦ rw lt (
        All-insert_at (λ (d : Entry). IsBelow x.key d.key) (position e.key xs) e xs lt sorted.0,
        put_in-IsSorted e xs free.1 sorted.1,
      )
      | inr other ↦
          let below : IsBelow e.key x.key =
            compare-hash e.key x.key (λ h. free.0 (sym h)) ∙ ground (arith, free.0) in
          rw other ((below, All-above e x.key xs below sorted.0), sorted)
    ]

-- The position of a key in a row with one entry more at that position.
pub position-insert_at :
    (k : Key) (d : Entry) (es : List Entry)
    → position k (insert_at (position k es) d es)
      ≡ (if is_lt (compare_keys d.key k) then suc (position k es) else position k es)
unfolding insert_at position
position-insert_at k d [] = refl
position-insert_at k d (x ∷ xs) = ground (arith, position-insert_at k d xs)

pub All-nth :
    (P : Entry → Type 0) (j : ℕ) (es : List Entry) → j < length es → All P es → P (nth es j)
All-nth P j [] h all = absurd (omega arith)
All-nth P zero (e ∷ es) h all = all.0
All-nth P (suc j) (e ∷ es) h all = All-nth P j es (omega arith) all.1
