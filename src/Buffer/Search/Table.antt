-- ===== src/Buffer/Search/Table.antt =====
-- The keys of a node as a list, and the search in it: from the left, up to the first key that is not
-- below the one sought.
use lite3_cpp.Base.{
  ℕ, zero, suc, ◌+◌, ◌-◌, ◌<◌, ◌≤◌, ◌≡◌, refl, ap, Bool, true, false, List, [], ◌∷◌, Option, none,
  some, arith, ltb, ◌==◌, if◌then◌else◌, length, get_or,
}
use lite3_cpp.Node.{Tag, null}
use lite3_cpp.Buffer.Compare.Order.{
  Key, compare_keys, eq_of_compare_keys, compare_keys_trans, compare_keys_flip,
}
use lite3_cpp.Buffer.Search.{is_lt, is_eq}

-- An entry: its key, its address, and the type and the data of its value.
pub record Entry : Type 0 where
  pub key : Key
  pub address : ℕ
  pub type : Tag
  pub val : List ℕ

abbrev pub no_entry : Entry
no_entry = record { key = record { hash = 0; text = [] }; address = 0; type = null; val = [] }

abbrev pub nth : List Entry → ℕ → Entry
nth es j = get_or es j no_entry

abbrev pub is_some : Option Entry → Bool
is_some none = false
is_some (some e) = true

-- The number of keys below `k` at the front.
unfoldable pub position : Key → List Entry → ℕ
position k [] = 0
position k (e ∷ es) = if is_lt (compare_keys e.key k) then suc (position k es) else 0

unfoldable pub lookup : Key → List Entry → Option Entry
lookup k [] = none
lookup k (e ∷ es) =
    if is_lt (compare_keys e.key k)
    then lookup k es
    else if is_eq (compare_keys e.key k)
    then some e
    else none

unfoldable pub insert_at : ℕ → Entry → List Entry → List Entry
insert_at zero e es = e ∷ es
insert_at (suc i) e [] = e ∷ []
insert_at (suc i) e (d ∷ es) = d ∷ insert_at i e es

pub position-le : (k : Key) (es : List Entry) → position k es ≤ length es
unfolding position
position-le k [] = omega arith
position-le k (e ∷ es) = ground (arith, position-le k es)

pub length-insert_at :
    (i : ℕ) (e : Entry) (es : List Entry) → length (insert_at i e es) ≡ length es + 1
unfolding insert_at
length-insert_at zero e es = omega arith
length-insert_at (suc i) e [] = refl
length-insert_at (suc i) e (d ∷ es) = omega (arith, length-insert_at i e es)

-- The search ends at an entry with the key sought, or at none.
pub lookup-position :
    (k : Key) (es : List Entry)
    → lookup k es ≡ (
        if ltb (position k es) (length es)
        then (if is_eq (compare_keys (nth es (position k es)).key k)
            then some (nth es (position k es))
            else none)
        else none)
unfolding lookup position
lookup-position k [] = refl
lookup-position k (e ∷ es) = ground (arith, lookup-position k es)

-- A key that was not there is found once it is put in at its position, and the search for any other
-- key is as before. No order of the list is needed.
pub lookup-insert_at :
    (j : Key) (e : Entry) (es : List Entry)
    → lookup e.key es ≡ none
    → lookup j (insert_at (position e.key es) e es)
      ≡ (if is_eq (compare_keys e.key j) then some e else lookup j es)
unfolding lookup position insert_at
lookup-insert_at j e [] out = ground arith
lookup-insert_at j e (d ∷ es) out = ground (
  arith,
  lookup-insert_at j e es,
  compare_keys_flip d.key e.key,
  compare_keys_trans e.key d.key j,
  compare_keys_trans d.key e.key j,
  eq_of_compare_keys d.key j,
)

nth-cons : (d : Entry) (es : List Entry) (j : ℕ) → 0 < j → nth (d ∷ es) j ≡ nth es (j - 1)
nth-cons d es zero h = elim h [ ]
nth-cons d es (suc j) h = ap (nth es) (omega arith)

-- Entry `j` of a list with `e` put in at `i`.
pub nth-insert_at :
    (i j : ℕ) (e : Entry) (es : List Entry)
    → i ≤ length es
    → nth (insert_at i e es) j
      ≡ (if ltb j i then nth es j else if i == j then e else nth es (j - 1))
unfolding insert_at
nth-insert_at zero zero e es h = refl
nth-insert_at zero (suc j) e es h = ground (arith, nth-cons e es (suc j))
nth-insert_at (suc i) j e [] h = absurd (omega arith)
nth-insert_at (suc i) zero e (d ∷ es) h = ground arith
nth-insert_at (suc i) (suc j) e (d ∷ es) h = ground (arith, nth-insert_at i j e es, nth-cons d es j)
