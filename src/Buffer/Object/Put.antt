-- ===== src/Buffer/Object/Put.antt =====
-- A new member of an object that is a leaf with fewer than seven keys: the setters, then the getters.
use Prim.Native.Nat.{Ordering}
use lite3_cpp.Base.{
  ℕ, ◌+◌, ◌^◌, ◌<◌, ◌≡◌, ◌≢◌, refl, ◌∙◌, sym, ap, true, false, List, none, some, arith, length,
  Bool-cases, inl, inr,
}
use lite3_cpp.Node.{Tag, int64, string, code, of_code}
use lite3_cpp.Outcome.{ok, throws, ◌>>=◌}
use lite3_cpp.Buffer.State.{Buffer}
use lite3_cpp.Buffer.Entry.{has_length, fixed_len, value_len}
use lite3_cpp.Buffer.Compare.Order.{Key, compare_keys, compare_keys_refl, eq_of_compare_keys}
use lite3_cpp.Buffer.Search.{is_eq}
use lite3_cpp.Buffer.Search.Table.{Entry, position, lookup, insert_at, lookup-insert_at}
use lite3_cpp.Buffer.Insert.Leaf.{LeafIn, IsNew}
use lite3_cpp.Buffer.Shows.{LeafIn-Shows}
use lite3_cpp.Buffer.Set.Leaf.{with_key, set_impl-new}
use lite3_cpp.Buffer.Object.{set_value, set_i64, set_str, get_str, get_i64}
use lite3_cpp.Buffer.Object.Leaf.{djb2_hash-lt, member, get_str-lookup, get_word-lookup}

-- The entry that a setter adds at the end of the used bytes.
abbrev pub new_entry : Buffer → List ℕ → List ℕ → Tag → Entry
new_entry b text val t = record { key = member text; address = b.m_used_size; type = t; val = val }

pub eq_of_is_eq : (o : Ordering) → is_eq o ≡ true → o ≡ Ordering.eq
eq_of_is_eq Ordering.eq same = refl
eq_of_is_eq Ordering.lt same = cc
eq_of_is_eq Ordering.gt same = cc

pub is_eq-compare_keys : (k j : Key) → k.text ≢ j.text → is_eq (compare_keys k j) ≡ false
is_eq-compare_keys k j h = elim (Bool-cases (is_eq (compare_keys k j))) [
  | inl same ↦ absurd (h (ap (λ (x : Key). x.text) (eq_of_compare_keys k j (eq_of_is_eq _ same))))
  | inr other ↦ other
]

module _ (b : Buffer) (a : ℕ) (es : List Entry) (text val : List ℕ) (t : Tag)
    (inv : LeafIn b false a es) (room : length es < 7) (small : length text < 63)
    (fresh : lookup (member text) es ≡ none) (known : of_code (code t) ≡ t)
    (sized : has_length t ≡ false → length val ≡ fixed_len t) (type_fits : code t < 256)
    (val_fits : length val < 2 ^ 32) (addressable : b.m_used_size < 2 ^ 32) where
  abbrev e : Entry
  e = new_entry b text val t

  new : IsNew false e
  new = record {
    hash_fits = djb2_hash-lt text;
    small = small;
    array = λ h. cc;
    known = known;
    sized = sized;
    type_fits = type_fits;
    val_fits = val_fits;
  }

  abbrev put : Buffer
  put = with_key b false a es e inv room new fresh refl addressable

  abbrev es' : List Entry
  es' = insert_at (position (member text) es) e es

  set_value-put : set_value b a text val t ≡ ok put
  unfolding set_value
  set_value-put = rw ((set_impl-new b false a es e inv room new fresh refl addressable).0) refl

  put-LeafIn : LeafIn put false a es'
  put-LeafIn = (set_impl-new b false a es e inv room new fresh refl addressable).1

  lookup-put : lookup (member text) es' ≡ some e
  lookup-put = lookup-insert_at (member text) e es fresh ∙ rw (compare_keys_refl (member text)) refl

  lookup-put_other :
      (other : List ℕ) → other ≢ text → lookup (member other) es' ≡ lookup (member other) es
  lookup-put_other other h =
      lookup-insert_at (member other) e es fresh
      ∙ rw (is_eq-compare_keys (member text) (member other) (λ p. h (sym p))) refl

module _ (b : Buffer) (a : ℕ) (es : List Entry) (text val : List ℕ) (inv : LeafIn b false a es)
    (room : length es < 7) (small : length text < 63) (fresh : lookup (member text) es ≡ none)
    (addressable : b.m_used_size < 2 ^ 32) where
  string_known : of_code (code string) ≡ string
  unfolding code of_code
  string_known = refl

  word_known : of_code (code int64) ≡ int64
  unfolding code of_code
  word_known = refl

  word_fits : code int64 < 256
  unfolding code
  word_fits = omega arith

  string_fits : code string < 256
  unfolding code
  string_fits = omega arith

  -- At an object that is a leaf of fewer than seven members, for a key of fewer than 63 characters
  -- that is not among them, a string shorter than 2^32 and a buffer whose used bytes end below
  -- 2^32: `set_str` returns, `get_str` under the key then returns the string and `get_i64` under it
  -- throws, and `get_str` and `get_i64` under every other key return or throw what they did before.
  pub get_str-set_str :
      length val < 2 ^ 32
      → ((do b' ← set_str b a text val; get_str b' a text) ≡ ok val)
        × ((do b' ← set_str b a text val; get_i64 b' a text) ≡ throws "Type mismatch or not found")
        × ((other : List ℕ)
            → other ≢ text
            → ((do b' ← set_str b a text val; get_str b' a other) ≡ get_str b a other)
              × ((do b' ← set_str b a text val; get_i64 b' a other) ≡ get_i64 b a other))
  unfolding set_str code
  get_str-set_str val_fits =
      let is_new =
        set_value-put b a es text val string inv room small fresh string_known (λ h. cc) string_fits
          val_fits addressable in
      let shown = LeafIn-Shows _ false a _ (
        put-LeafIn b a es text val string inv room small fresh string_known (λ h. cc) string_fits
          val_fits addressable) in
      let here =
        lookup-put b a es text val string inv room small fresh string_known (λ h. cc) string_fits
          val_fits addressable in
      let there =
        lookup-put_other b a es text val string inv room small fresh string_known (λ h. cc)
          string_fits val_fits addressable in
      rw is_new (
        get_str-lookup _ a _ shown text ∙ rw here refl,
        (get_word-lookup _ a _ shown text).0 ∙ rw here refl,
        λ other h. (
          get_str-lookup _ a _ shown other
              ∙ rw (there other h, get_str-lookup b a es (LeafIn-Shows b false a es inv) other)
                  refl,
          (get_word-lookup _ a _ shown other).0
              ∙ rw (there other h, (get_word-lookup b a es (LeafIn-Shows b false a es inv) other).0)
                  refl,
        ),
      )

  -- A string more: the call returns, the object is a leaf with one entry more, and keys other than the
  -- new one are found or not as before.
  pub set_str-leaf :
      length val < 2 ^ 32
      → (b' : Buffer) × (set_str b a text val ≡ ok b')
        × LeafIn b' false a (insert_at (position (member text) es) (new_entry b text val string) es)
        × (b'.m_used_size ≡ b.m_used_size + (length text + 2 + value_len string (length val)))
        × ((other : List ℕ)
            → other ≢ text
            → lookup
                (member other)
                (insert_at (position (member text) es) (new_entry b text val string) es)
              ≡ lookup (member other) es)
  unfolding set_str
  set_str-leaf val_fits = (
    put b a es text val string inv room small fresh string_known (λ h. cc) string_fits val_fits
        addressable,
    set_value-put b a es text val string inv room small fresh string_known (λ h. cc) string_fits
        val_fits addressable,
    put-LeafIn b a es text val string inv room small fresh string_known (λ h. cc) string_fits
        val_fits addressable,
    refl,
    lookup-put_other b a es text val string inv room small fresh string_known (λ h. cc) string_fits
        val_fits addressable,
  )

  -- At an object that is a leaf of fewer than seven members, for a key of fewer than 63 characters
  -- that is not among them, the eight bytes of an integer and a buffer whose used bytes end below
  -- 2^32: `set_i64` returns, `get_i64` under the key then returns these bytes and `get_str` under
  -- it throws, and both getters under every other key return or throw what they did before.
  pub get_i64-set_i64 :
      length val ≡ 8
      → ((do b' ← set_i64 b a text val; get_i64 b' a text) ≡ ok val)
        × ((do b' ← set_i64 b a text val; get_str b' a text) ≡ throws "Type mismatch")
        × ((other : List ℕ)
            → other ≢ text
            → ((do b' ← set_i64 b a text val; get_str b' a other) ≡ get_str b a other)
              × ((do b' ← set_i64 b a text val; get_i64 b' a other) ≡ get_i64 b a other))
  unfolding set_i64 code
  get_i64-set_i64 eight =
      let is_new =
        set_value-put b a es text val int64 inv room small fresh word_known (λ h. eight) word_fits
          (omega arith) addressable in
      let shown = LeafIn-Shows _ false a _ (
        put-LeafIn b a es text val int64 inv room small fresh word_known (λ h. eight) word_fits
          (omega arith) addressable) in
      let here =
        lookup-put b a es text val int64 inv room small fresh word_known (λ h. eight) word_fits
          (omega arith) addressable in
      let there =
        lookup-put_other b a es text val int64 inv room small fresh word_known (λ h. eight)
          word_fits (omega arith) addressable in
      rw is_new (
        (get_word-lookup _ a _ shown text).0 ∙ rw here refl,
        get_str-lookup _ a _ shown text ∙ rw here refl,
        λ other h. (
          get_str-lookup _ a _ shown other
              ∙ rw (there other h, get_str-lookup b a es (LeafIn-Shows b false a es inv) other)
                  refl,
          (get_word-lookup _ a _ shown other).0
              ∙ rw (there other h, (get_word-lookup b a es (LeafIn-Shows b false a es inv) other).0)
                  refl,
        ),
      )
