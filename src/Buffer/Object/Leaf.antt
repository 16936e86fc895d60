-- ===== src/Buffer/Object/Leaf.antt =====
-- The getters of an object, against the list of its entries.
use Prim.Native.String.{String}
use lite3_cpp.Base.{
  ℕ, ◌+◌, ◌^◌, ◌<◌, ◌≡◌, refl, ◌∙◌, sym, ap, subst, Bool, true, false, List, [], ◌∷◌, Option, none,
  some, arith, if◌then◌else◌, ==_iff, Bool-cases, sign_extend, ◌<<◌, Option-cases, inl, inr, u32,
}
use lite3_cpp.Hash.{djb2_hash, djb2_from}
use lite3_cpp.Memory.{Memory, read_bytes}
use lite3_cpp.Memory.Frame.{TextAt, read_bytes-text}
use lite3_cpp.Node.{object, array, Tag, bool, int64, float64, bytes, string, code, of_code}
use lite3_cpp.Outcome.{undefined, Outcome, ok, throws, ◌>>=◌}
use lite3_cpp.Buffer.State.{Buffer}
use lite3_cpp.Buffer.Entry.{has_length, fixed_len}
use lite3_cpp.Buffer.Compare.Order.{Key}
use lite3_cpp.Buffer.Search.Table.{Entry, lookup}
use lite3_cpp.Buffer.Search.Held.{Held, value_at}
use lite3_cpp.Buffer.Search.Leaf.{found}
use lite3_cpp.Buffer.Shows.{Shows}
use lite3_cpp.Buffer.Object.{
  get_obj, get_arr, expect, bool_of, get_bool, get_bytes, get_type, same_tag, sized_bytes, find_key,
  get_fixed, get_i64, get_f64, get_str,
}

djb2_from-lt : (s : List ℕ) (h : ℕ) → h < 2 ^ 32 → djb2_from h s < 2 ^ 32
unfolding djb2_from
djb2_from-lt [] h fits = fits
djb2_from-lt (c ∷ s) h fits =
    djb2_from-lt s (u32 (u32 (u32 (h << 5) + h) + sign_extend 32 c)) (omega arith)

pub djb2_hash-lt : (key : List ℕ) → djb2_hash key < 2 ^ 32
unfolding djb2_hash
djb2_hash-lt key = djb2_from-lt key 5381 (omega arith)

pub of_code-bytes : of_code (code bytes) ≡ bytes
unfolding of_code code
of_code-bytes = refl

pub of_code-string : of_code (code string) ≡ string
unfolding of_code code
of_code-string = refl

-- Two tags with the same byte, neither of them out of the enumeration.
pub eq_of_same_tag :
    (t u : Tag) → of_code (code t) ≡ t → of_code (code u) ≡ u → same_tag t u ≡ true → t ≡ u
eq_of_same_tag t u ht hu h = sym ht ∙ ap of_code ((==_iff (code t) (code u)).0 h) ∙ hu

module _ (m : Memory) (arr : Bool) (e : Entry) (held : Held m arr e) where
  pub sized_value : has_length e.type ≡ true → sized_bytes m (value_at arr e + 1) ≡ e.val
  sized_value h = rw (held.value.length_word h) (
      read_bytes-text m (value_at arr e + 1 + 4) e.val (
        subst
          (λ (c : Bool). TextAt m (if c then value_at arr e + 1 + 4 else value_at arr e + 1) e.val)
          h held.value.text))

  pub fixed_value :
      has_length e.type ≡ false → read_bytes m (value_at arr e + 1) (fixed_len e.type) ≡ e.val
  fixed_value h = rw (← held.sized h) (
      read_bytes-text m (value_at arr e + 1) e.val (
        subst
          (λ (c : Bool). TextAt m (if c then value_at arr e + 1 + 4 else value_at arr e + 1) e.val)
          h held.value.text))

-- The key of a member, as `set_impl` and `get_impl` are given it.
abbrev pub member : List ℕ → Key
member text = record { hash = djb2_hash text; text = text }

-- What a getter of strings, byte strings and words returns for an entry.
abbrev pub read_entry : String → String → Tag → Option Entry → Outcome (List ℕ)
read_entry missing mismatch t none = throws missing
read_entry missing mismatch t (some e) = if same_tag e.type t then ok e.val else throws mismatch

-- A byte string, or nothing where there is none.
abbrev pub bytes_of : Option Entry → List ℕ
bytes_of none = []
bytes_of (some e) = if same_tag e.type bytes then e.val else []

abbrev pub type_of : Option Entry → Outcome Tag
type_of none = undefined
type_of (some e) = ok e.type

-- The byte that a `bool` is read from.
abbrev pub first_byte : List ℕ → ℕ
first_byte [] = 0
first_byte (c ∷ s) = c

module _ (b : Buffer) (a : ℕ) (es : List Entry) (shows : Shows b false a es) (text : List ℕ) where
  find_key-lookup : find_key b a text ≡ ok (found false (lookup (member text) es))
  unfolding find_key
  find_key-lookup = shows.answers (member text) (λ e. cc)

  entry-Held : (e : Entry) → lookup (member text) es ≡ some e → Held b.m_data false e
  entry-Held e h = shows.lies (member text) e (λ x. cc) h

  -- At an object whose searches answer from a list of entries that lie in memory (`Shows`),
  -- `get_str` throws `Key not found` if no entry has the key, throws `Type mismatch` if the entry's
  -- type is not that of a string, and else returns the entry's bytes.
  pub get_str-lookup :
      get_str b a text ≡ read_entry "Key not found" "Type mismatch" string (lookup (member text) es)
  unfolding get_str
  get_str-lookup = elim (Option-cases (lookup (member text) es)) [
    | inl out ↦ rw (find_key-lookup, out)
    | inr (e, h) ↦
        rw (find_key-lookup, h)
          (elim (Bool-cases (same_tag e.type string)) [
            | inl is ↦
                let held = entry-Held e h in
                let t : e.type ≡ string =
                  eq_of_same_tag e.type string held.known of_code-string is in
                rw is (ap ok (sized_value b.m_data false e held (ap has_length t)))
            | inr other ↦ rw other
          ])
  ]

  word_read :
      (t : Tag)
      → of_code (code t) ≡ t
      → has_length t ≡ false
      → fixed_len t ≡ 8
      → (do p ← get_fixed b a text t; ok (read_bytes b.m_data p 8))
        ≡ read_entry "Type mismatch or not found" "Type mismatch or not found" t
            (lookup (member text) es)
  unfolding get_fixed
  word_read t known plain eight = elim (Option-cases (lookup (member text) es)) [
    | inl out ↦ rw (find_key-lookup, out)
    | inr (e, h) ↦
        rw (find_key-lookup, h)
          (elim (Bool-cases (same_tag e.type t)) [
            | inl is ↦
                let held = entry-Held e h in
                let same : e.type ≡ t = eq_of_same_tag e.type t held.known known is in
                rw is (
                  ap ok (
                    ap (read_bytes b.m_data (value_at false e + 1))
                      (sym (ap fixed_len same ∙ eight))
                    ∙ fixed_value b.m_data false e held (ap has_length same ∙ plain)))
            | inr other ↦ rw other
          ])
  ]

  -- At an object whose searches answer from a list of entries that lie in memory (`Shows`),
  -- `get_i64` and `get_f64` throw `Type mismatch or not found` if no entry has the key or the entry
  -- has another type, and else return the entry's eight bytes.
  pub get_word-lookup :
      (get_i64 b a text
        ≡ read_entry "Type mismatch or not found" "Type mismatch or not found" int64
            (lookup (member text) es))
      × (get_f64 b a text
          ≡ read_entry "Type mismatch or not found" "Type mismatch or not found" float64
              (lookup (member text) es))
  unfolding get_i64 get_f64 of_code code
  get_word-lookup = (word_read int64 refl refl refl, word_read float64 refl refl refl)

  pub get_bool-lookup : get_bool b a text ≡ (do
    val ←
        read_entry "Type mismatch or not found" "Type mismatch or not found" bool
          (lookup (member text) es)
    ok (bool_of (first_byte val)))
  unfolding get_bool get_fixed of_code code read_bytes
  get_bool-lookup = elim (Option-cases (lookup (member text) es)) [
    | inl out ↦ rw (find_key-lookup, out)
    | inr (e, h) ↦
        rw (find_key-lookup, h)
          (elim (Bool-cases (same_tag e.type bool)) [
            | inl is ↦
                let held = entry-Held e h in
                let t : e.type ≡ bool = eq_of_same_tag e.type bool held.known refl is in
                let byte : b.m_data.byte (value_at false e + 1) ≡ first_byte e.val = ap first_byte (
                  ap (read_bytes b.m_data (value_at false e + 1)) {x = 1} (sym (ap fixed_len t))
                  ∙ fixed_value b.m_data false e held (ap has_length t)) in
                rw is (ap (λ c. ok (bool_of c)) byte)
            | inr other ↦ rw other
          ])
  ]

  -- What is not there, or is no byte string, reads as no bytes.
  pub get_bytes-lookup : get_bytes b a text ≡ ok (bytes_of (lookup (member text) es))
  unfolding get_bytes
  get_bytes-lookup = elim (Option-cases (lookup (member text) es)) [
    | inl out ↦
        rw (shows.answers (record { hash = 0; text = text }) (λ x. cc), find_key-lookup, out)
    | inr (e, h) ↦
        rw (shows.answers (record { hash = 0; text = text }) (λ x. cc), find_key-lookup, h)
          (elim (Bool-cases (same_tag e.type bytes)) [
            | inl is ↦
                let held = entry-Held e h in
                let t : e.type ≡ bytes = eq_of_same_tag e.type bytes held.known of_code-bytes is in
                rw is (ap ok (sized_value b.m_data false e held (ap has_length t)))
            | inr other ↦ rw other
          ])
  ]

  -- The address of an object or an array is that behind the entry's type byte.
  pub get_node-lookup :
      (get_obj b a text
        ≡ expect "Type mismatch" "Type mismatch" object (found false (lookup (member text) es)))
      × (get_arr b a text
          ≡ expect "Type mismatch" "Type mismatch" array (found false (lookup (member text) es)))
  unfolding get_obj get_arr
  get_node-lookup = (rw find_key-lookup refl, rw find_key-lookup refl)

  pub get_type-lookup : get_type b a text ≡ type_of (lookup (member text) es)
  unfolding get_type
  get_type-lookup = elim (Option-cases (lookup (member text) es)) [
    | inl out ↦ rw (find_key-lookup, out)
    | inr (e, h) ↦ rw (find_key-lookup, h)
  ]
