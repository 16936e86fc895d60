-- ===== src/Value/Casts.antt =====
-- The casts, the type and `contains` at an object whose members are known.
use Prim.Native.String.{String}
use lite3_cpp.Base.{
  ℕ, ◌≡◌, refl, if◌then◌else◌, true, false, List, [], Option, none, some, Option-cases, Bool-cases,
  inl, inr,
}
use lite3_cpp.Node.{Tag, bool, int64, float64, string}
use lite3_cpp.Outcome.{ok, undefined, ◌>>=◌, catch}
use lite3_cpp.Buffer.State.{Buffer}
use lite3_cpp.Buffer.Search.Table.{Entry, lookup}
use lite3_cpp.Buffer.Shows.{Shows}
use lite3_cpp.Buffer.Object.{same_tag, bool_of}
use lite3_cpp.Buffer.Object.Leaf.{
  member, read_entry, bytes_of, first_byte, get_str-lookup, get_word-lookup, get_bool-lookup,
  get_bytes-lookup, get_type-lookup,
}
use lite3_cpp.Value.{
  Value, is_empty, zero_word, to_bool, to_i64, to_f64, to_str, to_bytes, contains,
}

-- The data of an entry of the type that is asked for, and a default for another type or no entry.
abbrev pub data_or : List ℕ → Tag → Option Entry → List ℕ
data_or default t none = default
data_or default t (some e) = if same_tag e.type t then e.val else default

read_entry-catch :
    (missing mismatch : String) (t : Tag) (r : Option Entry) (default : List ℕ)
    → catch (read_entry missing mismatch t r) (ok default) ≡ ok (data_or default t r)
read_entry-catch missing mismatch t none default = refl
read_entry-catch missing mismatch t (some e) default = elim (Bool-cases (same_tag e.type t)) [
  | inl is ↦ rw is refl
  | inr other ↦ rw other refl
]

read_bool-catch :
    (missing mismatch : String) (r : Option Entry)
    → catch (do val ← read_entry missing mismatch bool r; ok (bool_of (first_byte val))) (ok false)
      ≡ ok (bool_of (first_byte (data_or [] bool r)))
read_bool-catch missing mismatch none = refl
read_bool-catch missing mismatch (some e) = elim (Bool-cases (same_tag e.type bool)) [
  | inl is ↦ rw is refl
  | inr other ↦ rw other refl
]

module _ (v : Value) (b : Buffer) (es : List Entry) (keyed : is_empty v.m_key ≡ false)
    (no_element : v.m_is_array_element ≡ false) (shows : Shows b false v.m_parent_ofs es) where
  abbrev there : Option Entry
  there = lookup (member v.m_key) es

  -- At a handle of a member that is no array element, its key not empty, whose parent is an object
  -- whose searches answer from a list of entries that lie in memory (`Shows`): each of the five
  -- casts returns the data of the entry with the key if that has the type of the cast, and else
  -- false, the eight bytes of zero, no text or no bytes.
  pub casts-lookup :
      (to_bool v b ≡ ok (bool_of (first_byte (data_or [] bool there))))
      × (to_i64 v b ≡ ok (data_or zero_word int64 there))
      × (to_f64 v b ≡ ok (data_or zero_word float64 there))
      × (to_str v b ≡ ok (data_or [] string there))
      × (to_bytes v b ≡ ok (bytes_of there))
  unfolding to_bool to_i64 to_f64 to_str to_bytes
  casts-lookup =
      let words = get_word-lookup b v.m_parent_ofs es shows v.m_key in
      (
        rw (no_element, keyed, get_bool-lookup b v.m_parent_ofs es shows v.m_key)
            (read_bool-catch _ _ there),
        rw (no_element, keyed, words.0) (read_entry-catch _ _ int64 there zero_word),
        rw (no_element, keyed, words.1) (read_entry-catch _ _ float64 there zero_word),
        rw (no_element, keyed, get_str-lookup b v.m_parent_ofs es shows v.m_key)
            (read_entry-catch _ _ string there []),
        rw (no_element, keyed, get_bytes-lookup b v.m_parent_ofs es shows v.m_key) refl,
      )

module _ (v : Value) (b : Buffer) (es : List Entry) (shows : Shows b false v.m_offset es)
    (key : List ℕ) where
  -- At an object whose searches answer from a list of entries that lie in memory (`Shows`),
  -- `contains` answers true if an entry has the key, and is undefined if none has, since it then
  -- copies a type that was never set: it answers false under no key.
  pub contains-lookup :
      contains v b key ≡ (elim (lookup (member key) es) [ none ↦ undefined | some e ↦ ok true ])
  unfolding contains
  contains-lookup = elim (Option-cases (lookup (member key) es)) [
    | inl out ↦ rw (get_type-lookup b v.m_offset es shows key, out)
    | inr (e, h) ↦ rw (get_type-lookup b v.m_offset es shows key, h) refl
  ]
