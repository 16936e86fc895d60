-- ===== src/Tests/Handles.antt =====
-- The theorems on handles, at a handle of a member of a new object.
use lite3_cpp.Base.{true, ◌≡◌, refl, false, [], ◌∷◌, arith}
use lite3_cpp.Outcome.{ok, ◌>>=◌}
use lite3_cpp.Buffer.State.{new}
use lite3_cpp.Buffer.Shows.{LeafIn-Shows}
use lite3_cpp.Buffer.Search.Table.{lookup}
use lite3_cpp.Node.{code}
use lite3_cpp.Hash.{djb2_hash}
use lite3_cpp.Buffer.Compare.Order.{compare_keys, compare_lists}
use lite3_cpp.Value.Casts.{casts-lookup, contains-lookup}
use lite3_cpp.Tests.Objects.{a_text, a_entry, one, one_leaf}
use lite3_cpp.Value.{
  zero_word, to_bool, to_i64, to_f64, to_bytes, contains, Value, assign_str, to_str,
}
use lite3_cpp.Value.Members.{to_str-assign_str_any}
use lite3_cpp.Tests.Filled.{made, made_used, map₀}

abbrev a_member : Value
a_member = record {
  m_offset = 0;
  m_parent_ofs = new.m_used_size;
  m_key = b'a' ∷ [];
  m_index = 0;
  m_is_array_element = false;
}

to_str-assign_str_any_example :
    (do b ← assign_str a_member made (7 ∷ []); to_str a_member b) ≡ ok (7 ∷ [])
to_str-assign_str_any_example =
    to_str-assign_str_any a_member made [] 1 map₀ refl refl (omega arith) tt (omega arith) (7 ∷ [])
      (omega (arith, made_used))

-- A handle of the member of an object that has one, a string.
abbrev the_member : Value
the_member = record a_member { m_parent_ofs = 0; m_key = a_text }

casts-lookup_example :
    (to_bool the_member one ≡ ok false)
    × (to_i64 the_member one ≡ ok zero_word)
    × (to_f64 the_member one ≡ ok zero_word)
    × (to_str the_member one ≡ ok (7 ∷ []))
    × (to_bytes the_member one ≡ ok [])
unfolding lookup code compare_keys djb2_hash compare_lists
casts-lookup_example =
    casts-lookup the_member one (a_entry ∷ []) refl refl
      (LeafIn-Shows one false 0 (a_entry ∷ []) one_leaf)

contains-lookup_example : contains the_member one a_text ≡ ok true
unfolding lookup compare_keys djb2_hash compare_lists
contains-lookup_example =
    contains-lookup the_member one (a_entry ∷ []) (LeafIn-Shows one false 0 (a_entry ∷ []) one_leaf)
      a_text
