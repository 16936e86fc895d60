-- ===== src/Tests/Objects.antt =====
-- The theorems on objects, at a new object and at an object with one member.
use lite3_cpp.Base.{◌+◌, ℕ, ◌^◌, ◌<◌, ◌≡◌, refl, true, false, List, [], ◌∷◌, none, some, arith}
use lite3_cpp.Hash.{djb2_hash, djb2_from}
use lite3_cpp.Outcome.{ok, throws, ◌>>=◌}
use lite3_cpp.Node.{string, object, code, of_code, generation, tag, size}
use lite3_cpp.Buffer.State.{Buffer, new, init_structure, init_object}
use lite3_cpp.Buffer.Object.Many.{
  Members, Distinct, Short, total_len, put_all, value_of, get_str-put_all,
}
use lite3_cpp.Node.{node_size}
use lite3_cpp.Buffer.Compare.Order.{Key, compare_keys, compare_lists}
use lite3_cpp.Buffer.Search.{get_impl}
use lite3_cpp.Buffer.Search.Table.{Entry, lookup, insert_at, position}
use lite3_cpp.Buffer.Compare.{compare_node_key}
use lite3_cpp.Buffer.Entry.{value_len}
use lite3_cpp.Buffer.Search.Held.{compare_node_key-compare_keys}
use Prim.Native.Nat.{Ordering}
use lite3_cpp.Buffer.Search.Leaf.{get_impl-Leaf}
use lite3_cpp.Buffer.Insert.Leaf.{LeafIn, IsNew}
use lite3_cpp.Buffer.Set.{set_impl}
use lite3_cpp.Buffer.Set.Leaf.{with_key, set_impl-new}
use lite3_cpp.Buffer.Object.{get_str, get_i64, get_f64}
use lite3_cpp.Buffer.Shows.{LeafIn-Shows}
use lite3_cpp.Buffer.Object.Leaf.{member, djb2_hash-lt, get_str-lookup, get_word-lookup}
use lite3_cpp.Buffer.Object.New.{init_structure-LeafIn}

abbrev pub empty : Buffer
empty = init_structure new object

init_structure-LeafIn_example :
    LeafIn empty true 0 []
    × (generation empty.m_data 0 ≡ 1)
    × (tag empty.m_data 0 ≡ object)
    × (size empty.m_data 0 ≡ 0)
    × (empty.m_used_size ≡ 96)
unfolding new code of_code init_structure
init_structure-LeafIn_example = init_structure-LeafIn new object true

pub empty_leaf : LeafIn empty false 0 []
unfolding new
empty_leaf = (init_structure-LeafIn new object false).0

abbrev pub a_text : List ℕ
a_text = b'a' ∷ []

abbrev b_text : List ℕ
b_text = b'b' ∷ []

abbrev eight : List ℕ
eight = 1 ∷ 2 ∷ 3 ∷ 4 ∷ 5 ∷ 6 ∷ 7 ∷ 8 ∷ []

abbrev pub a_entry : Entry
a_entry = record { key = member a_text; address = 96; type = string; val = 7 ∷ [] }

pub a_entry-IsNew : IsNew false a_entry
unfolding code of_code
a_entry-IsNew = record {
  hash_fits = djb2_hash-lt a_text;
  small = omega arith;
  array = λ h. cc;
  known = refl;
  sized = λ h. cc;
  type_fits = omega arith;
  val_fits = omega arith;
}

pub nothing : (k : Key) → lookup k [] ≡ none
unfolding lookup
nothing k = refl

-- The entry lies behind the root.
pub at_end : a_entry.address ≡ empty.m_used_size
unfolding new init_structure
at_end = refl

abbrev pub one : Buffer
one =
    with_key empty false 0 [] a_entry empty_leaf (omega arith) a_entry-IsNew
      (nothing (member a_text)) at_end (omega arith)

set_impl-new_example :
    (set_impl empty 0 a_text (djb2_hash a_text) (7 ∷ []) string false ≡ ok (99, one))
    × LeafIn one false 0 (a_entry ∷ [])
unfolding insert_at position
set_impl-new_example =
    set_impl-new empty false 0 [] a_entry empty_leaf (omega arith) a_entry-IsNew
      (nothing (member a_text)) at_end (omega arith)

pub one_leaf : LeafIn one false 0 (a_entry ∷ [])
unfolding insert_at position
one_leaf =
    (set_impl-new empty false 0 [] a_entry empty_leaf (omega arith) a_entry-IsNew
      (nothing (member a_text)) at_end (omega arith)).1

get_impl-Leaf_example : get_impl one 0 a_text (djb2_hash a_text) false ≡ ok (some (100, string))
unfolding lookup compare_keys compare_lists djb2_hash djb2_from
get_impl-Leaf_example =
    get_impl-Leaf one false 0 (member a_text) (a_entry ∷ []) (λ h. cc) one_leaf.leaf

get_str-lookup_example : get_str one 0 a_text ≡ ok (7 ∷ [])
unfolding lookup compare_keys compare_lists djb2_hash djb2_from code
get_str-lookup_example =
    get_str-lookup one 0 (a_entry ∷ []) (LeafIn-Shows one false 0 (a_entry ∷ []) one_leaf) a_text

get_word-lookup_example :
    (get_i64 one 0 a_text ≡ throws "Type mismatch or not found")
    × (get_f64 one 0 a_text ≡ throws "Type mismatch or not found")
unfolding lookup compare_keys compare_lists djb2_hash djb2_from code
get_word-lookup_example =
    get_word-lookup one 0 (a_entry ∷ []) (LeafIn-Shows one false 0 (a_entry ∷ []) one_leaf) a_text

-- The other member is not there yet.
b_fresh : lookup (member b_text) (a_entry ∷ []) ≡ none
unfolding lookup compare_keys djb2_hash djb2_from
b_fresh = refl

one_small : one.m_used_size < 2 ^ 32
unfolding value_len
one_small = omega arith

compare_node_key-compare_keys_example :
    compare_node_key one.m_data 0 0 (djb2_hash b_text) b_text false ≡ Ordering.lt
unfolding compare_keys djb2_hash djb2_from
compare_node_key-compare_keys_example =
    let keys = one_leaf.leaf.keys in
    compare_node_key-compare_keys one.m_data false 0 0 a_entry (member b_text)
      (keys.hashes 0 (omega arith)) (keys.addresses 0 (omega arith)) (keys.held 0 (omega arith))
      (λ h. cc)

-- Three members for a new object.
abbrev three : Members
three = (a_text, 7 ∷ []) ∷ (b_text, 8 ∷ []) ∷ (b'c' ∷ [], 9 ∷ []) ∷ []

char_of : (c d : ℕ) → c ∷ [] ≡ d ∷ [] → c ≡ d
char_of c d e = cc

three-Distinct : Distinct three
three-Distinct = (
  (λ e. absurd (omega (arith, char_of _ _ e)), (λ e. absurd (omega (arith, char_of _ _ e)), tt)),
  ((λ e. absurd (omega (arith, char_of _ _ e)), tt), (tt, tt)),
)

three-Short : Short three
three-Short =
    ((omega arith, omega arith), ((omega arith, omega arith), ((omega arith, omega arith), tt)))

three_fit : new.m_used_size + node_size + total_len three < 2 ^ 32
unfolding new total_len value_len
three_fit = omega arith

get_str-put_all_example :
    (do b ← put_all (init_object new) 0 three; get_str b 0 b_text) ≡ ok (8 ∷ [])
unfolding new value_of compare_lists
get_str-put_all_example =
    get_str-put_all new three (omega arith) three-Distinct three-Short three_fit b_text
