-- ===== src/Buffer/Object/Sized.antt =====
-- A new member of an object of fewer than 4^8 - 1 members: the setters, then the getters.
use lite3_cpp.Base.{
  ℕ, ◌+◌, ◌*◌, ◌^◌, ◌<◌, ◌≤◌, ◌≡◌, ◌≢◌, refl, sym, ◌∙◌, false, List, some, length, arith,
}
use lite3_cpp.Node.{Tag, string, code, of_code}
use lite3_cpp.Node.Head.{SameHead}
use lite3_cpp.Outcome.{ok}
use lite3_cpp.Hash.{djb2_hash}
use lite3_cpp.Buffer.State.{Buffer}
use lite3_cpp.Buffer.Entry.{has_length, fixed_len, value_len}
use lite3_cpp.Buffer.Compare.Order.{compare_keys_refl}
use lite3_cpp.Buffer.Search.Table.{Entry, lookup, lookup-insert_at}
use lite3_cpp.Buffer.Insert.Leaf.{IsNew}
use lite3_cpp.Buffer.Tree.PutIn.{put_in, HashFree, lookup-HashFree}
use lite3_cpp.Buffer.Set.Puts.{placed}
use lite3_cpp.Buffer.Shows.{Shows}
use lite3_cpp.Buffer.Map.{IsMap, IsMap-Shows, set_impl-IsMap}
use lite3_cpp.Buffer.Object.{
  set_value, set_str, get_i64, get_f64, get_str, get_bool, get_bytes, get_obj, get_arr, get_type,
}
use lite3_cpp.Buffer.Object.Leaf.{
  djb2_hash-lt, member, get_str-lookup, get_word-lookup, get_bool-lookup, get_bytes-lookup,
  get_node-lookup, get_type-lookup,
}
use lite3_cpp.Buffer.Object.Put.{is_eq-compare_keys}

-- Every getter answers under the key as it did.
abbrev pub SameReads : Buffer → Buffer → ℕ → List ℕ → Type 0
SameReads b b' a key =
    (get_i64 b' a key ≡ get_i64 b a key)
    × (get_f64 b' a key ≡ get_f64 b a key)
    × (get_str b' a key ≡ get_str b a key)
    × (get_bool b' a key ≡ get_bool b a key)
    × (get_bytes b' a key ≡ get_bytes b a key)
    × (get_obj b' a key ≡ get_obj b a key)
    × (get_arr b' a key ≡ get_arr b a key)
    × (get_type b' a key ≡ get_type b a key)

SameReads-Shows :
    (b b' : Buffer) (a : ℕ) (es es' : List Entry) (key : List ℕ)
    → Shows b false a es
    → Shows b' false a es'
    → lookup (member key) es' ≡ lookup (member key) es
    → SameReads b b' a key
SameReads-Shows b b' a es es' key before after same = (
  (get_word-lookup b' a es' after key).0 ∙ rw (same, (get_word-lookup b a es before key).0) refl,
  (get_word-lookup b' a es' after key).1 ∙ rw (same, (get_word-lookup b a es before key).1) refl,
  get_str-lookup b' a es' after key ∙ rw (same, get_str-lookup b a es before key) refl,
  get_bool-lookup b' a es' after key ∙ rw (same, get_bool-lookup b a es before key) refl,
  get_bytes-lookup b' a es' after key ∙ rw (same, get_bytes-lookup b a es before key) refl,
  (get_node-lookup b' a es' after key).0 ∙ rw (same, (get_node-lookup b a es before key).0) refl,
  (get_node-lookup b' a es' after key).1 ∙ rw (same, (get_node-lookup b a es before key).1) refl,
  get_type-lookup b' a es' after key ∙ rw (same, get_type-lookup b a es before key) refl,
)

-- The entry of a member, wherever it comes to lie.
abbrev pub member_entry : List ℕ → List ℕ → Tag → Entry
member_entry text val t = record { key = member text; address = 0; type = t; val = val }

-- An object of any size, a key whose hash no member has, and room behind the used bytes.
module _ (b : Buffer) (a : ℕ) (es : List Entry) (h : ℕ) (map : IsMap b false a es h) (text : List ℕ)
    (small : length text < 63) (free : HashFree (djb2_hash text) es) where
  -- What a setter of type `t` makes of the object.
  pub record SetsMember (val : List ℕ) (t : Tag) : Type 0 where
    pub buffer : Buffer
    pub at : ℕ
    pub returned : set_value b a text val t ≡ ok buffer
    pub map' : IsMap buffer false a (put_in (placed (member_entry text val t) at) es) (h + 1)
    pub head : SameHead b.m_data buffer.m_data a
    pub spent :
        buffer.m_used_size
        ≤ b.m_used_size + 99 * (h + 2) + (length text + 2 + value_len t (length val))

  pub set_value-SetsMember :
      (val : List ℕ) (t : Tag)
      → length es + 1 < 4 ^ 8
      → of_code (code t) ≡ t
      → code t < 256
      → (has_length t ≡ false → length val ≡ fixed_len t)
      → length val < 2 ^ 32
      → b.m_used_size + 99 * (h + 2) + (length text + 2 + value_len t (length val)) + 3 < 2 ^ 32
      → SetsMember val t
  unfolding set_value
  set_value-SetsMember val t few known type_fits sized val_fits space =
      let e = member_entry text val t in
      let new : IsNew false e = record {
        hash_fits = djb2_hash-lt text;
        small = small;
        array = λ x. cc;
        known = known;
        sized = sized;
        type_fits = type_fits;
        val_fits = val_fits;
      } in
      let (b', at, returned, map', spent, head) =
        set_impl-IsMap b false a es h map e new free few space in
      record {
        buffer = b';
        at = at;
        returned = rw returned refl;
        map' = map';
        head = head;
        spent = omega (arith, spent);
      }

  pub lookup-set :
      (val : List ℕ) (t : Tag) (at : ℕ)
      → lookup (member text) (put_in (placed (member_entry text val t) at) es)
        ≡ some (placed (member_entry text val t) at)
  lookup-set val t at =
      lookup-insert_at (member text) (placed (member_entry text val t) at) es
        (lookup-HashFree (member text) es free)
      ∙ rw (compare_keys_refl (member text)) refl

  pub lookup-set_other :
      (val : List ℕ) (t : Tag) (at : ℕ) (other : List ℕ)
      → other ≢ text
      → lookup (member other) (put_in (placed (member_entry text val t) at) es)
        ≡ lookup (member other) es
  lookup-set_other val t at other differs =
      lookup-insert_at (member other) (placed (member_entry text val t) at) es
        (lookup-HashFree (member text) es free)
      ∙ rw (is_eq-compare_keys (member text) (member other) (λ p. differs (sym p))) refl

  pub member-Shows :
      (val : List ℕ) (t : Tag) (s : SetsMember val t)
      → Shows s.buffer false a (put_in (placed (member_entry text val t) s.at) es)
  member-Shows val t s =
      IsMap-Shows s.buffer false a (put_in (placed (member_entry text val t) s.at) es) (h + 1)
        s.map'

  pub others-SameReads :
      (val : List ℕ) (t : Tag) (s : SetsMember val t) (other : List ℕ)
      → other ≢ text
      → SameReads b s.buffer a other
  others-SameReads val t s other differs =
      SameReads-Shows b s.buffer a es (put_in (placed (member_entry text val t) s.at) es) other
        (IsMap-Shows b false a es h map) (member-Shows val t s)
        (lookup-set_other val t s.at other differs)

  -- A string more, and what is read after it.
  pub set_str-member :
      (val : List ℕ)
      → length es + 1 < 4 ^ 8
      → length val < 2 ^ 32
      → b.m_used_size + 99 * (h + 2) + (length text + 2 + value_len string (length val)) + 3
        < 2 ^ 32
      → (b' : Buffer) × (at : ℕ) × (set_str b a text val ≡ ok b')
        × IsMap b' false a (put_in (placed (member_entry text val string) at) es) (h + 1)
        × (b'.m_used_size
            ≤ b.m_used_size + 99 * (h + 2) + (length text + 2 + value_len string (length val)))
        × (get_str b' a text ≡ ok val)
        × ((other : List ℕ) → other ≢ text → SameReads b b' a other)
  unfolding set_str code of_code
  set_str-member val few fits space =
      let s = set_value-SetsMember val string few refl (omega arith) (λ x. cc) fits space in
      (
        s.buffer,
        s.at,
        s.returned,
        s.map',
        s.spent,
        get_str-lookup s.buffer a _ (member-Shows val string s) text
            ∙ rw (lookup-set val string s.at) refl,
        others-SameReads val string s,
      )
