-- ===== src/Buffer/Object/Types.antt =====
-- A new member of each type in an object of fewer than 4^8 - 1 members, and what is read after it.
use lite3_cpp.Base.{
  ℕ, ◌+◌, ◌*◌, ◌^◌, ◌<◌, ◌≡◌, ◌≢◌, refl, ◌∙◌, Bool, true, false, List, ◌∷◌, [], length, arith,
}
use lite3_cpp.Node.{Tag, bool, int64, float64, bytes, string, code, of_code}
use lite3_cpp.Outcome.{ok}
use lite3_cpp.Hash.{djb2_hash}
use lite3_cpp.Buffer.State.{Buffer}
use lite3_cpp.Buffer.Entry.{value_len}
use lite3_cpp.Buffer.Search.Table.{Entry}
use lite3_cpp.Buffer.Tree.PutIn.{put_in, HashFree}
use lite3_cpp.Buffer.Set.Puts.{placed}
use lite3_cpp.Buffer.Map.{IsMap}
use lite3_cpp.Buffer.Object.{
  bool_byte, bool_of, set_i64, set_f64, set_str, set_bool, set_bytes, get_i64, get_f64, get_str,
  get_bool, get_bytes,
}
use lite3_cpp.Buffer.Object.Leaf.{
  get_str-lookup, get_word-lookup, get_bool-lookup, get_bytes-lookup,
}
use lite3_cpp.Buffer.Object.Sized.{
  SameReads, SetsMember, set_value-SetsMember, lookup-set, member-Shows, member_entry,
  others-SameReads,
}

bool_of-bool_byte : (v : Bool) → bool_of (bool_byte v) ≡ v
bool_of-bool_byte true = refl
bool_of-bool_byte false = refl

module _ (b : Buffer) (a : ℕ) (es : List Entry) (h : ℕ) (map : IsMap b false a es h) (text : List ℕ)
    (small : length text < 63) (free : HashFree (djb2_hash text) es) (few : length es + 1 < 4 ^ 8)
    (val : List ℕ)
    (space : b.m_used_size + 99 * (h + 2) + length text + length val + 14 < 2 ^ 32) where
  abbrev member_list : (t : Tag) → SetsMember b a es h map text small free val t → List Entry
  member_list t s = put_in (placed (member_entry text val t) s.at) es

  -- At an object of fewer than 4^8 - 1 members (`IsMap`), for a key of fewer than 63 characters
  -- whose hash no member has, eight bytes and a buffer with room for the entry and 99 bytes for
  -- every level of the tree and two more below 2^32: `set_i64` and `set_f64` return, `get_i64` and
  -- `get_f64` under the key then return the eight bytes, and under every other key all getters
  -- (`SameReads`) answer as before.
  pub set-get_words :
      length val ≡ 8
      → ((b' : Buffer) × (set_i64 b a text val ≡ ok b')
          × (get_i64 b' a text ≡ ok val)
          × ((other : List ℕ) → other ≢ text → SameReads b b' a other))
        × ((b' : Buffer) × (set_f64 b a text val ≡ ok b')
            × (get_f64 b' a text ≡ ok val)
            × ((other : List ℕ) → other ≢ text → SameReads b b' a other))
  unfolding set_i64 set_f64 code of_code value_len
  set-get_words eight =
      let s =
        set_value-SetsMember b a es h map text small free val int64 few refl (omega arith)
          (λ x. eight) (omega arith) (omega arith) in
      let s' =
        set_value-SetsMember b a es h map text small free val float64 few refl (omega arith)
          (λ x. eight) (omega arith) (omega arith) in
      (
        (
          s.buffer,
          s.returned,
          (get_word-lookup s.buffer a (member_list int64 s)
                (member-Shows b a es h map text small free val int64 s) text).0
              ∙ rw (lookup-set b a es h map text small free val int64 s.at) refl,
          others-SameReads b a es h map text small free val int64 s,
        ),
        (
          s'.buffer,
          s'.returned,
          (get_word-lookup s'.buffer a (member_list float64 s')
                (member-Shows b a es h map text small free val float64 s') text).1
              ∙ rw (lookup-set b a es h map text small free val float64 s'.at) refl,
          others-SameReads b a es h map text small free val float64 s',
        ),
      )

  -- At an object of fewer than 4^8 - 1 members (`IsMap`), for a key of fewer than 63 characters
  -- whose hash no member has and a buffer with room for the entry and 99 bytes for every level of
  -- the tree and two more below 2^32: `set_str` and `set_bytes` return, `get_str` and `get_bytes`
  -- under the key then return the string and the bytes, and under every other key all getters
  -- (`SameReads`) answer as before.
  pub set-get_texts :
      ((b' : Buffer) × (set_str b a text val ≡ ok b')
        × (get_str b' a text ≡ ok val)
        × ((other : List ℕ) → other ≢ text → SameReads b b' a other))
      × ((b' : Buffer) × (set_bytes b a text val ≡ ok b')
          × (get_bytes b' a text ≡ ok val)
          × ((other : List ℕ) → other ≢ text → SameReads b b' a other))
  unfolding set_str set_bytes code of_code value_len
  set-get_texts =
      let s =
        set_value-SetsMember b a es h map text small free val string few refl (omega arith)
          (λ x. cc) (omega arith) (omega arith) in
      let s' =
        set_value-SetsMember b a es h map text small free val bytes few refl (omega arith) (λ x. cc)
          (omega arith) (omega arith) in
      (
        (
          s.buffer,
          s.returned,
          get_str-lookup s.buffer a (member_list string s)
                (member-Shows b a es h map text small free val string s) text
              ∙ rw (lookup-set b a es h map text small free val string s.at) refl,
          others-SameReads b a es h map text small free val string s,
        ),
        (
          s'.buffer,
          s'.returned,
          get_bytes-lookup s'.buffer a (member_list bytes s')
                (member-Shows b a es h map text small free val bytes s') text
              ∙ rw (lookup-set b a es h map text small free val bytes s'.at) refl,
          others-SameReads b a es h map text small free val bytes s',
        ),
      )

module _ (b : Buffer) (a : ℕ) (es : List Entry) (h : ℕ) (map : IsMap b false a es h) (text : List ℕ)
    (small : length text < 63) (free : HashFree (djb2_hash text) es) (few : length es + 1 < 4 ^ 8)
    (flag : Bool) (space : b.m_used_size + 99 * (h + 2) + length text + 14 < 2 ^ 32) where
  flag_len : length (bool_byte flag ∷ []) ≡ 1
  flag_len = refl

  -- At an object of fewer than 4^8 - 1 members (`IsMap`), for a key of fewer than 63 characters
  -- whose hash no member has and a buffer with room for the entry and 99 bytes for every level of
  -- the tree and two more below 2^32: `set_bool` returns, `get_bool` under the key then returns the
  -- value, and under every other key all getters (`SameReads`) answer as before.
  pub set-get_bool :
      (b' : Buffer) × (set_bool b a text flag ≡ ok b')
      × (get_bool b' a text ≡ ok flag)
      × ((other : List ℕ) → other ≢ text → SameReads b b' a other)
  unfolding set_bool code of_code value_len
  set-get_bool =
      let val = bool_byte flag ∷ [] in
      let s =
        set_value-SetsMember b a es h map text small free val bool few refl (omega arith)
          (λ x. refl) (omega arith) (omega arith) in
      (
        s.buffer,
        s.returned,
        get_bool-lookup s.buffer a (put_in (placed (member_entry text val bool) s.at) es)
              (member-Shows b a es h map text small free val bool s) text
            ∙ rw (lookup-set b a es h map text small free val bool s.at, bool_of-bool_byte) refl,
        others-SameReads b a es h map text small free val bool s,
      )
