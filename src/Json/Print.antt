-- ===== src/Json/Print.antt =====
-- `to_json_string` (src/json.cpp, lines 49 to 89 and 229 to 326). `fuel` bounds the depth of the
-- document and the number of members of each object.
use lite3_cpp.Base.{
  ℕ, zero, suc, ◌+◌, List, [], ◌∷◌, Option, none, some, ◌==◌, ◌&&◌, leb, if◌then◌else◌,
}
use lite3_cpp.Memory.{read_bytes}
use lite3_cpp.Node.{
  null, bool, int64, float64, bytes, string, object, array, invalid, count, other, of_code,
  node_size, tag, size,
}
use lite3_cpp.Outcome.{Outcome, ok, undefined, out_of_fuel, ◌>>=◌}
use lite3_cpp.Hex.{hex_encode}
use lite3_cpp.Buffer.State.{Buffer}
use lite3_cpp.Buffer.Object.{bool_of, sized_bytes}
use lite3_cpp.Buffer.Array.{
  arr_get_type, arr_get_bool, arr_get_i64, arr_get_f64, arr_get_str, arr_get_bytes, arr_get_obj,
  arr_get_arr,
}
use lite3_cpp.Iterator.{Item, begin, items}
use lite3_cpp.Json.{Yyjson}

-- The text that a pointer to a character stands for: up to the null. Behind a key stands one.
unfoldable pub until_null : List ℕ → List ℕ
until_null [] = []
until_null (c ∷ s) = let rest = until_null s in if c == 0 then [] else c ∷ rest

module _ (y : Yyjson) where
  -- Lines 267 to 270, and 62 to 65: a member for each item of the iterator.
  unfoldable pub add_members : (ℕ → Outcome y.MutVal) → List Item → y.MutVal → Outcome y.MutVal
  add_members print [] obj = ok obj
  add_members print (item ∷ rest) obj = do
    val ← print item.value_offset
    add_members print rest (y.obj_add obj (until_null item.key) val)

  -- Lines 278 to 319: item `i` of the array whose type byte is at `ofs`, and none for a type that is
  -- not listed. Of a byte string yyjson keeps a pointer to a `hex_str` that is gone when it is written.
  unfoldable pub print_item : (ℕ → Outcome y.MutVal) → Buffer → ℕ → ℕ → Outcome (Option y.MutVal)
  print_item print b ofs i = do
    value_type ← arr_get_type b (ofs + 1) i
    elim value_type [
      | null ↦ ok (some y.mut_null)
      | bool ↦ do v ← arr_get_bool b ofs i; ok (some (y.mut_bool v))
      | int64 ↦ do v ← arr_get_i64 b ofs i; ok (some (y.mut_int v))
      | float64 ↦ do v ← arr_get_f64 b ofs i; ok (some (y.mut_real v))
      | string ↦ do v ← arr_get_str b ofs i; ok (some (y.mut_str v))
      | bytes ↦ do v ← arr_get_bytes b ofs i; undefined
      | object ↦ do node_ofs ← arr_get_obj b ofs i; v ← print node_ofs; ok (some v)
      | array ↦ do node_ofs ← arr_get_arr b ofs i; v ← print node_ofs; ok (some v)
      | invalid ↦ ok none
      | count ↦ ok none
      | other n ↦ ok none
    ]

  -- The loop of line 277 from `i` on, with `left` items to go.
  unfoldable pub add_items :
      (ℕ → Outcome y.MutVal) → Buffer → ℕ → ℕ → ℕ → y.MutVal → Outcome y.MutVal
  add_items print b ofs i zero arr = ok arr
  add_items print b ofs i (suc left) arr = do
    item ← print_item print b ofs i
    add_items print b ofs (i + 1) left (elim item [ none ↦ arr | some v ↦ y.arr_add arr v ])

  -- Lines 231 to 325. A byte behind the end of the vector is not read.
  unfoldable pub to_yyjson_val : ℕ → Buffer → ℕ → Outcome y.MutVal
  to_yyjson_val zero b ofs = out_of_fuel
  to_yyjson_val (suc fuel) b ofs =
      let m = b.m_data in
      let print = to_yyjson_val fuel b in
      if leb m.size ofs then undefined else elim (of_code (m.byte ofs)) [
        | null ↦ ok y.mut_null
        | bool ↦ ok (y.mut_bool (bool_of (m.byte (ofs + 1))))
        | int64 ↦ ok (y.mut_int (read_bytes m (ofs + 1) 8))
        | float64 ↦ ok (y.mut_real (read_bytes m (ofs + 1) 8))
        | string ↦ ok (y.mut_str (sized_bytes m (ofs + 1)))
        | bytes ↦ ok (y.mut_str (hex_encode (sized_bytes m (ofs + 1))))
        | object ↦ do
          members ← items b fuel (begin b (ofs + 1))
          add_members print members y.mut_obj
        | array ↦ add_items print b ofs 0 (size m (ofs + 1)) y.mut_arr
        | invalid ↦ ok y.mut_null
        | count ↦ ok y.mut_null
        | other n ↦ ok y.mut_null
      ]

  -- The loop of lines 68 to 76: the type of each item of the root is read and not used.
  unfoldable pub visit_items : Buffer → ℕ → ℕ → y.MutVal → Outcome y.MutVal
  visit_items b i zero arr = ok arr
  visit_items b i (suc left) arr = do
    value_type ← arr_get_type b 0 i
    visit_items b (i + 1) left arr

  -- Lines 55 to 81: the root has no type byte, and of an array at the root nothing is printed.
  unfoldable pub print_root : ℕ → Buffer → ℕ → Outcome y.MutVal
  print_root fuel b ofs =
      if ofs == 0 && leb node_size b.m_data.size
      then elim (tag b.m_data 0) [
        | object ↦ do
          members ← items b fuel (begin b 0)
          add_members (to_yyjson_val fuel b) members y.mut_obj
        | array ↦ visit_items b 0 (size b.m_data 0) y.mut_arr
        | t ↦ ok y.mut_null
      ]
      else to_yyjson_val fuel b ofs

  -- `{}` if yyjson writes nothing
  unfoldable pub to_json_string : ℕ → Buffer → ℕ → Outcome (List ℕ)
  to_json_string fuel b ofs = do
    root ← print_root fuel b ofs
    ok (elim (y.write root) [ none ↦ b'{' ∷ b'}' ∷ [] | some json_str ↦ json_str ])
