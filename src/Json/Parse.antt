-- ===== src/Json/Parse.antt =====
-- `from_json_string` (src/json.cpp, lines 91 to 227). `fuel` bounds the depth of the document.
use lite3_cpp.Base.{ℕ, zero, suc, List, [], ◌∷◌, none, some, ◌==◌, ◌&&◌, if◌then◌else◌}
use lite3_cpp.Outcome.{Outcome, ok, throws, out_of_fuel, ◌>>=◌, catch}
use lite3_cpp.Hex.{hex_decode}
use lite3_cpp.Buffer.State.{Buffer, new, init_object, init_array}
use lite3_cpp.Buffer.Object.{
  set_null, set_bool, set_i64, set_f64, set_str, set_bytes, set_obj, set_arr,
}
use lite3_cpp.Buffer.Array.{
  arr_append_null, arr_append_bool, arr_append_i64, arr_append_f64, arr_append_str,
  arr_append_bytes, arr_append_obj, arr_append_arr,
}
use lite3_cpp.Json.{
  type_null, type_bool, type_num, type_str, type_arr, type_obj, type_other, Yyjson,
}

module _ (y : Yyjson) where
  -- Lines 123 to 133: a text of hexadecimal digits becomes bytes.
  unfoldable pub set_text : Buffer → ℕ → List ℕ → List ℕ → Outcome Buffer
  set_text b ofs key text =
      catch (do decoded_bytes ← hex_decode text; set_bytes b ofs key decoded_bytes)
        (set_str b ofs key text)

  -- Lines 185 to 195
  unfoldable pub append_text : Buffer → ℕ → List ℕ → Outcome Buffer
  append_text b ofs text =
      catch (do decoded_bytes ← hex_decode text; arr_append_bytes b ofs decoded_bytes)
        (arr_append_str b ofs text)

  -- Lines 163 to 165 and 213 to 215: the root's node, if the buffer has none.
  unfoldable pub with_root : Buffer → ℕ → Buffer → Buffer
  with_root b ofs made = if ofs == 0 && b.m_data.size == 0 then made else b

  -- Members and items in their order, with the buffer passed on.
  unfoldable pub each :
      {A : Type 0} → (Buffer → A → Outcome Buffer) → List A → Buffer → Outcome Buffer
  each f [] b = ok b
  each f (x ∷ xs) b = do b' ← f b x; each f xs b'

  -- A value whose parts `inside` stores: lines 106 to 145, the member of an object.
  unfoldable pub set_member :
      (Buffer → ℕ → y.Val → Outcome Buffer) → Buffer → ℕ → List ℕ → y.Val → Outcome Buffer
  set_member inside b ofs key val = elim (y.get_type val) [
    | type_null ↦ set_null b ofs key
    | type_bool ↦ set_bool b ofs key (y.get_bool val)
    | type_num ↦
        if y.is_int val
        then set_i64 b ofs key (y.get_int val)
        else set_f64 b ofs key (y.get_real val)
    | type_str ↦ set_text b ofs key (y.get_str val)
    | type_arr ↦ do (new_ofs, b') ← set_arr b ofs key; inside b' new_ofs val
    | type_obj ↦ do (new_ofs, b') ← set_obj b ofs key; inside b' new_ofs val
    | type_other ↦ ok b
  ]

  -- Lines 170 to 208: an item of an array.
  unfoldable pub append_item :
      (Buffer → ℕ → y.Val → Outcome Buffer) → Buffer → ℕ → y.Val → Outcome Buffer
  append_item inside b ofs item = elim (y.get_type item) [
    | type_null ↦ arr_append_null b ofs
    | type_bool ↦ arr_append_bool b ofs (y.get_bool item)
    | type_num ↦
        if y.is_int item
        then arr_append_i64 b ofs (y.get_int item)
        else arr_append_f64 b ofs (y.get_real item)
    | type_str ↦ append_text b ofs (y.get_str item)
    | type_obj ↦ do (new_ofs, b') ← arr_append_obj b ofs; inside b' new_ofs item
    | type_arr ↦ do (new_ofs, b') ← arr_append_arr b ofs; inside b' new_ofs item
    | type_other ↦ ok b
  ]

  -- Lines 147 to 227: the parts of an array or an object; nothing is stored of another value.
  unfoldable pub from_yyjson_val : ℕ → Buffer → ℕ → y.Val → Outcome Buffer
  from_yyjson_val zero b ofs val = out_of_fuel
  from_yyjson_val (suc fuel) b ofs val =
      let inside = from_yyjson_val fuel in
      elim (y.get_type val) [
        | type_arr ↦
            each (λ b' item. append_item inside b' ofs item) (y.arr_items val)
              (with_root b ofs (init_array b))
        | type_obj ↦
            each (λ b' (key, item). set_member inside b' ofs (y.get_str key) item)
              (y.obj_members val) (with_root b ofs (init_object b))
        | type_null ↦ ok b
        | type_bool ↦ ok b
        | type_num ↦ ok b
        | type_str ↦ ok b
        | type_other ↦ ok b
      ]

  unfoldable pub from_json_string : ℕ → List ℕ → Outcome Buffer
  from_json_string fuel json_str = elim (y.read json_str) [
    | none ↦ throws "Invalid JSON string provided."
    | some root ↦ from_yyjson_val fuel new 0 root
  ]
