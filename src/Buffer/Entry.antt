-- ===== src/Buffer/Entry.antt =====
-- The bytes of an entry, as both ends of `set_impl` compute and write them (src/buffer.cpp, lines 109
-- to 117, 256 to 262, 328 to 349 and 359 to 395), and the sizes of a value that is stored already
-- (lines 264 to 296).
pub mod RoundTrip
use lite3_cpp.Base.{
  ℕ, ◌+◌, ◌^◌, Bool, true, false, ◌||◌, List, ltb, if◌then◌else◌, length, u8, u32, ◌<<◌, ◌>>>◌,
}
use lite3_cpp.Memory.{Memory, store8, store32, store_bytes, load32}
use lite3_cpp.Node.{
  Tag, null, bool, int64, float64, bytes, string, object, array, invalid, count, other, code,
  of_code,
}

-- `type == Type::String || type == Type::Bytes`
abbrev pub has_length : Tag → Bool
has_length string = true
has_length bytes = true
has_length _ = false

abbrev pub is_string : Tag → Bool
is_string string = true
is_string _ = false

unfoldable pub key_tag_size : List ℕ → Bool → ℕ
key_tag_size key is_append =
    if is_append
    then 0
    else if ltb (length key) 64
    then 1
    else if ltb (length key) 16384
    then 2
    else 3

unfoldable pub key_len : List ℕ → Bool → ℕ
unfolding key_tag_size
key_len key is_append = if is_append then 0 else length key + key_tag_size key is_append + 1

-- `val_total_len`: type, length if any, data, and a string's null.
unfoldable pub value_len : Tag → ℕ → ℕ
value_len t n = 1 + n + (if has_length t then 4 else 0) + (if is_string t then 1 else 0)

-- Tag, key and null.
unfoldable pub write_key : Memory → ℕ → List ℕ → Bool → Memory
write_key m start key is_append =
    let m₁ = store8 m start (u8 ((length key + 1) << 2)) in
    let m₂ = store_bytes m₁ (start + 1) key in
    let m₃ = store8 m₂ (start + 1 + length key) 0 in if is_append then m else m₃

-- What follows the type byte.
unfoldable pub write_data : Memory → ℕ → Tag → List ℕ → Memory
write_data m vstart t val =
    let m₁ = store32 m vstart (u32 (length val)) in
    let m₂ = store_bytes m₁ (vstart + 4) val in
    let m₃ = store8 m₂ (vstart + 4 + length val) 0 in
    if has_length t then (if is_string t then m₃ else m₂) else store_bytes m vstart val

unfoldable pub write_value : Memory → ℕ → Tag → List ℕ → Memory
unfolding write_data
write_value m vo t val = write_data (store8 m vo (code t)) (vo + 1) t val

-- Where the value of the entry at `kv_ofs` begins.
unfoldable pub value_offset : Memory → ℕ → Bool → ℕ
value_offset m kv_ofs is_append = if is_append then kv_ofs else kv_ofs + 1 + (m.byte kv_ofs >>> 2)

-- The length of the data of a type other than strings and bytes.
abbrev pub fixed_len : Tag → ℕ
fixed_len bool = 1
fixed_len int64 = 8
fixed_len float64 = 8
fixed_len _ = 0

-- `existing_total_len` of the value at `vo`.
unfoldable pub existing_len : Memory → ℕ → ℕ
existing_len m vo =
    let t = of_code (m.byte vo) in
    if has_length t
    then 1 + 4 + load32 m (vo + 1) + (if is_string t then 1 else 0)
    else 1 + fixed_len t
