-- ===== src/Buffer/Insert.antt =====
-- A new key in a leaf (src/buffer.cpp, lines 358 to 409).
pub mod Slots
pub mod Head
pub mod Sizes
pub mod Leaf
pub mod Placed
use lite3_cpp.Base.{ℕ, zero, suc, ◌+◌, ◌-◌, List, Bool, length, u32}
use lite3_cpp.Memory.{Memory}
use lite3_cpp.Node.{Tag, key_count, get_hash, get_kv_offset, set_key_count, set_hash, set_kv_offset}
use lite3_cpp.Buffer.State.{Buffer, ensure_capacity}
use lite3_cpp.Buffer.Entry.{key_len, value_len, write_key, write_value}

-- Lines 399 and 400: key `j - 1` of the node is copied to `j`.
unfoldable pub move_key : Memory → ℕ → ℕ → Memory
move_key m node j =
    let m₁ = set_hash m node j (get_hash m node (j - 1)) in
    set_kv_offset m₁ node j (get_kv_offset m₁ node (j - 1))

-- Lines 398 to 401: the keys from `i` to `i + left - 1` move up by one, the last first.
unfoldable pub shift_keys : Memory → ℕ → ℕ → ℕ → Memory
shift_keys m node i zero = m
shift_keys m node i (suc left) = shift_keys (move_key m node (i + suc left)) node i left

-- Lines 398 to 404: key `i` of a node with `count` keys becomes the hash and the entry's address, and the count goes up.
unfoldable pub insert_slot : Memory → (node count i hash start : ℕ) → Memory
unfolding move_key shift_keys
insert_slot m node count i hash start =
    let m₁ = shift_keys m node i (count - i) in
    let m₂ = set_hash m₁ node i hash in
    let m₃ = set_kv_offset m₂ node i (u32 start) in set_key_count m₃ node (count + 1)

module _ (key : List ℕ) (key_hash : ℕ) (val : List ℕ) (type : Tag) (is_append : Bool) where
  -- The length of a new entry.
  abbrev pub entry_len : ℕ
  entry_len = key_len key is_append + value_len type (length val)

  -- Room for a new entry behind the used bytes, its bytes, and the address of its value.
  unfoldable pub append_entry : Buffer → Buffer × ℕ
  append_entry b =
      let b' = ensure_capacity b entry_len in
      let start = b'.m_used_size in
      let vo = start + key_len key is_append in
      (
        record {
          m_data = write_value (write_key b'.m_data start key is_append) vo type val;
          m_used_size = start + entry_len;
        },
        vo,
      )

  unfoldable pub insert_leaf : Buffer → ℕ → ℕ → ℕ × Buffer
  unfolding append_entry insert_slot
  insert_leaf b node i =
      let (b', vo) = append_entry b in
      (
        vo,
        record b' {
          m_data = insert_slot b'.m_data node (key_count b.m_data node) i key_hash b.m_used_size;
        },
      )
