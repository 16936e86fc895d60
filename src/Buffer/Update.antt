-- ===== src/Buffer/Update.antt =====
-- A key that is there already (src/buffer.cpp, lines 255 to 351): the value is overwritten if the new
-- one is as long, or else a new entry is appended and the key leads to it.
use lite3_cpp.Base.{ℕ, ◌+◌, ◌==◌, if◌then◌else◌, List, Bool, length, u32}
use lite3_cpp.Node.{Tag, get_kv_offset, set_kv_offset}
use lite3_cpp.Buffer.State.{Buffer, ensure_capacity}
use lite3_cpp.Buffer.Entry.{key_len, value_len, value_offset, existing_len, write_key, write_value}

module _ (key : List ℕ) (val : List ℕ) (type : Tag) (is_append : Bool) where
  -- Lines 299 to 315
  unfoldable pub overwrite : Buffer → ℕ → Buffer
  overwrite b vo = record b { m_data = write_value b.m_data vo type val }

  -- Lines 319 to 350: the address of the value, and the buffer.
  unfoldable pub replace_entry : Buffer → ℕ → ℕ → ℕ × Buffer
  replace_entry b node i =
      let klen = key_len key is_append in
      let val_total_len = value_len type (length val) in
      let b' = ensure_capacity b (klen + val_total_len) in
      let start = b'.m_used_size in
      let m₁ = set_kv_offset b'.m_data node i (u32 start) in
      let m₂ = write_key m₁ start key is_append in
      (
        start + klen,
        record {
          m_data = write_value m₂ (start + klen) type val;
          m_used_size = start + (klen + val_total_len);
        },
      )

  unfoldable pub update_key : Buffer → ℕ → ℕ → ℕ × Buffer
  unfolding overwrite replace_entry
  update_key b node i =
      let vo = value_offset b.m_data (get_kv_offset b.m_data node i) is_append in
      if existing_len b.m_data vo == value_len type (length val)
      then (vo, overwrite b vo)
      else replace_entry b node i
