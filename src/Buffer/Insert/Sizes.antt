-- ===== src/Buffer/Insert/Sizes.antt =====
-- No write of an entry or of a node's words changes the size of the vector.
use lite3_cpp.Base.{ℕ, zero, suc, ◌+◌, ◌-◌, ◌≡◌, refl, Bool, true, false, List}
use lite3_cpp.Memory.{Memory, store8, store32, store_bytes}
use lite3_cpp.Node.{Tag, set_hash, set_kv_offset, set_key_count}
use lite3_cpp.Buffer.Entry.{write_key, write_value}
use lite3_cpp.Buffer.Insert.{move_key, shift_keys, insert_slot}

pub size-write_key :
    (m : Memory) (start : ℕ) (key : List ℕ) (arr : Bool) → (write_key m start key arr).size ≡ m.size
unfolding write_key store8 store_bytes
size-write_key m start key true = refl
size-write_key m start key false = refl

pub size-write_value :
    (m : Memory) (vo : ℕ) (t : Tag) (val : List ℕ) → (write_value m vo t val).size ≡ m.size
unfolding write_value store8 store32 store_bytes
size-write_value m vo Tag.string val = refl
size-write_value m vo Tag.bytes val = refl
size-write_value m vo t val = refl

size-shift_keys : (m : Memory) (node i left : ℕ) → (shift_keys m node i left).size ≡ m.size
unfolding shift_keys move_key set_hash set_kv_offset store32
size-shift_keys m node i zero = refl
size-shift_keys m node i (suc left) = size-shift_keys (move_key m node (i + suc left)) node i left

pub size-insert_slot :
    (m : Memory) (node count i hash start : ℕ)
    → (insert_slot m node count i hash start).size ≡ m.size
unfolding insert_slot set_hash set_kv_offset set_key_count store32
size-insert_slot m node count i hash start = size-shift_keys m node i (count - i)
