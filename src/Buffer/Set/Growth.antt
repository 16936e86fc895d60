-- ===== src/Buffer/Set/Growth.antt =====
-- A split writes into the vector and does not resize it.
use lite3_cpp.Base.{ℕ, zero, suc, ◌+◌, ◌≡◌, refl}
use lite3_cpp.Memory.{Memory, store32, clear, copy, write}
use lite3_cpp.Node.{
  set_gen_type, set_size_kc, set_key_count, set_hash, set_kv_offset, set_child_offset,
}
use lite3_cpp.Buffer.State.{Buffer}
use lite3_cpp.Buffer.Split.{split_root, move_keys, shift_up, split_child}

pub size-move_keys :
    (left j : ℕ) (m : Memory) (node sibling : ℕ) → (move_keys m node sibling j left).size ≡ m.size
unfolding move_keys set_hash set_kv_offset set_child_offset store32
size-move_keys zero j m node sibling = refl
size-move_keys (suc left) j m node sibling = size-move_keys left (j + 1) _ node sibling

pub size-shift_up :
    (left i : ℕ) (m : Memory) (parent : ℕ) → (shift_up m parent i left).size ≡ m.size
unfolding shift_up set_hash set_kv_offset set_child_offset store32
size-shift_up zero i m parent = refl
size-shift_up (suc left) i m parent = size-shift_up left i _ parent

pub size-split_root : (b : Buffer) (node : ℕ) → (split_root b node).m_data.size ≡ b.m_data.size
unfolding split_root copy clear write set_gen_type set_key_count set_child_offset set_size_kc
    store32
size-split_root b node = refl

pub size-split_child :
    (b : Buffer) (parent node i : ℕ) → (split_child b parent node i).m_data.size ≡ b.m_data.size
unfolding split_child clear write set_gen_type set_key_count set_hash set_kv_offset set_child_offset
    set_size_kc store32
size-split_child b parent node i = rw (size-shift_up, size-move_keys) refl
