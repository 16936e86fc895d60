-- ===== src/Node.antt =====
-- include/node.hpp: the type tags, and the 96-byte nodes through the accessors of `NodeView` and
-- `MutableNodeView`. A node is the address `p` of its `PackedNodeLayout` in the memory: `gen_type` at
-- `p`, seven hashes from `p + 4`, `size_kc` at `p + 32`, seven `kv_ofs` from `p + 36` and eight
-- `child_ofs` from `p + 64`. The masks are those of include/config.hpp.
pub mod Laws
pub mod Fields
pub mod Frame
pub mod Children
pub mod Head
use lite3_cpp.Base.{ℕ, ◌+◌, ◌*◌, if◌then◌else◌, ◌==◌, bit_and, bit_or, u32, ◌<<◌, ◌>>>◌}
use lite3_cpp.Memory.{Memory, load32, store32}

-- `enum class Type : uint8_t`; a byte that is no enumerator is `other`.
pub data Tag : Type 0 where
  null bool int64 float64 bytes string object array invalid count : Tag
  other : ℕ → Tag

-- The cast from an enumerator to its byte.
unfoldable pub code : Tag → ℕ
code null = 0
code bool = 1
code int64 = 2
code float64 = 3
code bytes = 4
code string = 5
code object = 6
code array = 7
code invalid = 8
code count = 9
code (other n) = n

-- `static_cast<Type>(n)`
unfoldable pub of_code : ℕ → Tag
of_code n =
    if n == 0
    then null
    else if n == 1
    then bool
    else if n == 2
    then int64
    else if n == 3
    then float64
    else if n == 4
    then bytes
    else if n == 5
    then string
    else if n == 6
    then object
    else if n == 7
    then array
    else if n == 8
    then invalid
    else if n == 9
    then count
    else other n

-- include/config.hpp
abbrev pub node_key_count_max : ℕ
node_key_count_max = 7

abbrev pub node_key_count_min : ℕ
node_key_count_min = 3

abbrev pub node_size : ℕ
node_size = 96

abbrev pub node_alignment : ℕ
node_alignment = 4

abbrev pub tree_height_max : ℕ
tree_height_max = 9

module _ (m : Memory) (p : ℕ) where
  unfoldable pub generation : ℕ
  generation = bit_and (load32 m p) 0xFFFFFF00 >>> 8

  unfoldable pub tag : Tag
  tag = of_code (bit_and (load32 m p) 0x000000FF >>> 0)

  unfoldable pub size : ℕ
  size = bit_and (load32 m (p + 32)) 0xFFFFFFC0 >>> 6

  unfoldable pub key_count : ℕ
  key_count = bit_and (load32 m (p + 32)) 0x00000007 >>> 0

  unfoldable pub get_hash : ℕ → ℕ
  get_hash i = load32 m (p + 4 + 4 * i)

  unfoldable pub get_kv_offset : ℕ → ℕ
  get_kv_offset i = load32 m (p + 36 + 4 * i)

  unfoldable pub get_child_offset : ℕ → ℕ
  get_child_offset i = load32 m (p + 64 + 4 * i)

  unfoldable pub set_gen_type : ℕ → Tag → Memory
  set_gen_type gen t = store32 m p (bit_or (u32 (gen << 8)) (bit_and (code t) 0x000000FF))

  unfoldable pub set_size : ℕ → Memory
  set_size n =
      store32 m (p + 32)
        (bit_or (bit_and (load32 m (p + 32)) 0x0000003F) (bit_and (u32 (n << 6)) 0xFFFFFFC0))

  unfoldable pub set_size_kc : ℕ → ℕ → Memory
  set_size_kc n k = store32 m (p + 32) (bit_or (u32 (n << 6)) (bit_and k 0x00000007))

  unfoldable pub set_key_count : ℕ → Memory
  set_key_count k =
      store32 m (p + 32) (bit_or (bit_and (load32 m (p + 32)) 0xFFFFFFF8) (bit_and k 0x00000007))

  unfoldable pub set_hash : ℕ → ℕ → Memory
  set_hash i v = store32 m (p + 4 + 4 * i) v

  unfoldable pub set_kv_offset : ℕ → ℕ → Memory
  set_kv_offset i v = store32 m (p + 36 + 4 * i) v

  unfoldable pub set_child_offset : ℕ → ℕ → Memory
  set_child_offset i v = store32 m (p + 64 + 4 * i) v
