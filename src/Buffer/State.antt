-- ===== src/Buffer/State.antt =====
-- The fields of `Buffer`, its constructors, `ensure_capacity` and `init_structure`
-- (src/buffer.cpp, lines 68 to 101). Sizes and addresses are natural numbers: `size_t` does not wrap
-- on a buffer that fits the address space.
pub mod Capacity
use lite3_cpp.Base.{ℕ, ◌+◌, ◌*◌, max, ltb, if◌then◌else◌, List, length, get_or}
use lite3_cpp.Memory.{Memory, zeros, clear, resize}
use lite3_cpp.Node.{Tag, object, array, node_size, set_gen_type}

pub record Buffer : Type 0 where
  pub m_data : Memory
  pub m_used_size : ℕ

-- `Buffer()`, and `Buffer(size_t)`, which only reserves storage
unfoldable pub new : Buffer
unfolding zeros
new = record { m_data = zeros 0; m_used_size = 0 }

-- `Buffer(std::vector<uint8_t>)`
unfoldable pub of_bytes : List ℕ → Buffer
of_bytes v = record {
  m_data = record { size = length v; byte = λ a. get_or v a 0 };
  m_used_size = length v;
}

-- The size that `ensure_capacity` resizes to.
unfoldable pub grown_size : ℕ → ℕ → ℕ
grown_size size needed =
    let new_size = max (size * 2) needed in if ltb new_size node_size then node_size else new_size

unfoldable pub ensure_capacity : Buffer → ℕ → Buffer
unfolding grown_size
ensure_capacity b required =
    if ltb b.m_data.size (b.m_used_size + required)
    then record b { m_data = resize b.m_data (grown_size b.m_data.size (b.m_used_size + required)) }
    else b

unfoldable pub init_structure : Buffer → Tag → Buffer
unfolding ensure_capacity
init_structure b t =
    let b' = ensure_capacity b node_size in
    let root = b'.m_used_size in
    record {
      m_data = set_gen_type (clear b'.m_data root node_size) root 1 t;
      m_used_size = root + node_size;
    }

unfoldable pub init_object : Buffer → Buffer
unfolding init_structure
init_object b = init_structure b object

unfoldable pub init_array : Buffer → Buffer
unfolding init_structure
init_array b = init_structure b array
