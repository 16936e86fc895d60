-- ===== src/Buffer/Split.antt =====
-- The splits of `set_impl` (src/buffer.cpp, lines 146 to 241): a full root moves below a new root, and
-- a full child gives its upper keys to a sibling and its median to the parent.
pub mod Room
pub mod Root
pub mod Sibling
pub mod Parent
pub mod Rows
pub mod Divides
pub mod Given
pub mod Child
pub mod Halves
pub mod Pieces
pub mod Heads
use lite3_cpp.Base.{
  ℕ, zero, suc, ◌+◌, ◌-◌, ◌*◌, ◌/◌, ◌==◌, if◌then◌else◌, Option, none, some, size_max, true, false,
  u32,
}
use lite3_cpp.Memory.{Memory, clear, copy}
use lite3_cpp.Node.{
  node_size, node_alignment, node_key_count_min, generation, tag, size, key_count, get_hash,
  get_kv_offset, get_child_offset, set_gen_type, set_size_kc, set_key_count, set_hash,
  set_kv_offset, set_child_offset,
}
use lite3_cpp.Buffer.State.{Buffer, ensure_capacity}

-- `(n + node_alignment - 1) & ~(node_alignment - 1)`
abbrev pub align_up : ℕ → ℕ
align_up n = (n + node_alignment - 1) / node_alignment * node_alignment

-- Room for the new nodes, and the aligned address of the first.
unfoldable pub make_room : Buffer → ℕ → Buffer
make_room b parent_ofs =
    let next_aligned = align_up b.m_used_size in
    let space_needed = if parent_ofs == size_max then 2 * node_size else node_size in
    record (ensure_capacity b (space_needed + (next_aligned - b.m_used_size) + 128)) {
      m_used_size = next_aligned;
    }

-- Lines 165 to 179: the root at `node` is copied behind the used bytes and becomes an empty node
-- with the copy as its only child.
unfoldable pub split_root : Buffer → ℕ → Buffer
split_root b node =
    let moves_to = b.m_used_size in
    let m₁ = copy b.m_data moves_to node node_size in
    let root_type = tag m₁ node in
    let m₂ = clear m₁ node node_size in
    let m₃ = set_gen_type m₂ node 1 root_type in
    let m₄ = set_key_count m₃ node 0 in
    let m₅ = set_child_offset m₄ node 0 (u32 moves_to) in
    record { m_data = set_size_kc m₅ node (size m₅ moves_to) 0; m_used_size = moves_to + node_size }

-- Lines 190 to 196, from index `k` on with `left` children to try: `i_in_parent`.
unfoldable pub find_child : Memory → ℕ → ℕ → ℕ → ℕ → Option ℕ
find_child m parent node k zero = none
find_child m parent node k (suc left) = elim (get_child_offset m parent k == node) [
  | true ↦ some k
  | false ↦ find_child m parent node (k + 1) left
]

-- Lines 215 to 217: key `mid + 1 + j` of the node, with the child behind it, becomes key `j` of the
-- sibling.
unfoldable pub move_key_to : Memory → ℕ → ℕ → ℕ → Memory
move_key_to m node sibling j =
    let from = node_key_count_min + 1 + j in
    let m₁ = set_hash m sibling j (get_hash m node from) in
    let m₂ = set_kv_offset m₁ sibling j (get_kv_offset m₁ node from) in
    set_child_offset m₂ sibling (j + 1) (get_child_offset m₂ node (from + 1))

-- Lines 214 to 218: `left` keys from `mid + 1 + j` of the node go to `j` of the sibling.
unfoldable pub move_keys : Memory → ℕ → ℕ → ℕ → ℕ → Memory
unfolding move_key_to
move_keys m node sibling j zero = m
move_keys m node sibling j (suc left) =
    move_keys (move_key_to m node sibling j) node sibling (j + 1) left

-- Lines 224 to 226: key `j - 1` of the parent, with the child behind it, moves up by one.
unfoldable pub shift_key_up : Memory → ℕ → ℕ → Memory
shift_key_up m parent j =
    let m₁ = set_hash m parent j (get_hash m parent (j - 1)) in
    let m₂ = set_kv_offset m₁ parent j (get_kv_offset m₁ parent (j - 1)) in
    set_child_offset m₂ parent (j + 1) (get_child_offset m₂ parent j)

-- Lines 223 to 227: the parent's keys from `i` to `i + left - 1` and the children behind them move
-- up by one, the last first.
unfoldable pub shift_up : Memory → ℕ → ℕ → ℕ → Memory
unfolding shift_key_up
shift_up m parent i zero = m
shift_up m parent i (suc left) = shift_up (shift_key_up m parent (i + suc left)) parent i left

-- Lines 198 to 234, for a node that is child `i` of its parent.
unfoldable pub split_child : Buffer → ℕ → ℕ → ℕ → Buffer
unfolding move_keys shift_up
split_child b parent node i =
    let sibling = b.m_used_size in
    let mid = node_key_count_min in
    let m₁ = clear b.m_data sibling node_size in
    let m₂ = set_gen_type m₁ sibling (generation m₁ node) (tag m₁ node) in
    let move_count = key_count m₂ node - (mid + 1) in
    let m₃ = set_child_offset m₂ sibling 0 (get_child_offset m₂ node (mid + 1)) in
    let m₄ = move_keys m₃ node sibling 0 move_count in
    let m₅ = set_size_kc m₄ sibling 0 move_count in
    let m₆ = shift_up m₅ parent i (key_count m₅ parent - i) in
    let m₇ = set_hash m₆ parent i (get_hash m₆ node mid) in
    let m₈ = set_kv_offset m₇ parent i (get_kv_offset m₇ node mid) in
    let m₉ = set_child_offset m₈ parent (i + 1) (u32 sibling) in
    let m₁₀ = set_size_kc m₉ parent (size m₉ parent) (key_count m₉ parent + 1) in
    record { m_data = set_key_count m₁₀ node mid; m_used_size = sibling + node_size }
