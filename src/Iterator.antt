-- ===== src/Iterator.antt =====
-- src/iterator.cpp and include/iterator.hpp, and `begin` and `end` of src/buffer.cpp. The iterators here
-- are those of one buffer, which is passed beside them; `m_buffer` says whether the pointer is set. The
-- stack is the list of its positions up to `m_depth`, the top first. Messages to the logger are left out.
pub mod Frames
pub mod Step
pub mod Walk
pub mod Stale
pub mod Maps
use Prim.Native.String.{String}
use lite3_cpp.Base.{
  ℕ, zero, suc, ◌+◌, ◌-◌, Bool, true, false, not, ◌&&◌, ◌||◌, List, [], ◌∷◌, ◌==◌, ltb, leb, length,
  if◌then◌else◌, ◌>>>◌,
}
use lite3_cpp.Memory.{Memory, read_bytes}
use lite3_cpp.Node.{
  Tag, null, of_code, tree_height_max, generation, key_count, get_kv_offset, get_child_offset,
}
use lite3_cpp.Outcome.{Outcome, ok, throws, out_of_fuel, ◌>>=◌}
use lite3_cpp.Buffer.State.{Buffer}

-- `value_type`
pub record Item : Type 0 where
  pub key : List ℕ
  pub value_offset : ℕ
  pub value_type : Tag

pub record Iterator : Type 0 where
  pub m_buffer : Bool
  pub m_initial_buffer_generation : ℕ
  pub m_stack : List (ℕ × ℕ)
  pub m_current_value : Item

-- `Iterator(nullptr, 0, 0, 0)`
abbrev pub no_iterator : Iterator
no_iterator = record {
  m_buffer = false;
  m_initial_buffer_generation = 0;
  m_stack = [];
  m_current_value = record { key = []; value_offset = 0; value_type = null };
}

-- `m_buffer = nullptr`
abbrev pub stop : Iterator → Iterator
stop it = record it { m_buffer = false }

-- Lines 92 to 99: `left` levels may still go on the stack.
unfoldable pub descend : Memory → ℕ → ℕ → List (ℕ × ℕ) → List (ℕ × ℕ)
descend m node zero stack = stack
descend m node (suc left) stack =
    let child = get_child_offset m node 0 in
    let deeper = descend m child left ((child, 0) ∷ stack) in if child == 0 then stack else deeper

abbrev pub top : List (ℕ × ℕ) → ℕ × ℕ
top [] = (0, 0)
top (p ∷ stack) = p

module _ (b : Buffer) where
  -- The root has another generation than it had.
  abbrev pub is_stale : Iterator → Bool
  is_stale it = not (it.m_initial_buffer_generation == generation b.m_data 0)

  unfoldable pub find_first : Iterator → Iterator
  find_first it =
      if not it.m_buffer
      then it
      else if b.m_data.size == 0
      then it
      else if is_stale it
      then stop it
      else record it {
        m_stack =
            descend b.m_data (top it.m_stack).0 (tree_height_max + 1 - length it.m_stack)
              it.m_stack;
      }

  -- Lines 220 to 227: past key `i` of the node, to the child behind it if there is one.
  unfoldable pub go_on : Iterator → ℕ → ℕ → List (ℕ × ℕ) → Iterator
  go_on it node i below =
      let stack = (node, i + 1) ∷ below in
      let child = get_child_offset b.m_data node (i + 1) in
      if not (child == 0) && ltb (length below) tree_height_max
      then find_first (record it { m_stack = (child, 0) ∷ stack })
      else record it { m_stack = stack }

  -- Lines 140 to 227: key `i` of the node is the current one.
  unfoldable pub read_key : Iterator → ℕ → ℕ → List (ℕ × ℕ) → Iterator
  read_key it node i below =
      let m = b.m_data in
      let kv_offset = get_kv_offset m node i in
      let key_size = m.byte kv_offset >>> 2 in
      let value_offset = kv_offset + 1 + key_size in
      let at_key = record it {
        m_current_value = record it.m_current_value {
          key = read_bytes m (kv_offset + 1) (key_size - 1);
          value_offset = value_offset;
        };
      } in
      let at_value = record at_key {
        m_current_value = record at_key.m_current_value {
          value_type = of_code (m.byte value_offset);
        };
      } in
      if leb m.size kv_offset
      then stop it
      else if key_size == 0 || ltb m.size (kv_offset + 1 + key_size)
      then stop it
      else if leb m.size value_offset
      then stop at_key
      else go_on at_value node i below

  -- Lines 122 to 227. The call of itself at line 136 passes the tests of lines 107 to 120 again, since
  -- nothing that they read has changed.
  unfoldable pub find_key : Iterator → List (ℕ × ℕ) → Iterator
  find_key it [] = stop it
  find_key it ((node, i) ∷ below) =
      if leb (key_count b.m_data node) i
      then find_key (record it { m_stack = below }) below
      else read_key it node i below

  -- `operator++`
  unfoldable pub find_next : Iterator → Iterator
  find_next it =
      if not it.m_buffer
      then it
      else if b.m_data.size == 0
      then stop it
      else if is_stale it
      then stop it
      else find_key it it.m_stack

  -- `operator*` and `operator->`
  unfoldable pub deref : Iterator → Outcome Item
  deref it =
      if not it.m_buffer || b.m_data.size == 0
      then throws "Invalid iterator"
      else if is_stale it
      then throws "Iterator invalidated: Buffer modified during iteration."
      else ok it.m_current_value

  unfoldable pub equals : Iterator → Iterator → Bool
  equals it other =
      if not it.m_buffer && not other.m_buffer
      then true
      else if not it.m_buffer || not other.m_buffer
      then false
      else if b.m_data.size == 0
      then false
      else if is_stale it
      then false
      else length it.m_stack == length other.m_stack
        && (top it.m_stack).0 == (top other.m_stack).0
        && (top it.m_stack).1 == (top other.m_stack).1

  -- `Buffer::begin`, with the constructor of `Iterator`
  unfoldable pub begin : ℕ → Iterator
  begin ofs =
      if b.m_data.size == 0
      then no_iterator
      else find_next (
          find_first (record no_iterator {
            m_buffer = true;
            m_initial_buffer_generation = generation b.m_data 0;
            m_stack = (ofs, 0) ∷ [];
          }))

  -- `for (auto it = begin; it != end; ++it)` that collects `*it`.
  unfoldable pub items : ℕ → Iterator → Outcome (List Item)
  items zero it = out_of_fuel
  items (suc fuel) it =
      let others = items fuel (find_next it) in
      if equals it no_iterator
      then ok []
      else (deref it >>= λ item. others >>= λ rest. ok (item ∷ rest))
