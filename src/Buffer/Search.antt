-- ===== src/Buffer/Search.antt =====
-- The search in a node and `get_impl` (src/buffer.cpp, lines 244 to 251 and 413 to 464).
pub mod Table
pub mod Held
pub mod Leaf
pub mod Frame
use Prim.Native.Nat.{Ordering}
use lite3_cpp.Base.{
  ℕ, zero, suc, ◌+◌, ◌*◌, Bool, List, ltb, ◌==◌, ◌&&◌, if◌then◌else◌, Option, none, some, true,
  false,
}
use lite3_cpp.Memory.{Memory}
use lite3_cpp.Node.{Tag, of_code, key_count, get_kv_offset, get_child_offset}
use lite3_cpp.Outcome.{Outcome, ok, out_of_fuel}
use lite3_cpp.Buffer.State.{Buffer}
use lite3_cpp.Buffer.Compare.{compare_node_key}
use lite3_cpp.Buffer.Entry.{value_offset}

abbrev pub is_lt : Ordering → Bool
is_lt Ordering.lt = true
is_lt _ = false

abbrev pub is_eq : Ordering → Bool
is_eq Ordering.eq = true
is_eq _ = false

module _ (hash : ℕ) (key : List ℕ) (is_arr : Bool) where
  -- `while (i < count && compare(i) < 0) i++`, with `left` indices to go.
  unfoldable pub scan : Memory → ℕ → ℕ → ℕ → ℕ
  scan m node i zero = i
  scan m node i (suc left) = elim (is_lt (compare_node_key m node i hash key is_arr)) [
    | true ↦ scan m node (i + 1) left
    | false ↦ i
  ]

  -- `i < count && compare(i) == 0`
  unfoldable pub matches : Memory → ℕ → ℕ → Bool
  matches m node i = ltb i (key_count m node) && is_eq (compare_node_key m node i hash key is_arr)

  -- The loop of `get_impl`: the address of the data and its type, or `nullptr`.
  unfoldable pub get_loop : ℕ → Memory → ℕ → Outcome (Option (ℕ × Tag))
  unfolding scan matches
  get_loop zero m node = out_of_fuel
  get_loop (suc fuel) m node =
      let i = scan m node 0 (key_count m node) in
      let vo = value_offset m (get_kv_offset m node i) is_arr in
      let child = get_child_offset m node i in
      let below = get_loop fuel m child in
      if matches m node i
      then ok (some (vo + 1, of_code (m.byte vo)))
      else if child == 0
      then ok none
      else below

-- The rounds of the loops: two for each used byte, and four more.
abbrev pub rounds : Buffer → ℕ
rounds b = 2 * b.m_used_size + 4

unfoldable pub get_impl : Buffer → ℕ → List ℕ → ℕ → Bool → Outcome (Option (ℕ × Tag))
unfolding get_loop
get_impl b ofs key hash is_array_op = get_loop hash key is_array_op (rounds b) b.m_data ofs
