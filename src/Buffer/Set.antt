-- ===== src/Buffer/Set.antt =====
-- The loop of `set_impl` (src/buffer.cpp, lines 104 to 411). The array `path` is never read, so that
-- only its bound is kept. The log line of a split and the metric of the call are left out.
pub mod Touch
pub mod Touched
pub mod Leaf
pub mod Growth
pub mod Root
pub mod Inner
pub mod Child
pub mod Divided
pub mod Halved
pub mod Puts
pub mod Visit
pub mod Arrive
pub mod Descend
pub mod Walk
pub mod Raised
pub mod Refines
use lite3_cpp.Base.{
  ℕ, zero, suc, ◌+◌, ◌-◌, List, Bool, true, false, ltb, leb, ◌==◌, if◌then◌else◌, Option, none,
  some, size_max,
}
use lite3_cpp.Memory.{Memory}
use lite3_cpp.Node.{
  Tag, node_key_count_max, generation, tag, key_count, get_hash, get_child_offset, set_gen_type,
}
use lite3_cpp.Outcome.{Outcome, ok, undefined, out_of_fuel}
use lite3_cpp.Buffer.State.{Buffer}
use lite3_cpp.Buffer.Search.{scan, matches, rounds}
use lite3_cpp.Buffer.Split.{make_room, split_root, find_child, split_child}
use lite3_cpp.Buffer.Insert.{insert_leaf}
use lite3_cpp.Buffer.Update.{update_key}

-- What a round of the loop does: return the value's address, or go on at a node below a parent, or
-- (`replace`, lines 177 to 179) do so with the node's place in `path` given back. It is undefined where
-- the parent does not hold the node, since `i_in_parent` stays -1.
pub data Round : Type 0 where
  finish : ℕ → Buffer → Round
  continue : (parent_ofs node_ofs : ℕ) → Buffer → Round
  replace : (parent_ofs node_ofs : ℕ) → Buffer → Round
  stray : Round

-- Line 124: the places of `path`.
abbrev pub path_size : ℕ
path_size = 16

-- Line 134: the generation of a node on the path goes up.
unfoldable pub touch : Memory → ℕ → Memory
touch m node = set_gen_type m node (generation m node + 1) (tag m node)

module _ (key : List ℕ) (key_hash : ℕ) (val : List ℕ) (type : Tag) (is_append : Bool) where
  -- Lines 190 to 241, at a full node with a parent.
  unfoldable pub split_inner : Buffer → ℕ → ℕ → Round
  split_inner b parent_ofs node_ofs =
      elim (find_child b.m_data parent_ofs node_ofs 0 (key_count b.m_data parent_ofs + 1)) [
        | none ↦ stray
        | some i ↦
            let b' = split_child b parent_ofs node_ofs i in
            continue parent_ofs
              (if ltb (get_hash b'.m_data parent_ofs i) key_hash then b.m_used_size else node_ofs)
              b'
      ]

  -- Lines 139 to 242, at a full node.
  unfoldable pub split_round : Buffer → ℕ → ℕ → Round
  unfolding split_inner
  split_round b parent_ofs node_ofs =
      let b' = make_room b parent_ofs in
      if parent_ofs == size_max
      then replace node_ofs b'.m_used_size (split_root b' node_ofs)
      else split_inner b' parent_ofs node_ofs

  -- Lines 244 to 410, at a node that is not full.
  unfoldable pub search_round : Buffer → ℕ → Round
  search_round b node_ofs =
      let m = b.m_data in
      let i = scan key_hash key is_append m node_ofs 0 (key_count m node_ofs) in
      let child = get_child_offset m node_ofs i in
      let (updated, b₁) = update_key key val type is_append b node_ofs i in
      let (inserted, b₂) = insert_leaf key key_hash val type is_append b node_ofs i in
      if matches key_hash key is_append m node_ofs i
      then finish updated b₁
      else if child == 0
      then finish inserted b₂
      else continue node_ofs child b

  unfoldable pub set_round : Buffer → ℕ → ℕ → Round
  unfolding touch split_round search_round
  set_round b parent_ofs node_ofs =
      let b' = record b { m_data = touch b.m_data node_ofs } in
      if leb node_key_count_max (key_count b'.m_data node_ofs)
      then split_round b' parent_ofs node_ofs
      else search_round b' node_ofs

  -- `path` has sixteen places, and a round that finds them taken writes behind it.
  unfoldable pub set_loop : ℕ → ℕ → Buffer → ℕ → ℕ → Outcome (ℕ × Buffer)
  set_loop zero path_depth b parent_ofs node_ofs = out_of_fuel
  set_loop (suc fuel) path_depth b parent_ofs node_ofs = elim (ltb path_depth path_size) [
    | false ↦ undefined
    | true ↦ elim (set_round b parent_ofs node_ofs) [
      | finish vo b' ↦ ok (vo, b')
      | continue parent_ofs' node_ofs' b' ↦ set_loop fuel (path_depth + 1) b' parent_ofs' node_ofs'
      | replace parent_ofs' node_ofs' b' ↦ set_loop fuel path_depth b' parent_ofs' node_ofs'
      | stray ↦ undefined
    ]
  ]

-- The address of the value's type byte, and the buffer.
unfoldable pub set_impl : Buffer → ℕ → List ℕ → ℕ → List ℕ → Tag → Bool → Outcome (ℕ × Buffer)
unfolding set_loop set_round
set_impl b ofs key key_hash val type is_append =
    set_loop key key_hash val type is_append (rounds b) 0 b size_max ofs
