-- ===== src/Buffer/Array.antt =====
-- The operations on arrays (src/buffer.cpp, lines 566 to 723): the index of an element is its hash,
-- and an entry has no key.
pub mod Leaf
pub mod Append
pub mod Many
pub mod Sized
pub mod Fill
use lite3_cpp.Base.{ℕ, ◌+◌, Bool, true, List, [], ◌∷◌, Option, none, some, u32}
use lite3_cpp.Memory.{read_bytes}
use lite3_cpp.Node.{Tag, null, bool, int64, float64, bytes, string, object, array, size, set_size}
use lite3_cpp.Outcome.{Outcome, ok, ◌>>=◌}
use lite3_cpp.Buffer.State.{Buffer}
use lite3_cpp.Buffer.Search.{get_impl}
use lite3_cpp.Buffer.Set.{set_impl}
use lite3_cpp.Buffer.Object.{bool_byte, bool_of, expect, sized_bytes, init_node}

-- The size of an array node becomes `n`.
abbrev pub resize_array : Buffer → ℕ → ℕ → Buffer
resize_array b ofs n = record b { m_data = set_size b.m_data ofs (u32 n) }

module _ (b : Buffer) (ofs : ℕ) where
  unfoldable pub arr_append_impl : List ℕ → Tag → Outcome Buffer
  arr_append_impl val t = do
    let current_size = size b.m_data ofs
    (_, b') ← set_impl b ofs [] (u32 current_size) val t true
    ok (resize_array b' ofs (current_size + 1))

  unfoldable pub arr_append_null : Outcome Buffer
  unfolding arr_append_impl
  arr_append_null = arr_append_impl [] null

  unfoldable pub arr_append_bool : Bool → Outcome Buffer
  unfolding arr_append_impl
  arr_append_bool v = arr_append_impl (bool_byte v ∷ []) bool

  unfoldable pub arr_append_i64 : List ℕ → Outcome Buffer
  unfolding arr_append_impl
  arr_append_i64 v = arr_append_impl v int64

  unfoldable pub arr_append_f64 : List ℕ → Outcome Buffer
  unfolding arr_append_impl
  arr_append_f64 v = arr_append_impl v float64

  unfoldable pub arr_append_str : List ℕ → Outcome Buffer
  unfolding arr_append_impl
  arr_append_str v = arr_append_impl v string

  unfoldable pub arr_append_bytes : List ℕ → Outcome Buffer
  unfolding arr_append_impl
  arr_append_bytes v = arr_append_impl v bytes

  -- Lines 603 to 623, and 624 to 643 with the other tag.
  unfoldable pub arr_append_node : Tag → Outcome (ℕ × Buffer)
  arr_append_node t = do
    let idx = size b.m_data ofs
    (o, b₁) ← set_impl b ofs [] (u32 idx) [] t true
    let (p, b₂) = init_node b₁ o t
    ok (p, resize_array b₂ ofs (idx + 1))

  unfoldable pub arr_append_obj : Outcome (ℕ × Buffer)
  unfolding arr_append_node
  arr_append_obj = arr_append_node object

  unfoldable pub arr_append_arr : Outcome (ℕ × Buffer)
  unfolding arr_append_node
  arr_append_arr = arr_append_node array

module _ (b : Buffer) (ofs index : ℕ) where
  unfoldable pub arr_get_impl : Outcome (Option (ℕ × Tag))
  arr_get_impl = get_impl b ofs [] index true

  -- The address of the element, of type `t`.
  unfoldable pub arr_get_address : Tag → Outcome ℕ
  unfolding arr_get_impl
  arr_get_address t = do r ← arr_get_impl; expect "Type mismatch" "Type mismatch" t r

  unfoldable pub arr_get_i64 : Outcome (List ℕ)
  unfolding arr_get_address
  arr_get_i64 = do p ← arr_get_address int64; ok (read_bytes b.m_data p 8)

  unfoldable pub arr_get_f64 : Outcome (List ℕ)
  unfolding arr_get_address
  arr_get_f64 = do p ← arr_get_address float64; ok (read_bytes b.m_data p 8)

  unfoldable pub arr_get_bool : Outcome Bool
  unfolding arr_get_address
  arr_get_bool = do p ← arr_get_address bool; ok (bool_of (b.m_data.byte p))

  unfoldable pub arr_get_str : Outcome (List ℕ)
  unfolding arr_get_address
  arr_get_str = do p ← arr_get_address string; ok (sized_bytes b.m_data p)

  unfoldable pub arr_get_bytes : Outcome (List ℕ)
  unfolding arr_get_address
  arr_get_bytes = do p ← arr_get_address bytes; ok (sized_bytes b.m_data p)

  unfoldable pub arr_get_obj : Outcome ℕ
  unfolding arr_get_address
  arr_get_obj = arr_get_address object

  unfoldable pub arr_get_arr : Outcome ℕ
  unfolding arr_get_address
  arr_get_arr = arr_get_address array

  -- `t` begins as `Type::Null`.
  unfoldable pub arr_get_type : Outcome Tag
  unfolding arr_get_impl
  arr_get_type = do r ← arr_get_impl; ok (elim r [ none ↦ null | some (p, t) ↦ t ])
