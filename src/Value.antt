-- ===== src/Value.antt =====
-- src/value.cpp, src/array.cpp, src/object.cpp and src/document.cpp: the handles by which a document
-- is read and written. A handle points to its buffer; here the buffer is passed beside it.
pub mod Casts
pub mod Assign
pub mod Members
use lite3_cpp.Base.{ℕ, Bool, true, false, not, List, [], ◌∷◌, ◌==◌, if◌then◌else◌, u32}
use lite3_cpp.Node.{Tag, null}
use lite3_cpp.Outcome.{Outcome, ok, throws, ◌>>=◌, catch}
use lite3_cpp.Buffer.State.{Buffer, new, init_object}
use lite3_cpp.Buffer.Object.{
  set_i64, set_f64, set_str, set_bool, set_obj, set_arr, get_i64, get_f64, get_bool, get_str,
  get_bytes, get_obj, get_arr, get_type,
}
use lite3_cpp.Buffer.Array.{
  arr_append_bool, arr_append_i64, arr_append_f64, arr_append_str, arr_append_obj, arr_append_arr,
  arr_get_i64, arr_get_f64, arr_get_bool, arr_get_str, arr_get_bytes, arr_get_obj, arr_get_arr,
  arr_get_type,
}

pub record Value : Type 0 where
  pub m_offset : ℕ
  pub m_parent_ofs : ℕ
  pub m_key : List ℕ
  pub m_index : ℕ
  pub m_is_array_element : Bool

-- `Value(buf, parent_ofs)`; `Object` and `Array` inherit it.
unfoldable pub handle : ℕ → Value
handle parent_ofs = record {
  m_offset = 0;
  m_parent_ofs = parent_ofs;
  m_key = [];
  m_index = 0;
  m_is_array_element = false;
}

-- `m_key.empty()`
abbrev pub is_empty : List ℕ → Bool
is_empty [] = true
is_empty (c ∷ s) = false

-- A buffer that a call has changed, or not, with the result.
abbrev pub keep : Buffer → Outcome ℕ → Outcome (ℕ × Buffer)
keep b r = r >>= λ p. ok (p, b)

-- The eight bytes of 0 and of 0.0
abbrev pub zero_word : List ℕ
zero_word = 0 ∷ 0 ∷ 0 ∷ 0 ∷ 0 ∷ 0 ∷ 0 ∷ 0 ∷ []

module _ (v : Value) (b : Buffer) where
  unfoldable pub type : Outcome Tag
  type =
      if not (is_empty v.m_key)
      then catch (get_type b v.m_parent_ofs v.m_key) (ok null)
      else if v.m_is_array_element
      then catch (arr_get_type b v.m_parent_ofs v.m_index) (ok null)
      else ok null

  -- Lines 29 to 46: the node of the object that the handle stands for, made if it is not there.
  unfoldable pub object_node : Outcome (ℕ × Buffer)
  object_node =
      if v.m_offset == 0
      then (if not (is_empty v.m_key)
          then catch (keep b (get_obj b v.m_parent_ofs v.m_key)) (set_obj b v.m_parent_ofs v.m_key)
          else if v.m_is_array_element
          then catch (keep b (arr_get_obj b v.m_parent_ofs v.m_index))
              (arr_append_obj b v.m_parent_ofs)
          else ok (0, b))
      else ok (v.m_offset, b)

  -- `operator[](std::string_view)`
  unfoldable pub at_key : List ℕ → Outcome (Value × Buffer)
  unfolding object_node handle
  at_key key = do
    (current_node_ofs, b') ← object_node
    ok (record (handle 0) { m_parent_ofs = current_node_ofs; m_key = key }, b')

  -- Lines 58 to 73: the same for an array.
  unfoldable pub array_node : Outcome (ℕ × Buffer)
  array_node =
      if v.m_offset == 0
      then (if not (is_empty v.m_key)
          then catch (keep b (get_arr b v.m_parent_ofs v.m_key)) (set_arr b v.m_parent_ofs v.m_key)
          else if v.m_is_array_element
          then catch (keep b (arr_get_arr b v.m_parent_ofs v.m_index))
              (arr_append_arr b v.m_parent_ofs)
          else ok (v.m_offset, b))
      else ok (v.m_offset, b)

  -- `operator[](uint32_t)`
  unfoldable pub at_index : ℕ → Outcome (Value × Buffer)
  unfolding array_node handle
  at_index index = do
    (current_node_ofs, b') ← array_node
    ok (
      record (handle 0) {
        m_parent_ofs = current_node_ofs;
        m_index = index;
        m_is_array_element = true;
      },
      b',
    )

  -- A cast: the element, or the member, or a default where there is none or it has another type. The
  -- string cast catches `lite3cpp::exception` and the others catch everything, which is the same here:
  -- every exception of the model is a `lite3cpp::exception`.
  abbrev pub read : {A : Type 0} → Outcome A → Outcome A → A → Outcome A
  read element member default =
      if v.m_is_array_element
      then catch element (ok default)
      else if not (is_empty v.m_key)
      then catch member (ok default)
      else ok default

  unfoldable pub to_bool : Outcome Bool
  to_bool = read (arr_get_bool b v.m_parent_ofs v.m_index) (get_bool b v.m_parent_ofs v.m_key) false

  unfoldable pub to_i64 : Outcome (List ℕ)
  to_i64 =
      read (arr_get_i64 b v.m_parent_ofs v.m_index) (get_i64 b v.m_parent_ofs v.m_key) zero_word

  unfoldable pub to_f64 : Outcome (List ℕ)
  to_f64 =
      read (arr_get_f64 b v.m_parent_ofs v.m_index) (get_f64 b v.m_parent_ofs v.m_key) zero_word

  unfoldable pub to_str : Outcome (List ℕ)
  to_str = read (arr_get_str b v.m_parent_ofs v.m_index) (get_str b v.m_parent_ofs v.m_key) []

  unfoldable pub to_bytes : Outcome (List ℕ)
  to_bytes = read (arr_get_bytes b v.m_parent_ofs v.m_index) (get_bytes b v.m_parent_ofs v.m_key) []

  -- An assignment: to the member, or else a new element.
  abbrev pub write : Outcome Buffer → Outcome Buffer → Outcome Buffer
  write member element =
      if not (is_empty v.m_key) then member else if v.m_is_array_element then element else ok b

  unfoldable pub assign_bool : Bool → Outcome Buffer
  assign_bool val =
      write (set_bool b v.m_parent_ofs v.m_key val) (arr_append_bool b v.m_parent_ofs val)

  unfoldable pub assign_i64 : List ℕ → Outcome Buffer
  assign_i64 val =
      write (set_i64 b v.m_parent_ofs v.m_key val) (arr_append_i64 b v.m_parent_ofs val)

  unfoldable pub assign_f64 : List ℕ → Outcome Buffer
  assign_f64 val =
      write (set_f64 b v.m_parent_ofs v.m_key val) (arr_append_f64 b v.m_parent_ofs val)

  unfoldable pub assign_str : List ℕ → Outcome Buffer
  assign_str val =
      write (set_str b v.m_parent_ofs v.m_key val) (arr_append_str b v.m_parent_ofs val)

  -- `Array::push_back`, `Array::size` and `Object::contains`
  unfoldable pub push_back_bool : Bool → Outcome Buffer
  push_back_bool val = arr_append_bool b v.m_offset val

  unfoldable pub push_back_i64 : List ℕ → Outcome Buffer
  push_back_i64 val = arr_append_i64 b v.m_offset val

  unfoldable pub push_back_f64 : List ℕ → Outcome Buffer
  push_back_f64 val = arr_append_f64 b v.m_offset val

  unfoldable pub push_back_str : List ℕ → Outcome Buffer
  push_back_str val = arr_append_str b v.m_offset val

  unfoldable pub array_size : ℕ
  array_size = 0

  unfoldable pub contains : List ℕ → Outcome Bool
  contains key = catch (do _ ← get_type b v.m_offset key; ok true) (ok false)

-- `Document()`, and `root_obj()` and `root_arr()`, which are the same handle
unfoldable pub new_document : Buffer
unfolding init_object new
new_document = init_object new

unfoldable pub root : Value
unfolding handle
root = handle 0
