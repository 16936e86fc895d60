-- ===== src/Json.antt =====
-- src/json.cpp. The library yyjson is the parameter `Yyjson`: the documents that it reads, with the
-- calls that inspect them, and those that the program builds and lets it write. The calls that allocate
-- and free documents, the latencies and the log messages are left out.
pub mod Parse
pub mod Print
pub mod Members
pub mod Filled
use lite3_cpp.Base.{ℕ, Bool, List, Option}

-- The values of `yyjson_type` that the code names, and any other.
pub data ValType : Type 0 where
  type_null type_bool type_num type_str type_arr type_obj type_other : ValType

-- What the code relies on of yyjson. A text is its bytes up to the null, a number its eight bytes.
pub record Yyjson : Type 1 where
  -- `yyjson_val`, and the root that `yyjson_read` finds, if the text is JSON
  pub Val : Type 0
  pub read : List ℕ → Option Val
  pub get_type : Val → ValType
  pub get_bool : Val → Bool
  pub is_int : Val → Bool
  pub get_int : Val → List ℕ
  pub get_real : Val → List ℕ
  pub get_str : Val → List ℕ
  -- the items that `yyjson_arr_iter` goes through, and the keys and values of `yyjson_obj_iter`
  pub arr_items : Val → List Val
  pub obj_members : Val → List (Val × Val)
  -- `yyjson_mut_val`
  pub MutVal : Type 0
  pub mut_null : MutVal
  pub mut_bool : Bool → MutVal
  pub mut_int : List ℕ → MutVal
  pub mut_real : List ℕ → MutVal
  pub mut_str : List ℕ → MutVal
  pub mut_obj : MutVal
  pub mut_arr : MutVal
  pub obj_add : MutVal → List ℕ → MutVal → MutVal
  pub arr_add : MutVal → MutVal → MutVal
  pub write : MutVal → Option (List ℕ)
