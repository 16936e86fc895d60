-- ===== src/Buffer/Object.antt =====
-- The operations on objects (src/buffer.cpp, lines 466 to 563 and 724 to 765). An `int64_t` and a
-- `double` are their eight bytes, as `memcpy` moves them; a `bool` is one byte.
use lite3_cpp.Base.{
  ℕ, ◌+◌, ◌-◌, Bool, not, true, false, List, [], ◌∷◌, Option, none, some, ◌==◌, if◌then◌else◌,
}
pub mod Leaf
pub mod New
pub mod Put
pub mod Many
pub mod Fill
pub mod Arranged
pub mod Sized
pub mod Types
use Prim.Native.String.{String}
use lite3_cpp.Hash.{djb2_hash}
use lite3_cpp.Memory.{Memory, clear, load32, read_bytes}
use lite3_cpp.Node.{
  Tag, null, bool, int64, float64, bytes, string, object, array, code, node_size, set_gen_type,
}
use lite3_cpp.Outcome.{undefined, Outcome, ok, throws, ◌>>=◌}
use lite3_cpp.Buffer.State.{Buffer, ensure_capacity}
use lite3_cpp.Buffer.Search.{get_impl}
use lite3_cpp.Buffer.Set.{set_impl}

-- A `bool` in memory.
abbrev pub bool_byte : Bool → ℕ
bool_byte true = 1
bool_byte false = 0

-- A write whose returned address is dropped.
abbrev pub drop_address : Outcome (ℕ × Buffer) → Outcome Buffer
drop_address r = r >>= λ (_, b). ok b

module _ (b : Buffer) (ofs : ℕ) (key : List ℕ) where
  unfoldable pub set_value : List ℕ → Tag → Outcome Buffer
  set_value val t = drop_address (set_impl b ofs key (djb2_hash key) val t false)

  unfoldable pub set_null : Outcome Buffer
  unfolding set_value
  set_null = set_value [] null

  unfoldable pub set_i64 : List ℕ → Outcome Buffer
  unfolding set_value
  set_i64 value = set_value value int64

  unfoldable pub set_f64 : List ℕ → Outcome Buffer
  unfolding set_value
  set_f64 value = set_value value float64

  unfoldable pub set_str : List ℕ → Outcome Buffer
  unfolding set_value
  set_str value = set_value value string

  unfoldable pub set_bool : Bool → Outcome Buffer
  unfolding set_value
  set_bool value = set_value (bool_byte value ∷ []) bool

  unfoldable pub set_bytes : List ℕ → Outcome Buffer
  unfolding set_value
  set_bytes value = set_value value bytes

-- Lines 538 to 552: the node behind the type byte at `o`, in the 96 bytes added to the used ones.
unfoldable pub init_node : Buffer → ℕ → Tag → ℕ × Buffer
init_node b o t =
    let b' = ensure_capacity b node_size in
    (
      o + 1,
      record {
        m_data = set_gen_type (clear b'.m_data (o + 1) (node_size - 8)) (o + 1) 1 t;
        m_used_size = b'.m_used_size + node_size;
      },
    )

module _ (b : Buffer) (ofs : ℕ) (key : List ℕ) where
  unfoldable pub set_obj : Outcome (ℕ × Buffer)
  unfolding init_node
  set_obj = do
    (o, b') ← set_impl b ofs key (djb2_hash key) [] object false
    ok (init_node b' o object)

  unfoldable pub set_arr : Outcome (ℕ × Buffer)
  unfolding init_node
  set_arr = do
    (o, b') ← set_impl b ofs key (djb2_hash key) [] array false
    ok (init_node b' o array)

-- `t == expected`
abbrev pub same_tag : Tag → Tag → Bool
same_tag t u = code t == code u

-- The address of the data if it is there with the type that is asked for, or else an exception with
-- one of two messages.
abbrev pub expect : String → String → Tag → Option (ℕ × Tag) → Outcome ℕ
expect missing mismatch t none = throws missing
expect missing mismatch t (some (p, u)) = if same_tag u t then ok p else throws mismatch

-- A length and as many bytes, at `p`.
abbrev pub sized_bytes : Memory → ℕ → List ℕ
sized_bytes m p = read_bytes m (p + 4) (load32 m p)

-- A `bool` that is read back.
abbrev pub bool_of : ℕ → Bool
bool_of n = not (n == 0)

module _ (b : Buffer) (ofs : ℕ) (key : List ℕ) where
  unfoldable pub find_key : Outcome (Option (ℕ × Tag))
  find_key = get_impl b ofs key (djb2_hash key) false

  -- Lines 496 to 522: the address of a value of type `t`.
  unfoldable pub get_fixed : Tag → Outcome ℕ
  unfolding find_key
  get_fixed t = do
    r ← find_key
    expect "Type mismatch or not found" "Type mismatch or not found" t r

  unfoldable pub get_i64 : Outcome (List ℕ)
  unfolding get_fixed
  get_i64 = do p ← get_fixed int64; ok (read_bytes b.m_data p 8)

  unfoldable pub get_f64 : Outcome (List ℕ)
  unfolding get_fixed
  get_f64 = do p ← get_fixed float64; ok (read_bytes b.m_data p 8)

  unfoldable pub get_bool : Outcome Bool
  unfolding get_fixed
  get_bool = do p ← get_fixed bool; ok (bool_of (b.m_data.byte p))

  unfoldable pub get_str : Outcome (List ℕ)
  unfolding find_key
  get_str = do
    r ← find_key
    p ← expect "Key not found" "Type mismatch" string r
    ok (sized_bytes b.m_data p)

  unfoldable pub get_obj : Outcome ℕ
  unfolding find_key
  get_obj = do r ← find_key; expect "Type mismatch" "Type mismatch" object r

  unfoldable pub get_arr : Outcome ℕ
  unfolding find_key
  get_arr = do r ← find_key; expect "Type mismatch" "Type mismatch" array r

  -- The first call of `get_impl`, with hash 0, is made for nothing but has to return; what is not
  -- there, or is no byte string, reads as no bytes.
  unfoldable pub get_bytes : Outcome (List ℕ)
  unfolding find_key
  get_bytes = do
    _ ← get_impl b ofs key 0 false
    r ← find_key
    ok (elim r [
      | none ↦ []
      | some (p, t) ↦ if same_tag t bytes then sized_bytes b.m_data p else []
    ])

  -- The variable `t` is not initialised, and `get_impl` sets it only if the key is there: to return it
  -- is undefined if the key is not.
  unfoldable pub get_type : Outcome Tag
  unfolding find_key
  get_type = do r ← find_key; elim r [ none ↦ undefined | some (p, t) ↦ ok t ]
