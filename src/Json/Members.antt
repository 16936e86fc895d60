-- ===== src/Json/Members.antt =====
-- The text of an object whose members are no objects and no arrays.
use lite3_cpp.Base.{
  ℕ, zero, suc, ◌+◌, ◌<◌, ◌≤◌, ◌≡◌, refl, sym, ◌∙◌, ap, subst, true, false, List, [], ◌∷◌, none,
  some, All, arith, leb, if◌then◌else◌, length, get_or,
}
use mathlib.Core.List.{map}
use lite3_cpp.Memory.{Memory, read_bytes}
use lite3_cpp.Memory.Frame.{TextAt}
use lite3_cpp.Node.{
  Tag, null, bool, int64, float64, bytes, string, object, array, invalid, count, other, of_code,
  node_size, tag,
}
use lite3_cpp.Outcome.{ok}
use lite3_cpp.Hex.{hex_encode}
use lite3_cpp.Buffer.State.{Buffer}
use lite3_cpp.Buffer.Entry.{has_length, fixed_len}
use lite3_cpp.Buffer.Search.Table.{Entry}
use lite3_cpp.Buffer.Search.Held.{value_at}
use lite3_cpp.Buffer.Object.{bool_of}
use lite3_cpp.Buffer.Object.Leaf.{sized_value, fixed_value}
use lite3_cpp.Buffer.Tree.{Tree, address, height, entries}
use lite3_cpp.Buffer.Tree.Held.{TreeAt, ValuesBelow}
use lite3_cpp.Buffer.Tree.Entries.{IsHeld, entries-IsHeld}
use lite3_cpp.Iterator.{begin, items}
use lite3_cpp.Iterator.Walk.{items-begin}
use lite3_cpp.Iterator.Step.{item}
use lite3_cpp.Json.{Yyjson}
use lite3_cpp.Json.Print.{until_null, add_members, to_yyjson_val, print_root, to_json_string}

-- A type that holds no node.
abbrev pub IsScalar : Tag → Type 0
IsScalar null = Unit
IsScalar bool = Unit
IsScalar int64 = Unit
IsScalar float64 = Unit
IsScalar bytes = Unit
IsScalar string = Unit
IsScalar _ = ⊥

module _ (y : Yyjson) where
  -- The value that is printed for data of a type.
  abbrev pub scalar : Tag → List ℕ → y.MutVal
  scalar bool val = y.mut_bool (bool_of (get_or val 0 0))
  scalar int64 val = y.mut_int val
  scalar float64 val = y.mut_real val
  scalar bytes val = y.mut_str (hex_encode val)
  scalar string val = y.mut_str val
  scalar _ val = y.mut_null

  -- An object with a member for each entry, in their order.
  abbrev pub with_members : List Entry → y.MutVal → y.MutVal
  with_members [] obj = obj
  with_members (e ∷ es) obj =
      with_members es (y.obj_add obj (until_null e.key.text) (scalar e.type e.val))

  first_byte :
      (m : Memory) (a : ℕ) (s : List ℕ) → length s ≡ 1 → TextAt m a s → m.byte a ≡ get_or s 0 0
  first_byte m a [] h t = absurd (omega arith)
  first_byte m a (c ∷ s) h t = t.0

  module _ (b : Buffer) (fuel : ℕ) (e : Entry) (held : IsHeld b.m_data e) where
    typed : (t : Tag) → e.type ≡ t → of_code (b.m_data.byte (value_at false e)) ≡ t
    typed t h = ap of_code held.0.value.type_byte ∙ held.0.known ∙ h

    in_data : leb b.m_data.size (value_at false e) ≡ false
    in_data = ground (arith, held.1)

    to_yyjson_val-as :
        (t : Tag)
        → e.type ≡ t
        → IsScalar t
        → to_yyjson_val y (suc fuel) b (value_at false e) ≡ ok (scalar t e.val)
    unfolding to_yyjson_val
    to_yyjson_val-as null h s = rw (in_data, typed null h) refl
    to_yyjson_val-as bool h s =
        let one : length e.val ≡ 1 = held.0.sized (ap has_length h) ∙ ap fixed_len h in
        let byte = first_byte b.m_data (value_at false e + 1) e.val one (
          subst
            (λ c.
              TextAt b.m_data (if c then value_at false e + 1 + 4 else value_at false e + 1) e.val)
            (ap has_length h) held.0.value.text) in
        rw (in_data, typed bool h, byte) refl
    to_yyjson_val-as int64 h s =
        rw (in_data, typed int64 h)
          (ap (λ v. ok (y.mut_int v))
            (ap (read_bytes b.m_data (value_at false e + 1)) (sym (ap fixed_len h))
              ∙ fixed_value b.m_data false e held.0 (ap has_length h)))
    to_yyjson_val-as float64 h s =
        rw (in_data, typed float64 h)
          (ap (λ v. ok (y.mut_real v))
            (ap (read_bytes b.m_data (value_at false e + 1)) (sym (ap fixed_len h))
              ∙ fixed_value b.m_data false e held.0 (ap has_length h)))
    to_yyjson_val-as bytes h s =
        rw (in_data, typed bytes h)
          (ap (λ v. ok (y.mut_str (hex_encode v)))
            (sized_value b.m_data false e held.0 (ap has_length h)))
    to_yyjson_val-as string h s =
        rw (in_data, typed string h)
          (ap (λ v. ok (y.mut_str v)) (sized_value b.m_data false e held.0 (ap has_length h)))
    to_yyjson_val-as object h s = absurd s
    to_yyjson_val-as array h s = absurd s
    to_yyjson_val-as invalid h s = absurd s
    to_yyjson_val-as count h s = absurd s
    to_yyjson_val-as (other n) h s = absurd s

  -- A member for each entry.
  add_members-map :
      (b : Buffer) (fuel : ℕ) (es : List Entry) (obj : y.MutVal)
      → All (IsHeld b.m_data) es
      → All (λ (e : Entry). IsScalar e.type) es
      → add_members y (to_yyjson_val y (suc fuel) b) (map item es) obj ≡ ok (with_members es obj)
  unfolding add_members
  add_members-map b fuel [] obj held plain = refl
  add_members-map b fuel (e ∷ es) obj held plain =
      rw (to_yyjson_val-as b fuel e held.0 e.type refl plain.0) (
        add_members-map b fuel es (y.obj_add obj (until_null e.key.text) (scalar e.type e.val))
          held.1 plain.1)

  pub to_json_string-Tree :
      (b : Buffer) (t : Tree) (fuel : ℕ)
      → address t ≡ 0
      → tag b.m_data 0 ≡ object
      → node_size ≤ b.m_data.size
      → TreeAt b.m_data false t
      → ValuesBelow b.m_data.size t
      → height t ≤ 10
      → All (λ (e : Entry). IsScalar e.type) (entries t)
      → length (entries t) < fuel
      → to_json_string y fuel b 0
        ≡ ok (elim (y.write (with_members (entries t) y.mut_obj)) [
          | none ↦ b'{' ∷ b'}' ∷ []
          | some json_str ↦ json_str
        ])
  unfolding to_json_string print_root
  to_json_string-Tree b t zero root is_object some_data held inside low plain enough =
      absurd (omega arith)
  to_json_string-Tree b t (suc fuel) root is_object some_data held inside low plain enough =
      let has_root : leb node_size b.m_data.size ≡ true = ground arith in
      let walked : items b (suc fuel) (begin b 0) ≡ ok (map item (entries t)) =
        subst (λ a. items b (suc fuel) (begin b a) ≡ ok (map item (entries t))) root
          (items-begin b (omega arith) t (suc fuel) held inside low enough) in
      rw
        (
          has_root,
          is_object,
          walked,
          add_members-map b fuel (entries t) y.mut_obj (entries-IsHeld b.m_data t held inside)
              plain,
        )
        refl
