-- ===== src/Json/Filled.antt =====
-- The text of an object that was filled with strings.
use lite3_cpp.Base.{
  ℕ, ◌+◌, ◌^◌, ◌<◌, ◌≡◌, refl, sym, ◌∙◌, ap, subst, ◌≤◌, ◌%◌, false, List, [], ◌∷◌, All, none, some,
  length, arith,
}
use lite3_cpp.Node.{object, code, of_code, node_size, tag}
use lite3_cpp.Outcome.{ok, ◌>>=◌}
use lite3_cpp.Buffer.State.{new, init_structure, init_object}
use lite3_cpp.Buffer.Search.Table.{Entry}
use lite3_cpp.Buffer.Tree.Frame.{Spans-address}
use lite3_cpp.Buffer.Map.{IsMap, init_structure-IsMap}
use lite3_cpp.Buffer.Object.New.{init_structure-LeafIn}
use lite3_cpp.Buffer.Object.Many.{Members, put_all, Short}
use lite3_cpp.Buffer.Object.Fill.{room_for-many, DistinctHashes, NewHashes-nothing, room_for}
use lite3_cpp.Buffer.Object.Arranged.{arrange, Lists, put_all-Lists}
use lite3_cpp.Iterator.Maps.{IsMap-low, IsMap-ValuesBelow}
use lite3_cpp.Json.{Yyjson}
use lite3_cpp.Json.Print.{until_null, to_json_string}
use lite3_cpp.Json.Members.{IsScalar, with_members, to_json_string-Tree}

module _ (y : Yyjson) where
  -- An object with a string for each member, in their order.
  abbrev pub with_strings : Members → y.MutVal → y.MutVal
  with_strings [] obj = obj
  with_strings ((k, val) ∷ kvs) obj =
      with_strings kvs (y.obj_add obj (until_null k) (y.mut_str val))

  with_members-Lists :
      (es : List Entry) (kvs : Members) (obj : y.MutVal)
      → Lists es kvs
      → with_members y es obj ≡ with_strings kvs obj
  with_members-Lists [] [] obj h = refl
  with_members-Lists [] (kv ∷ kvs) obj h = absurd h
  with_members-Lists (e ∷ es) [] obj h = absurd h
  with_members-Lists (e ∷ es) ((k, val) ∷ kvs) obj h =
      simp (
        h.0,
        h.1,
        h.2,
        with_members-Lists es kvs (y.obj_add obj (until_null k) (y.mut_str val)) h.3,
      )

Lists-IsScalar :
    (es : List Entry) (kvs : Members) → Lists es kvs → All (λ (e : Entry). IsScalar e.type) es
Lists-IsScalar [] kvs h = tt
Lists-IsScalar (e ∷ es) [] h = absurd h
Lists-IsScalar (e ∷ es) (kv ∷ kvs) h = (rw h.1 tt, Lists-IsScalar es kvs h.3)

new_used : new.m_used_size ≡ 0
unfolding new
new_used = refl

object_tag : of_code (code object % 2 ^ 8) ≡ object
unfolding of_code code
object_tag = refl

module _ (y : Yyjson) (kvs : Members) (apart : DistinctHashes kvs) (short : Short kvs)
    (fits : node_size + room_for 1 kvs + 3 < 2 ^ 32) where
  -- For every yyjson: when members whose keys have fewer than 63 characters and different hashes
  -- and whose strings are shorter than 2^32 are put by `set_str` into the object that `init_object`
  -- makes in an empty buffer, where their entries and the nodes that they may take (`room_for`) end
  -- below 2^32, every call returns, and `to_json_string` then returns what yyjson writes of an
  -- object with one string for each member, in the order of the keys' hashes, under the key up to
  -- its first null, or `{}` if yyjson writes nothing.
  pub to_json_string-put_all :
      (fuel : ℕ)
      → length kvs < fuel
      → (do b ← put_all (init_object new) 0 kvs; to_json_string y fuel b 0)
        ≡ ok (elim (y.write (with_strings y (arrange kvs []) y.mut_obj)) [
          | none ↦ b'{' ∷ b'}' ∷ []
          | some json_str ↦ json_str
        ])
  unfolding init_object
  to_json_string-put_all fuel enough =
      let made = init_structure new object in
      let (leaf, first_generation, root_tag, first_size, used) =
        init_structure-LeafIn new object false in
      let at₀ : IsMap made false 0 [] 1 =
        subst (λ x. IsMap made false x [] 1) new_used (init_structure-IsMap new object false) in
      let (b, es, returned, map', listed, counted, head) =
        put_all-Lists 0 kvs made [] 1 [] at₀ apart short (NewHashes-nothing kvs)
          (omega (arith, room_for-many kvs 1)) (omega (arith, used, new_used)) tt in
      let plain =
        subst (All (λ (e : Entry). IsScalar e.type)) (sym map'.listed)
          (Lists-IsScalar es (arrange kvs []) listed) in
      let few' : length es + 1 < 4 ^ 10 = omega (arith, counted, room_for-many kvs 1) in
      let typed : tag b.m_data 0 ≡ object =
        head.0 ∙ subst (λ x. tag made.m_data x ≡ object) new_used (root_tag ∙ object_tag) in
      rw returned (
        to_json_string-Tree y b map'.tree fuel map'.at typed
          (omega (
            arith,
            Spans-address (λ x k. x + k ≤ b.m_used_size) false map'.tree map'.stored.inside,
            map'.stored.fits,
          ))
          map'.stored.held (IsMap-ValuesBelow b 0 es (1 + length kvs) map' few')
          (IsMap-low b 0 es (1 + length kvs) map' few') plain
          (omega (arith, counted, ap (λ xs. length xs) map'.listed))
        ∙ ap (λ v. ok (elim (y.write v) [ none ↦ b'{' ∷ b'}' ∷ [] | some json_str ↦ json_str ]))
            (ap (λ xs. with_members y xs y.mut_obj) map'.listed
              ∙ with_members-Lists y es (arrange kvs []) y.mut_obj listed))
