-- ===== src/Buffer/Object/Arranged.antt =====
-- The members of an object that was filled, in the order of their keys.
use lite3_cpp.Base.{
  ℕ, ◌+◌, ◌^◌, ◌<◌, ◌≡◌, refl, ap, subst, false, List, [], ◌∷◌, length, arith, if◌then◌else◌,
  Bool-cases, inl, inr,
}
use lite3_cpp.Node.{string, code, of_code}
use lite3_cpp.Node.Head.{SameHead, SameHead-trans}
use lite3_cpp.Outcome.{ok}
use lite3_cpp.Buffer.State.{Buffer}
use lite3_cpp.Buffer.Compare.Order.{compare_keys}
use lite3_cpp.Buffer.Search.{is_lt}
use lite3_cpp.Buffer.Search.Table.{Entry, position, insert_at, length-insert_at}
use lite3_cpp.Buffer.Tree.PutIn.{put_in}
use lite3_cpp.Buffer.Set.Puts.{placed}
use lite3_cpp.Buffer.Map.{IsMap}
use lite3_cpp.Buffer.Object.{set_str}
use lite3_cpp.Buffer.Object.Leaf.{member}
use lite3_cpp.Buffer.Object.Many.{Members, put_all, Short}
use lite3_cpp.Buffer.Object.Sized.{member_entry, set_value-SetsMember}
use lite3_cpp.Buffer.Object.Fill.{DistinctHashes, NewHashes, NewHashes-put_in, room_for}

-- A member at its place: behind those of smaller keys.
unfoldable pub put_member : List ℕ → List ℕ → Members → Members
put_member k val [] = (k, val) ∷ []
put_member k val ((l, w) ∷ kvs) =
    if is_lt (compare_keys (member l) (member k))
    then (l, w) ∷ put_member k val kvs
    else (k, val) ∷ (l, w) ∷ kvs

-- The members one after the other.
unfoldable pub arrange : Members → Members → Members
arrange [] before = before
arrange ((k, val) ∷ kvs) before = arrange kvs (put_member k val before)

-- Entries of strings under the keys of members.
abbrev pub Lists : List Entry → Members → Type 0
Lists [] [] = Unit
Lists [] (kv ∷ kvs) = ⊥
Lists (e ∷ es) [] = ⊥
Lists (e ∷ es) ((k, val) ∷ kvs) =
    (e.key ≡ member k) × (e.type ≡ string) × (e.val ≡ val) × Lists es kvs

Lists-put_in :
    (k val : List ℕ) (at : ℕ) (es : List Entry) (kvs : Members)
    → Lists es kvs
    → Lists (put_in (placed (member_entry k val string) at) es) (put_member k val kvs)
unfolding put_member insert_at position
Lists-put_in k val at [] [] h = (refl, refl, refl, tt)
Lists-put_in k val at [] (kv ∷ kvs) h = absurd h
Lists-put_in k val at (e ∷ es) [] h = absurd h
Lists-put_in k val at (e ∷ es) ((l, w) ∷ kvs) h =
    let same : is_lt (compare_keys e.key (member k)) ≡ is_lt (compare_keys (member l) (member k)) =
      ap (λ j. is_lt (compare_keys j (member k))) h.0 in
    elim (Bool-cases (is_lt (compare_keys (member l) (member k)))) [
      | inl lt ↦ rw (same, lt) (h.0, h.1, h.2, Lists-put_in k val at es kvs h.3)
      | inr other ↦ rw (same, other) (refl, refl, refl, h)
    ]

-- The calls return, and the entries list the members, each at its place.
pub put_all-Lists :
    (a : ℕ) (kvs : Members) (b : Buffer) (es : List Entry) (h : ℕ) (before : Members)
    → IsMap b false a es h
    → DistinctHashes kvs
    → Short kvs
    → NewHashes es kvs
    → length es + length kvs < 4 ^ 8
    → b.m_used_size + room_for h kvs + 3 < 2 ^ 32
    → Lists es before
    → (b' : Buffer) × (es' : List Entry) × (put_all b a kvs ≡ ok b')
      × IsMap b' false a es' (h + length kvs)
      × Lists es' (arrange kvs before)
      × (length es' ≡ length es + length kvs)
      × SameHead b.m_data b'.m_data a
unfolding put_all room_for arrange
put_all-Lists a [] b es h before map' apart short free few fits listed =
    (b, es, refl, subst (IsMap b false a es) (omega arith) map', listed, omega arith, (refl, refl))
put_all-Lists a ((k, val) ∷ kvs) b es h before map' apart short free few fits listed =
    let known : of_code (code string) ≡ string = unfold of_code code in refl in
    let fits_byte : code string < 256 = unfold code in omega arith in
    let s =
      set_value-SetsMember b a es h map' k short.0.0 free.0 val string (omega arith) known fits_byte
        (λ x. cc) short.0.1 (omega arith) in
    let e = placed (member_entry k val string) s.at in
    let (b', es', all, map₁, listed', counted, head) =
      put_all-Lists a kvs s.buffer (put_in e es) (h + 1) (put_member k val before) s.map' apart.1
        short.1 (NewHashes-put_in es k e (position (member k) es) kvs refl apart.0 free.1)
        (omega (arith, length-insert_at (position (member k) es) e es)) (omega (arith, s.spent))
        (Lists-put_in k val s.at es before listed) in
    let returned : set_str b a k val ≡ ok s.buffer = unfold set_str in s.returned in
    (
      b',
      es',
      rw returned all,
      subst (IsMap b' false a es') (omega arith) map₁,
      listed',
      omega (arith, counted, length-insert_at (position (member k) es) e es),
      SameHead-trans b.m_data s.buffer.m_data b'.m_data a s.head head,
    )
