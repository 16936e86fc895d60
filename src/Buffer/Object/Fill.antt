-- ===== src/Buffer/Object/Fill.antt =====
-- Any number of members put into an object one after the other, and what is then read.
use lite3_cpp.Base.{
  ◌≤◌, ◌-◌, ℕ, ◌+◌, ◌*◌, ◌^◌, ◌<◌, ◌≡◌, ◌≢◌, refl, sym, ◌∙◌, ap, subst, false, List, [], ◌∷◌, All,
  length, arith,
}
use lite3_cpp.Node.{string, object, node_size}
use lite3_cpp.Outcome.{ok, throws, ◌>>=◌}
use lite3_cpp.Hash.{djb2_hash}
use lite3_cpp.Buffer.State.{Buffer, init_structure, init_object}
use lite3_cpp.Buffer.Entry.{value_len}
use lite3_cpp.Buffer.Search.Table.{Entry, position, lookup, insert_at, length-insert_at}
use lite3_cpp.Buffer.Tree.PutIn.{put_in, HashFree, All-insert_at}
use lite3_cpp.Buffer.Set.Puts.{placed}
use lite3_cpp.Buffer.Map.{IsMap, IsMap-Shows, init_structure-IsMap}
use lite3_cpp.Buffer.Object.New.{init_structure-LeafIn}
use lite3_cpp.Buffer.Object.{get_str}
use lite3_cpp.Buffer.Object.Leaf.{member, get_str-lookup}
use lite3_cpp.Buffer.Object.Many.{Members, put_all, value_of, value_of-step, NotIn, Short}
use lite3_cpp.Buffer.Object.Sized.{member_entry, set_str-member}

-- The hashes of the keys are different.
abbrev pub HashNotIn : List ℕ → Members → Type 0
HashNotIn key kvs = All (λ (kv : List ℕ × List ℕ). djb2_hash kv.0 ≢ djb2_hash key) kvs

abbrev pub DistinctHashes : Members → Type 0
DistinctHashes [] = Unit
DistinctHashes ((k, val) ∷ kvs) = HashNotIn k kvs × DistinctHashes kvs

-- None of them is that of an entry.
abbrev pub NewHashes : List Entry → Members → Type 0
NewHashes es kvs = All (λ (kv : List ℕ × List ℕ). HashFree (djb2_hash kv.0) es) kvs

-- The bytes that the members take at most in a tree of `h` levels: their entries, and for each of them
-- a node on every level and two above.
unfoldable pub room_for : ℕ → Members → ℕ
room_for h [] = 0
room_for h ((k, val) ∷ kvs) =
    99 * (h + 2) + (length k + 2 + value_len string (length val)) + room_for (h + 1) kvs

-- Each member after the first 998 takes at least 99000 bytes, so that no more than some forty thousand
-- find room.
pub room_for-many :
    (kvs : Members) (h : ℕ) → 99000 * length kvs ≤ room_for h kvs + 99000 * (1000 - h)
unfolding room_for
room_for-many [] h = omega arith
room_for-many ((k, val) ∷ kvs) h = omega (arith, room_for-many kvs (h + 1))

NotIn-HashNotIn : (key : List ℕ) (kvs : Members) → HashNotIn key kvs → NotIn key kvs
NotIn-HashNotIn key [] h = tt
NotIn-HashNotIn key ((k, val) ∷ kvs) h = ((λ e. h.0 (ap djb2_hash e)), NotIn-HashNotIn key kvs h.1)

pub NewHashes-put_in :
    (es : List Entry) (key : List ℕ) (e : Entry) (i : ℕ) (kvs : Members)
    → e.key.hash ≡ djb2_hash key
    → HashNotIn key kvs
    → NewHashes es kvs
    → NewHashes (insert_at i e es) kvs
NewHashes-put_in es key e i [] same out free = tt
NewHashes-put_in es key e i ((k, val) ∷ kvs) same out free = (
  All-insert_at (λ (d : Entry). d.key.hash ≢ djb2_hash k) i e es (λ h. out.0 (sym h ∙ same)) free.0,
  NewHashes-put_in es key e i kvs same out.1 free.1,
)

module _ (a : ℕ) (key : List ℕ) where
  pub put_all-IsMap :
      (kvs : Members) (b : Buffer) (es : List Entry) (h : ℕ)
      → IsMap b false a es h
      → DistinctHashes kvs
      → Short kvs
      → NewHashes es kvs
      → length es + length kvs < 4 ^ 8
      → b.m_used_size + room_for h kvs + 3 < 2 ^ 32
      → (do b' ← put_all b a kvs; get_str b' a key) ≡ value_of key (get_str b a key) kvs
  unfolding put_all value_of room_for
  put_all-IsMap [] b es h map apart short free few fits = refl
  put_all-IsMap ((k, val) ∷ kvs) b es h map apart short free few fits =
      let (b', at, returned, map', used, here, elsewhere) =
        set_str-member b a es h map k short.0.0 free.0 val (omega arith) short.0.1 (omega arith) in
      let es' = put_in (placed (member_entry k val string) at) es in
      let rest : (do b₁ ← put_all b' a kvs; get_str b₁ a key)
          ≡ value_of key (get_str b' a key) kvs =
        put_all-IsMap kvs b' es' (h + 1) map' apart.1 short.1
          (NewHashes-put_in es k (placed (member_entry k val string) at) (position (member k) es)
            kvs refl apart.0 free.1)
          (omega (
            arith,
            length-insert_at (position (member k) es) (placed (member_entry k val string) at) es,
          ))
          (omega (arith, used)) in
      rw returned (
        rest
        ∙ value_of-step key k val (get_str b a key) (get_str b' a key) kvs
            (NotIn-HashNotIn k kvs apart.0) (λ e. subst (λ x. get_str b' a x ≡ ok val) e here)
            (λ differs. (elsewhere key differs).2))

pub NewHashes-nothing : (kvs : Members) → NewHashes [] kvs
NewHashes-nothing [] = tt
NewHashes-nothing (kv ∷ kvs) = (tt, NewHashes-nothing kvs)

module _ (b : Buffer) (kvs : Members) (apart : DistinctHashes kvs) (short : Short kvs)
    (fits : b.m_used_size + node_size + room_for 1 kvs + 3 < 2 ^ 32) where
  -- Members whose keys have fewer than 63 characters and different hashes and whose strings are
  -- shorter than 2^32 are put by `set_str` into the object that `init_object` makes in any buffer,
  -- where the members' entries and, for each member, 99 bytes for every level that the tree may
  -- have by then and two more (`room_for`) end below 2^32: every call returns, and then `get_str`
  -- returns for each key its string, and throws `Key not found` for every other key.
  pub get_str-put_all_any :
      (key : List ℕ)
      → (do b' ← put_all (init_object b) b.m_used_size kvs; get_str b' b.m_used_size key)
        ≡ value_of key (throws "Key not found") kvs
  unfolding init_object
  get_str-put_all_any key =
      let made = init_structure-IsMap b object false in
      let (leaf, first_generation, object_tag, first_size, used) =
        init_structure-LeafIn b object false in
      put_all-IsMap b.m_used_size key kvs (init_structure b object) [] 1 made apart short
        (NewHashes-nothing kvs) (omega (arith, room_for-many kvs 1)) (omega (arith, used))
      ∙ ap (λ r. value_of key r kvs)
          (get_str-lookup (init_structure b object) b.m_used_size []
              (IsMap-Shows (init_structure b object) false b.m_used_size [] 1 made) key
            ∙ (unfold lookup in refl))
