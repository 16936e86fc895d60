-- ===== src/Buffer/Array/Fill.antt =====
-- Any number of strings appended to an array one after the other, and what is then read.
use lite3_cpp.Base.{
  ℕ, ◌+◌, ◌-◌, ◌*◌, ◌^◌, ◌<◌, ◌≤◌, ◌≡◌, refl, subst₂, ◌∙◌, true, List, [], ◌∷◌, arith,
  if◌then◌else◌, length, ltb, Bool-cases, inl, inr,
}
use lite3_cpp.Node.{string, array, node_size}
use lite3_cpp.Outcome.{Outcome, ok, ◌>>=◌}
use lite3_cpp.Buffer.State.{Buffer, init_structure, init_array}
use lite3_cpp.Buffer.Entry.{value_len}
use lite3_cpp.Buffer.Search.Table.{Entry}
use lite3_cpp.Buffer.Map.{IsMap-Shows, init_structure-IsMap}
use lite3_cpp.Buffer.Object.New.{init_structure-LeafIn}
use lite3_cpp.Buffer.Array.{arr_get_str}
use lite3_cpp.Buffer.Array.Leaf.{arr_get_str-lookup}
use lite3_cpp.Buffer.Array.Many.{append_all, element_of, element_of-step, Short}
use lite3_cpp.Buffer.Array.Sized.{IsSeq, IsSeq-past, arr_append_str-IsSeq}

-- The bytes that the strings take at most in a tree of `h` levels: their entries, and for each of them
-- a node on every level and two above.
unfoldable pub room_for : ℕ → List (List ℕ) → ℕ
room_for h [] = 0
room_for h (val ∷ vals) = 99 * (h + 2) + value_len string (length val) + room_for (h + 1) vals

-- Each string after the first 998 takes at least 99000 bytes, so that no more than some forty thousand
-- find room.
room_for-many :
    (vals : List (List ℕ)) (h : ℕ) → 99000 * length vals ≤ room_for h vals + 99000 * (1000 - h)
unfolding room_for
room_for-many [] h = omega arith
room_for-many (val ∷ vals) h = omega (arith, room_for-many vals (h + 1))

module _ (a i : ℕ) where
  append_all-IsSeq :
      (vals : List (List ℕ)) (b : Buffer) (es : List Entry) (h n : ℕ)
      → IsSeq b a es h n
      → n + length vals < 4 ^ 8
      → Short vals
      → b.m_used_size + room_for h vals + 3 < 2 ^ 32
      → (do b' ← append_all b a vals; arr_get_str b' a i)
        ≡ (if ltb i n then arr_get_str b a i else element_of vals (i - n))
  unfolding append_all room_for element_of
  append_all-IsSeq [] b es h n seq few short fits = elim (Bool-cases (ltb i n)) [
    | inl there ↦ rw there refl
    | inr past ↦ rw past (
        arr_get_str-lookup b a es i (IsMap-Shows b true a es h seq.map)
        ∙ rw (IsSeq-past b a i es h n seq (ground arith)) refl)
  ]
  append_all-IsSeq (val ∷ vals) b es h n seq few short fits =
      let (b', es', returned, seq', used, read) =
        arr_append_str-IsSeq b a es h n seq val short.0 (omega arith) (omega arith) in
      let rest : (do b₁ ← append_all b' a vals; arr_get_str b₁ a i)
          ≡ (if ltb i (n + 1) then arr_get_str b' a i else element_of vals (i - (n + 1))) =
        append_all-IsSeq vals b' es' (h + 1) (n + 1) seq' (omega arith) short.1
          (omega (arith, used)) in
      rw returned
        (rest ∙ element_of-step i n val vals (arr_get_str b a i) (arr_get_str b' a i) (read i))

-- The calls return, and the array has an element for each string.
pub append_all-returns :
    (a : ℕ) (vals : List (List ℕ)) (b : Buffer) (es : List Entry) (h n : ℕ)
    → IsSeq b a es h n
    → n + length vals < 4 ^ 8
    → Short vals
    → b.m_used_size + room_for h vals + 3 < 2 ^ 32
    → (b' : Buffer) × (es' : List Entry) × (append_all b a vals ≡ ok b')
      × IsSeq b' a es' (h + length vals) (n + length vals)
      × (b'.m_used_size ≤ b.m_used_size + room_for h vals)
unfolding append_all room_for
append_all-returns a [] b es h n seq few short fits =
    (b, es, refl, subst₂ (IsSeq b a es) (omega arith) (omega arith) seq, omega arith)
append_all-returns a (val ∷ vals) b es h n seq few short fits =
    let (b₁, es₁, returned, seq₁, used, read) =
      arr_append_str-IsSeq b a es h n seq val short.0 (omega arith) (omega arith) in
    let (b', es', all, seq', used') =
      append_all-returns a vals b₁ es₁ (h + 1) (n + 1) seq₁ (omega arith) short.1
        (omega (arith, used)) in
    (
      b',
      es',
      rw returned all,
      subst₂ (IsSeq b' a es') (omega arith) (omega arith) seq',
      omega (arith, used, used'),
    )

pub init_structure-IsSeq : (b : Buffer) → IsSeq (init_structure b array) b.m_used_size [] 1 0
init_structure-IsSeq b =
    let (leaf, first_generation, array_tag, first_size, used) =
      init_structure-LeafIn b array true in
    record {
      map = init_structure-IsMap b array true;
      counted = first_size;
      many = refl;
      below = tt;
    }

module _ (b : Buffer) (vals : List (List ℕ)) (short : Short vals)
    (fits : b.m_used_size + node_size + room_for 1 vals + 3 < 2 ^ 32) where
  -- Strings shorter than 2^32 are appended by `arr_append_str` to the array that `init_array` makes
  -- in any buffer, where their entries and, for each string, 99 bytes for every level that the tree
  -- may have by then and two more (`room_for`) end below 2^32: every call returns, and then
  -- `arr_get_str` returns each string under its index, and throws `Type mismatch` under every index
  -- past the last.
  pub arr_get_str-append_all_any :
      (i : ℕ)
      → (do b' ← append_all (init_array b) b.m_used_size vals; arr_get_str b' b.m_used_size i)
        ≡ element_of vals i
  unfolding init_array
  arr_get_str-append_all_any i =
      let (leaf, first_generation, array_tag, first_size, used) =
        init_structure-LeafIn b array true in
      let made = init_structure-IsSeq b in
      append_all-IsSeq b.m_used_size i vals (init_structure b array) [] 1 0 made
        (omega (arith, room_for-many vals 1)) short (omega (arith, used))
      ∙ from_zero (arr_get_str (init_structure b array) b.m_used_size i)
    where
      from_zero :
          (before : Outcome (List ℕ))
          → (if ltb i 0 then before else element_of vals (i - 0)) ≡ element_of vals i
      from_zero before = let same : i - 0 ≡ i = omega arith in rw same (ground arith)
