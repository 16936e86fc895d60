-- ===== src/Buffer/Array/Many.antt =====
-- Up to seven strings appended to a new array one after the other, and what is then read.
use lite3_cpp.Base.{
  ℕ, zero, suc, ◌+◌, ◌-◌, ◌^◌, ◌<◌, ◌≤◌, ◌≡◌, refl, ◌∙◌, sym, ap, true, List, [], ◌∷◌, All, arith,
  if◌then◌else◌, length, ltb, ◌==◌, Bool-cases, inl, inr,
}
use lite3_cpp.Node.{string, array, node_size}
use lite3_cpp.Outcome.{Outcome, ok, throws, ◌>>=◌}
use lite3_cpp.Buffer.State.{Buffer, init_structure, init_array}
use lite3_cpp.Buffer.Entry.{value_len}
use lite3_cpp.Buffer.Search.Table.{Entry, lookup}
use lite3_cpp.Buffer.Shows.{LeafIn-Shows}
use lite3_cpp.Buffer.Object.New.{init_structure-LeafIn}
use lite3_cpp.Buffer.Array.{arr_append_str, arr_get_str}
use lite3_cpp.Buffer.Array.Leaf.{arr_get_str-lookup}
use lite3_cpp.Buffer.Array.Append.{IsArray, arr_append_str-IsArray, arr_get_str-arr_append_str}

-- A client's calls of `arr_append_str`, one for each string.
unfoldable pub append_all : Buffer → ℕ → List (List ℕ) → Outcome Buffer
append_all b a [] = ok b
append_all b a (val ∷ vals) = do b' ← arr_append_str b a val; append_all b' a vals

-- Element `i` of the strings.
unfoldable pub element_of : List (List ℕ) → ℕ → Outcome (List ℕ)
element_of [] i = throws "Type mismatch"
element_of (val ∷ vals) zero = ok val
element_of (val ∷ vals) (suc i) = element_of vals i

abbrev pub Short : List (List ℕ) → Type 0
Short vals = All (λ val. length val < 2 ^ 32) vals

-- The bytes of the elements' entries.
unfoldable pub total_len : List (List ℕ) → ℕ
total_len [] = 0
total_len (val ∷ vals) = value_len string (length val) + total_len vals

element_of-zero :
    (val : List ℕ) (vals : List (List ℕ)) (j : ℕ) → j ≡ 0 → element_of (val ∷ vals) j ≡ ok val
unfolding element_of
element_of-zero val vals j h = rw h refl

element_of-suc :
    (val : List ℕ) (vals : List (List ℕ)) (j k : ℕ)
    → j ≡ suc k
    → element_of (val ∷ vals) j ≡ element_of vals k
unfolding element_of
element_of-suc val vals j k h = rw h refl

past_the_end :
    (b : Buffer) (a i : ℕ) (es : List Entry)
    → IsArray b a es
    → length es ≤ i
    → arr_get_str b a i ≡ throws "Type mismatch"
past_the_end b a i es inv h =
    arr_get_str-lookup b a es i (LeafIn-Shows b true a es inv.leaf) ∙ rw (inv.ends i h) refl

-- What is read after one element and then the others.
pub element_of-step :
    (i n : ℕ) (val : List ℕ) (vals : List (List ℕ)) (before after : Outcome (List ℕ))
    → after ≡ (if i == n then ok val else before)
    → (if ltb i (n + 1) then after else element_of vals (i - (n + 1)))
      ≡ (if ltb i n then before else element_of (val ∷ vals) (i - n))
element_of-step i n val vals before after h =
    ground (arith, element_of-zero val vals (i - n), element_of-suc val vals (i - n) (i - (n + 1)))

module _ (a i : ℕ) where
  append_all-IsArray :
      (vals : List (List ℕ)) (b : Buffer) (es : List Entry)
      → IsArray b a es
      → length es + length vals ≤ 7
      → Short vals
      → b.m_used_size + total_len vals < 2 ^ 32
      → (do b' ← append_all b a vals; arr_get_str b' a i)
        ≡ (if ltb i (length es) then arr_get_str b a i else element_of vals (i - length es))
  unfolding append_all total_len
  append_all-IsArray [] b es inv room short fits = elim (Bool-cases (ltb i (length es))) [
    | inl there ↦ rw there refl
    | inr past ↦ rw past (past_the_end b a i es inv (ground arith) ∙ (unfold element_of in refl))
  ]
  append_all-IsArray (val ∷ vals) b es inv room short fits =
      let (b', returned, (es', inv', longer), used) =
        arr_append_str-IsArray b a es val inv (omega arith) short.0 (omega arith) in
      let rest : (do b₁ ← append_all b' a vals; arr_get_str b₁ a i)
          ≡ (if ltb i (length es') then arr_get_str b' a i else element_of vals (i - length es')) =
        append_all-IsArray vals b' es' inv' (omega (arith, longer)) short.1 (omega (arith, used)) in
      let read : arr_get_str b' a i ≡ (do b₁ ← arr_append_str b a val; arr_get_str b₁ a i) =
        ap (λ r. r >>= λ b₁. arr_get_str b₁ a i) (sym returned) in
      rw returned (
        rest
        ∙ (rw longer (
            element_of-step i (length es) val vals (arr_get_str b a i) (arr_get_str b' a i) (
              read
              ∙ arr_get_str-arr_append_str b a es val inv (omega arith) short.0 (omega arith) i))))

module _ (b : Buffer) (vals : List (List ℕ)) (few : length vals ≤ 7) (short : Short vals)
    (fits : b.m_used_size + node_size + total_len vals < 2 ^ 32) where
  -- At most seven strings shorter than 2^32 are appended by `arr_append_str` to the array that
  -- `init_array` makes in any buffer, all of it ending below 2^32: every call returns, and then
  -- `arr_get_str` returns each string under its index, and throws `Type mismatch` under every index
  -- past the last.
  pub arr_get_str-append_all :
      (i : ℕ)
      → (do b' ← append_all (init_array b) b.m_used_size vals; arr_get_str b' b.m_used_size i)
        ≡ element_of vals i
  unfolding init_array
  arr_get_str-append_all i =
      let (leaf, first_generation, array_tag, first_size, used) =
        init_structure-LeafIn b array true in
      let made : IsArray (init_structure b array) b.m_used_size [] = record {
        leaf = leaf;
        counted = first_size;
        ends = λ j h. unfold lookup in refl;
      } in
      append_all-IsArray b.m_used_size i vals (init_structure b array) [] made (omega arith) short
        (omega (arith, used))
      ∙ from_zero (arr_get_str (init_structure b array) b.m_used_size i)
    where
      from_zero :
          (before : Outcome (List ℕ))
          → (if ltb i 0 then before else element_of vals (i - 0)) ≡ element_of vals i
      from_zero before = let same : i - 0 ≡ i = omega arith in rw same (ground arith)
