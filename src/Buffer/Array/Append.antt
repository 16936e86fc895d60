-- ===== src/Buffer/Array/Append.antt =====
-- `arr_append_str` at an array that is a leaf with fewer than seven elements.
use lite3_cpp.Base.{
  ℕ, ◌+◌, ◌^◌, ◌<◌, ◌≤◌, ◌≡◌, refl, ◌∙◌, true, false, List, none, some, arith, if◌then◌else◌,
  length, ◌==◌, Bool-cases, inl, inr, u32,
}
use lite3_cpp.Node.{string, code, size}
use lite3_cpp.Outcome.{ok, ◌>>=◌}
use lite3_cpp.Buffer.State.{Buffer}
use lite3_cpp.Buffer.Entry.{value_len}
use lite3_cpp.Buffer.Search.Table.{
  Entry, position, lookup, insert_at, length-insert_at, lookup-insert_at,
}
use lite3_cpp.Buffer.Insert.Leaf.{LeafIn, IsNew}
use lite3_cpp.Buffer.Shows.{LeafIn-Shows}
use lite3_cpp.Buffer.Set.Leaf.{with_key, set_impl-new}
use lite3_cpp.Buffer.Object.Leaf.{of_code-string}
use lite3_cpp.Buffer.Array.{resize_array, arr_append_impl, arr_append_str, arr_get_str}
use lite3_cpp.Buffer.Array.Leaf.{
  index, is_eq-index, size-set_size, resize_array-LeafIn, arr_get_str-lookup,
}

-- An array at `a`: a leaf, its size, which its elements are counted by, and no element from there on.
pub record IsArray (b : Buffer) (a : ℕ) (es : List Entry) : Type 0 where
  pub leaf : LeafIn b true a es
  pub counted : size b.m_data a ≡ length es
  pub ends : (j : ℕ) → length es ≤ j → lookup (index j) es ≡ none

module _ (b : Buffer) (a : ℕ) (es : List Entry) (val : List ℕ) (inv : IsArray b a es)
    (room : length es < 7) (val_fits : length val < 2 ^ 32)
    (addressable : b.m_used_size < 2 ^ 32) where
  abbrev n : ℕ
  n = length es

  abbrev element : Entry
  element = record { key = index n; address = b.m_used_size; type = string; val = val }

  element-IsNew : IsNew true element
  unfolding code
  element-IsNew = record {
    hash_fits = omega arith;
    small = omega arith;
    array = λ h. refl;
    known = of_code-string;
    sized = λ h. cc;
    type_fits = omega arith;
    val_fits = val_fits;
  }

  abbrev appended : Buffer
  appended =
      with_key b true a es element inv.leaf room element-IsNew (inv.ends n (omega arith)) refl
        addressable

  abbrev array : Buffer
  array = resize_array appended a (n + 1)

  abbrev es' : List Entry
  es' = insert_at (position (index n) es) element es

  returned : arr_append_str b a val ≡ ok array
  unfolding arr_append_str arr_append_impl
  returned =
      let stored =
        set_impl-new b true a es element inv.leaf room element-IsNew (inv.ends n (omega arith)) refl
          addressable in
      let index_fits : u32 n ≡ n = omega arith in rw (inv.counted, index_fits, stored.0) refl

  lookup-append :
      (i : ℕ) → lookup (index i) es' ≡ (if n == i then some element else lookup (index i) es)
  lookup-append i =
      lookup-insert_at (index i) element es (inv.ends n (omega arith)) ∙ rw (is_eq-index n i) refl

  array-IsArray : IsArray array a es'
  array-IsArray = record {
    leaf = resize_array-LeafIn appended true a (n + 1) es' (
        (set_impl-new b true a es element inv.leaf room element-IsNew (inv.ends n (omega arith))
          refl addressable).1);
    counted =
        size-set_size appended.m_data a (u32 (n + 1))
        ∙ omega (arith, length-insert_at (position (index n) es) element es);
    ends = λ j h.
        let past : n < j = omega (arith, length-insert_at (position (index n) es) element es) in
        let other : (n == j) ≡ false = ground arith in
        lookup-append j ∙ rw other (inv.ends j (omega arith));
  }

  pub arr_append_str-IsArray :
      (b' : Buffer) × (arr_append_str b a val ≡ ok b')
      × ((es₁ : List Entry) × IsArray b' a es₁ × (length es₁ ≡ length es + 1))
      × (b'.m_used_size ≡ b.m_used_size + value_len string (length val))
  arr_append_str-IsArray = (
    array,
    returned,
    (es', array-IsArray, length-insert_at (position (index n) es) element es),
    omega arith,
  )

  -- At an array that is a leaf of fewer than seven elements, counted by its size and without
  -- elements from there on, in a buffer whose used bytes end below 2^32: `arr_append_str` of a
  -- string shorter than 2^32 returns, `arr_get_str` then returns the string under the index that
  -- was the size, and under every other index returns or throws what it did before.
  pub arr_get_str-arr_append_str :
      (i : ℕ)
      → (do b' ← arr_append_str b a val; arr_get_str b' a i)
        ≡ (if i == length es then ok val else arr_get_str b a i)
  unfolding code
  arr_get_str-arr_append_str i = rw returned (
      arr_get_str-lookup array a es' i (LeafIn-Shows array true a es' array-IsArray.leaf)
      ∙ rw (lookup-append i, arr_get_str-lookup b a es i (LeafIn-Shows b true a es inv.leaf))
          (elim (Bool-cases (n == i)) [
            | inl here ↦ let back : (i == n) ≡ true = ground arith in rw (here, back) refl
            | inr other ↦ let back : (i == n) ≡ false = ground arith in rw (other, back) refl
          ]))
