-- ===== src/Value/Assign.antt =====
-- An assignment to a member through its handle, and the cast of the handle after it.
use lite3_cpp.Base.{ℕ, ◌^◌, ◌<◌, ◌≡◌, refl, false, List, [], none, length}
use lite3_cpp.Outcome.{Outcome, ok, throws, undefined, out_of_fuel, ◌>>=◌, catch}
use lite3_cpp.Buffer.State.{Buffer}
use lite3_cpp.Buffer.Search.Table.{Entry, lookup}
use lite3_cpp.Buffer.Insert.Leaf.{LeafIn}
use lite3_cpp.Buffer.Object.{set_str, set_i64, get_str, get_i64}
use lite3_cpp.Buffer.Object.Leaf.{member}
use lite3_cpp.Buffer.Object.Put.{get_str-set_str, get_i64-set_i64}
use lite3_cpp.Value.{Value, is_empty, to_str, to_i64, zero_word, assign_str, assign_i64}

-- A result is kept by the `try` around the call that gives it.
pub caught-ok :
    {A : Type 0} (r : Outcome Buffer) (f : Buffer → Outcome A) (x d : A)
    → (r >>= f) ≡ ok x
    → (r >>= λ b. catch (f b) (ok d)) ≡ ok x
caught-ok (ok b) f x d h = rw h refl
caught-ok (throws e) f x d h = cc
caught-ok undefined f x d h = cc
caught-ok out_of_fuel f x d h = cc

module _ (v : Value) (b : Buffer) (es : List Entry) (val : List ℕ)
    (keyed : is_empty v.m_key ≡ false) (no_element : v.m_is_array_element ≡ false)
    (inv : LeafIn b false v.m_parent_ofs es) (room : length es < 7) (small : length v.m_key < 63)
    (fresh : lookup (member v.m_key) es ≡ none) (addressable : b.m_used_size < 2 ^ 32) where
  -- At a handle of a member that is no array element, whose parent is an object that is a leaf of
  -- fewer than seven members without its key, the key not empty and of fewer than 63 characters, in
  -- a buffer whose used bytes end below 2^32: assigning a string shorter than 2^32 returns, and the
  -- handle's cast to a string then returns it.
  pub to_str-assign_str : length val < 2 ^ 32 → (do b' ← assign_str v b val; to_str v b') ≡ ok val
  unfolding assign_str to_str
  to_str-assign_str fits =
      rw (keyed, no_element)
        (caught-ok (set_str b v.m_parent_ofs v.m_key val) (λ b'. get_str b' v.m_parent_ofs v.m_key)
          val []
          ((get_str-set_str b v.m_parent_ofs es v.m_key val inv room small fresh addressable
            fits).0))

  -- At a handle of a member that is no array element, whose parent is an object that is a leaf of
  -- fewer than seven members without its key, the key not empty and of fewer than 63 characters, in
  -- a buffer whose used bytes end below 2^32: assigning the eight bytes of an integer returns, and
  -- the handle's cast to an integer then returns them.
  pub to_i64-assign_i64 : length val ≡ 8 → (do b' ← assign_i64 v b val; to_i64 v b') ≡ ok val
  unfolding assign_i64 to_i64
  to_i64-assign_i64 eight =
      rw (keyed, no_element)
        (caught-ok (set_i64 b v.m_parent_ofs v.m_key val) (λ b'. get_i64 b' v.m_parent_ofs v.m_key)
          val zero_word
          ((get_i64-set_i64 b v.m_parent_ofs es v.m_key val inv room small fresh addressable
            eight).0))
