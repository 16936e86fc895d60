-- ===== src/Buffer/Compare/Order.antt =====
-- The order that `compare_node_key` stands for: hashes first, then texts from the left.
use Prim.Native.Nat.{Ordering}
use lite3_cpp.Base.{ℕ, ◌+◌, ◌-◌, ◌≡◌, refl, List, [], ◌∷◌, arith, ltb, if◌then◌else◌, length}
use lite3_cpp.Memory.{Memory}
use lite3_cpp.Memory.Frame.{TextAt}
use lite3_cpp.Buffer.Compare.{compare_text}

-- A hash and a text; an array's element has its index and no text.
pub record Key : Type 0 where
  pub hash : ℕ
  pub text : List ℕ

unfoldable pub compare_lists : List ℕ → List ℕ → Ordering
compare_lists [] [] = Ordering.eq
compare_lists [] (d ∷ t) = Ordering.lt
compare_lists (c ∷ s) [] = Ordering.gt
compare_lists (c ∷ s) (d ∷ t) =
    if ltb c d then Ordering.lt else if ltb d c then Ordering.gt else compare_lists s t

unfoldable pub compare_keys : Key → Key → Ordering
compare_keys k j =
    if ltb k.hash j.hash
    then Ordering.lt
    else if ltb j.hash k.hash
    then Ordering.gt
    else compare_lists k.text j.text

pub compare_lists_refl : (s : List ℕ) → compare_lists s s ≡ Ordering.eq
unfolding compare_lists
compare_lists_refl [] = refl
compare_lists_refl (c ∷ s) = ground (arith, compare_lists_refl s)

pub eq_of_compare_lists : (s t : List ℕ) → compare_lists s t ≡ Ordering.eq → s ≡ t
unfolding compare_lists
eq_of_compare_lists [] [] h = refl
eq_of_compare_lists [] (d ∷ t) h = cc
eq_of_compare_lists (c ∷ s) [] h = cc
eq_of_compare_lists (c ∷ s) (d ∷ t) h = ground (arith, eq_of_compare_lists s t)

compare_lists_trans :
    (s t u : List ℕ)
    → compare_lists s t ≡ Ordering.gt
    → compare_lists t u ≡ Ordering.gt
    → compare_lists s u ≡ Ordering.gt
unfolding compare_lists
compare_lists_trans [] [] u h k = cc
compare_lists_trans [] (d ∷ t) u h k = cc
compare_lists_trans (c ∷ s) [] [] h k = cc
compare_lists_trans (c ∷ s) [] (e ∷ u) h k = cc
compare_lists_trans (c ∷ s) (d ∷ t) [] h k = refl
compare_lists_trans (c ∷ s) (d ∷ t) (e ∷ u) h k = ground (arith, compare_lists_trans s t u)

-- Turning a comparison round.
compare_lists_flip :
    (s t : List ℕ) → compare_lists s t ≡ Ordering.lt → compare_lists t s ≡ Ordering.gt
unfolding compare_lists
compare_lists_flip [] [] h = cc
compare_lists_flip [] (d ∷ t) h = refl
compare_lists_flip (c ∷ s) [] h = cc
compare_lists_flip (c ∷ s) (d ∷ t) h = ground (arith, compare_lists_flip s t)

pub compare_keys_refl : (k : Key) → compare_keys k k ≡ Ordering.eq
unfolding compare_keys
compare_keys_refl k = ground (arith, compare_lists_refl k.text)

pub eq_of_compare_keys : (k j : Key) → compare_keys k j ≡ Ordering.eq → k ≡ j
unfolding compare_keys
eq_of_compare_keys k j h = ground (arith, eq_of_compare_lists k.text j.text)

pub compare_keys_trans :
    (k j l : Key)
    → compare_keys k j ≡ Ordering.gt
    → compare_keys j l ≡ Ordering.gt
    → compare_keys k l ≡ Ordering.gt
unfolding compare_keys
compare_keys_trans k j l p q = ground (arith, compare_lists_trans k.text j.text l.text)

pub compare_keys_flip :
    (k j : Key) → compare_keys k j ≡ Ordering.lt → compare_keys j k ≡ Ordering.gt
unfolding compare_keys
compare_keys_flip k j p = ground (arith, compare_lists_flip k.text j.text)

compare_lists_trans_lt :
    (s t u : List ℕ)
    → compare_lists s t ≡ Ordering.lt
    → compare_lists t u ≡ Ordering.lt
    → compare_lists s u ≡ Ordering.lt
unfolding compare_lists
compare_lists_trans_lt [] [] u h k = cc
compare_lists_trans_lt [] (d ∷ t) [] h k = cc
compare_lists_trans_lt [] (d ∷ t) (e ∷ u) h k = refl
compare_lists_trans_lt (c ∷ s) [] u h k = cc
compare_lists_trans_lt (c ∷ s) (d ∷ t) [] h k = cc
compare_lists_trans_lt (c ∷ s) (d ∷ t) (e ∷ u) h k = ground (arith, compare_lists_trans_lt s t u)

pub compare_keys_trans_lt :
    (k j l : Key)
    → compare_keys k j ≡ Ordering.lt
    → compare_keys j l ≡ Ordering.lt
    → compare_keys k l ≡ Ordering.lt
unfolding compare_keys
compare_keys_trans_lt k j l p q = ground (arith, compare_lists_trans_lt k.text j.text l.text)

-- Comparing a stored text with a sought one is comparing the two texts.
pub compare_text-compare_lists :
    (m : Memory) (a n : ℕ) (s key : List ℕ)
    → n ≡ length s
    → TextAt m a s
    → compare_text m a n key ≡ compare_lists s key
unfolding compare_text compare_lists
compare_text-compare_lists m a n [] [] e t = ground arith
compare_text-compare_lists m a n [] (c ∷ key) e t = ground arith
compare_text-compare_lists m a n (d ∷ s) [] e t = ground arith
compare_text-compare_lists m a n (d ∷ s) (c ∷ key) e t =
    ground (arith, compare_text-compare_lists m (a + 1) (n - 1) s key)
