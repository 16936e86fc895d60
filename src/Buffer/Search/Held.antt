-- ===== src/Buffer/Search/Held.antt =====
-- An entry and the keys of a node as they lie in memory, and the search of the code against the search
-- in the list of them.
use Prim.Native.Nat.{Ordering}
use lite3_cpp.Base.{
  ℕ, suc, ◌+◌, ◌-◌, ◌^◌, ◌<◌, ◌≡◌, refl, ◌∙◌, ap, Bool, true, false, List, [], ◌∷◌, some, arith,
  length, u32, ◌/◌,
}
use lite3_cpp.Memory.{Memory}
use lite3_cpp.Node.{code, of_code, key_count, get_hash, get_kv_offset}
use lite3_cpp.Buffer.Compare.{compare_node_key}
use lite3_cpp.Buffer.Compare.Order.{Key, compare_keys, compare_lists, compare_text-compare_lists}
use lite3_cpp.Buffer.Entry.{has_length, fixed_len, value_len, value_offset}
use lite3_cpp.Buffer.Entry.RoundTrip.{KeyAt, ValueAt}
use lite3_cpp.Buffer.Search.{scan, matches}
use lite3_cpp.Buffer.Search.Table.{Entry, nth, position, lookup, lookup-position, is_some}

-- The bytes before the value: none in an array.
abbrev pub prefix_len : Bool → List ℕ → ℕ
prefix_len true text = 0
prefix_len false text = length text + 2

abbrev pub entry_size : Bool → Entry → ℕ
entry_size arr e = prefix_len arr e.key.text + value_len e.type (length e.val)

abbrev pub value_at : Bool → Entry → ℕ
value_at arr e = e.address + prefix_len arr e.key.text

-- An object's entry has its key before its value, and an array's has no key.
abbrev pub KeyHeld : Memory → Bool → Entry → Type 0
KeyHeld m true e = e.key.text ≡ []
KeyHeld m false e = KeyAt m e.address e.key.text

pub record Held (m : Memory) (arr : Bool) (e : Entry) : Type 0 where
  pub key : KeyHeld m arr e
  pub small : length e.key.text < 63
  pub known : of_code (code e.type) ≡ e.type
  pub sized : has_length e.type ≡ false → length e.val ≡ fixed_len e.type
  pub value : ValueAt m (value_at arr e) e.type e.val

-- The keys of the node at `a`.
pub record Keys (m : Memory) (arr : Bool) (a : ℕ) (es : List Entry) : Type 0 where
  pub count : key_count m a ≡ length es
  pub hashes : (j : ℕ) → j < length es → get_hash m a j ≡ (nth es j).key.hash
  pub addresses : (j : ℕ) → j < length es → get_kv_offset m a j ≡ (nth es j).address
  pub held : (j : ℕ) → j < length es → Held m arr (nth es j)

-- `value_offset` skips the key.
pub value_offset-Held :
    (m : Memory) (arr : Bool) (e : Entry)
    → KeyHeld m arr e
    → value_offset m e.address arr ≡ value_at arr e
unfolding value_offset
value_offset-Held m true e h = omega arith
value_offset-Held m false e h = omega (arith, h.length_byte)

-- For an index whose hash and address are those of an entry that lies in memory, `compare_node_key`
-- orders the entry's key against the sought one as their hashes compare, and at equal hashes as the
-- texts do from the left; in an array the sought key has no text.
pub compare_node_key-compare_keys :
    (m : Memory) (arr : Bool) (a i : ℕ) (e : Entry) (k : Key)
    → get_hash m a i ≡ e.key.hash
    → get_kv_offset m a i ≡ e.address
    → Held m arr e
    → (arr ≡ true → k.text ≡ [])
    → compare_node_key m a i k.hash k.text arr ≡ compare_keys e.key k
unfolding compare_node_key compare_keys
compare_node_key-compare_keys m true a i e k hh hk held array =
    ground (arith, held.key, array refl, compare_lists-nil)
  where
    compare_lists-nil : compare_lists [] [] ≡ Ordering.eq
    compare_lists-nil = unfold compare_lists in refl
compare_node_key-compare_keys m false a i e k hh hk held array =
    let stored : KeyAt m e.address e.key.text = held.key in
    let size : u32 (m.byte e.address / 2 ^ 2 + 2 ^ 32 - 1) ≡ length e.key.text =
      omega (arith, stored.length_byte, held.small) in
    rw (
      hh,
      hk,
      compare_text-compare_lists m (e.address + 1) (u32 (m.byte e.address / 2 ^ 2 + 2 ^ 32 - 1))
          e.key.text k.text size stored.text,
    )

module _ (m : Memory) (arr : Bool) (a : ℕ) (k : Key) (array : arr ≡ true → k.text ≡ []) where
  -- The keys from index `i` on.
  abbrev From : ℕ → List Entry → Type 0
  From i es =
      (j : ℕ)
      → j < length es
      → compare_node_key m a (i + j) k.hash k.text arr ≡ compare_keys (nth es j).key k

  From-tail : (i : ℕ) (e : Entry) (es : List Entry) → From i (e ∷ es) → From (i + 1) es
  From-tail i e es h j p =
      ap (λ x. compare_node_key m a x k.hash k.text arr) (omega arith) ∙ h (suc j) (omega arith)

  scan-From :
      (i : ℕ) (es : List Entry)
      → From i es
      → scan k.hash k.text arr m a i (length es) ≡ i + position k es
  unfolding scan position
  scan-From i [] h = omega arith
  scan-From i (e ∷ es) h =
      let here : compare_node_key m a i k.hash k.text arr ≡ compare_keys e.key k =
        ap (λ x. compare_node_key m a x k.hash k.text arr) (omega arith) ∙ h 0 (omega arith) in
      ground (arith, here, scan-From (i + 1) es (From-tail i e es h))

  module _ (es : List Entry) (keys : Keys m arr a es) where
    compared : From 0 es
    compared j p =
        ap (λ x. compare_node_key m a x k.hash k.text arr) (omega arith)
        ∙ compare_node_key-compare_keys m arr a j (nth es j) k (keys.hashes j p)
            (keys.addresses j p) (keys.held j p) array

    -- The loop over the keys stops at the position of the key in the list.
    pub scan-position : scan k.hash k.text arr m a 0 (key_count m a) ≡ position k es
    scan-position = rw keys.count (scan-From 0 es compared ∙ omega arith)

    -- It stops at the key itself exactly when the list has it.
    pub matches-lookup : matches k.hash k.text arr m a (position k es) ≡ is_some (lookup k es)
    unfolding matches
    matches-lookup = ground (arith, keys.count, lookup-position k es, compared (position k es))

    -- The entry that the list has stands at that position.
    pub lookup-nth :
        (e : Entry)
        → lookup k es ≡ some e
        → (position k es < length es) × (nth es (position k es) ≡ e)
    lookup-nth e h = ground (arith, lookup-position k es)
