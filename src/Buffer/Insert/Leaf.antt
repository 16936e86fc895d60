-- ===== src/Buffer/Insert/Leaf.antt =====
-- A leaf in a buffer, and a new entry behind the used bytes.
use lite3_cpp.Base.{
  ℕ, ◌+◌, ◌-◌, ◌^◌, ◌<◌, ◌≤◌, ◌≡◌, refl, ◌∙◌, Bool, true, false, List, [], arith, Bool-cases, ltb,
  ◌==◌, length, ◌⊎◌, inl, inr, u32,
}
use lite3_cpp.Memory.{Memory}
use lite3_cpp.Memory.Laws.{SameOutside}
use lite3_cpp.Node.{code, of_code, node_size}
use lite3_cpp.Buffer.State.{Buffer}
use lite3_cpp.Buffer.Entry.{has_length, fixed_len, key_len, write_key, write_value}
use lite3_cpp.Buffer.Entry.RoundTrip.{
  write_key-outside, write_key-KeyAt, write_value-outside, write_value-ValueAt,
}
use lite3_cpp.Buffer.Search.Table.{Entry, nth}
use lite3_cpp.Buffer.Search.Held.{KeyHeld, Held, entry_size, prefix_len, value_at}
use lite3_cpp.Buffer.Search.Leaf.{Leaf}
use lite3_cpp.Buffer.Search.Frame.{KeyHeld-same}
use lite3_cpp.Buffer.Insert.Slots.{inserted}

-- The bytes from `a` on, `n` of them, and those from `c` on, `k` of them, do not meet.
abbrev pub Apart : ℕ → ℕ → ℕ → ℕ → Type 0
Apart a n c k = (a + n ≤ c) ⊎ (c + k ≤ a)

-- A leaf at `a` with its entries, all in the used bytes, the entries apart from the node.
pub record LeafIn (b : Buffer) (arr : Bool) (a : ℕ) (es : List Entry) : Type 0 where
  pub leaf : Leaf b.m_data arr a es
  pub fits : b.m_used_size ≤ b.m_data.size
  pub node_in : a + node_size ≤ b.m_used_size
  pub apart :
      (j : ℕ) → j < length es → Apart (nth es j).address (entry_size arr (nth es j)) a node_size
  pub below :
      (j : ℕ) → j < length es → (nth es j).address + entry_size arr (nth es j) ≤ b.m_used_size

-- A new entry as the code is given it.
pub record IsNew (arr : Bool) (e : Entry) : Type 0 where
  pub hash_fits : e.key.hash < 2 ^ 32
  pub small : length e.key.text < 63
  pub array : arr ≡ true → e.key.text ≡ []
  pub known : of_code (code e.type) ≡ e.type
  pub sized : has_length e.type ≡ false → length e.val ≡ fixed_len e.type
  pub type_fits : code e.type < 256
  pub val_fits : length e.val < 2 ^ 32

pub key_len-prefix_len :
    (arr : Bool) (text : List ℕ) → length text < 63 → key_len text arr ≡ prefix_len arr text
unfolding key_len
key_len-prefix_len true text h = refl
key_len-prefix_len false text h = ground arith

prefix-outside :
    (m : Memory) (start : ℕ) (text : List ℕ) (arr : Bool)
    → SameOutside start (prefix_len arr text) m (write_key m start text arr)
unfolding write_key
prefix-outside m start text true x h = refl
prefix-outside m start text false x h = write_key-outside m start text false x h

prefix-KeyHeld :
    (m : Memory) (arr : Bool) (e : Entry)
    → IsNew arr e
    → KeyHeld (write_key m e.address e.key.text arr) arr e
prefix-KeyHeld m true e new = new.array refl
prefix-KeyHeld m false e new = write_key-KeyAt m e.address e.key.text new.small

-- The bytes of an entry that is written at its address.
module _ (m : Memory) (arr : Bool) (e : Entry) where
  abbrev pub with_entry : Memory
  with_entry = write_value (write_key m e.address e.key.text arr) (value_at arr e) e.type e.val

  pub write_entry-outside : SameOutside e.address (entry_size arr e) m with_entry
  write_entry-outside x h =
      write_value-outside (write_key m e.address e.key.text arr) (value_at arr e) e.type e.val x
        (omega arith)
      ∙ prefix-outside m e.address e.key.text arr x (omega arith)

  pub write_entry-Held : IsNew arr e → Held with_entry arr e
  write_entry-Held new =
      let m₁ = write_key m e.address e.key.text arr in
      record {
        key =
            KeyHeld-same m₁ with_entry arr e
              (λ x p q. write_value-outside m₁ (value_at arr e) e.type e.val x (omega arith))
              (prefix-KeyHeld m arr e new);
        small = new.small;
        known = new.known;
        sized = new.sized;
        value = write_value-ValueAt m₁ (value_at arr e) e.type e.val new.type_fits new.val_fits;
      }

-- A row of a node that gives a field of each entry, with the new entry's field put in.
pub inserted-row :
    (f : ℕ → ℕ) (field : Entry → ℕ) (es : List Entry) (e : Entry) (i j : ℕ)
    → ((x : ℕ) → x < length es → f x ≡ field (nth es x))
    → field e < 2 ^ 32
    → i ≤ length es
    → j < length es + 1
    → inserted f i (u32 (field e)) j ≡ field (inserted (nth es) i e j)
inserted-row f field es e i j h fits pos le = elim (Bool-cases (ltb j i)) [
  | inl lo ↦ rw lo (h j (ground arith))
  | inr up ↦ rw up (elim (Bool-cases (i == j)) [
    | inl here ↦ rw here (omega arith)
    | inr past ↦ rw past (h (j - 1) (ground arith))
  ])
]
