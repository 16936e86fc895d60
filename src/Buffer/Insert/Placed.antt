-- ===== src/Buffer/Insert/Placed.antt =====
-- That `insert_leaf` puts a new key into a leaf.
use lite3_cpp.Base.{
  ℕ, ◌+◌, ◌-◌, ◌^◌, ◌<◌, ◌≤◌, ◌≡◌, ◌∙◌, ap, Bool, List, none, arith, Bool-cases, sym, ltb, ◌==◌,
  length, inl, inr,
}
use lite3_cpp.Memory.{Memory, load32}
use lite3_cpp.Memory.Laws.{SameOn, SameOutside, load32-same}
use lite3_cpp.Memory.Frame.{SameOn-outside}
use lite3_cpp.Node.{node_size, get_hash, get_kv_offset}
use lite3_cpp.Node.Head.{SameHead, SameHead-trans, SameHead-same}
use lite3_cpp.Buffer.Insert.Head.{SameHead-insert_slot}
use lite3_cpp.Buffer.State.{Buffer, ensure_capacity}
use lite3_cpp.Buffer.State.Capacity.{
  used-ensure_capacity, ensure_capacity-fits, byte-ensure_capacity,
}
use lite3_cpp.Buffer.Entry.{write_key}
use lite3_cpp.Buffer.Search.Table.{
  Entry, nth, position, position-le, lookup, insert_at, length-insert_at, nth-insert_at,
}
use lite3_cpp.Buffer.Search.Held.{Held, Keys, entry_size, value_at}
use lite3_cpp.Buffer.Search.Leaf.{Leaf}
use lite3_cpp.Buffer.Search.Frame.{Held-same, Leaf-same}
use lite3_cpp.Buffer.Insert.{insert_slot, insert_leaf}
use lite3_cpp.Buffer.Insert.Sizes.{size-write_key, size-write_value, size-insert_slot}
use lite3_cpp.Buffer.Insert.Slots.{
  inserted, insert_slot-hash, insert_slot-kv, insert_slot-child, insert_slot-count,
  insert_slot-outside, first_word-insert_slot,
}
use lite3_cpp.Buffer.Insert.Leaf.{
  Apart, LeafIn, IsNew, key_len-prefix_len, with_entry, write_entry-outside, write_entry-Held,
  inserted-row,
}

-- A leaf of fewer than seven keys, a key that it does not have, and the entry at the end of the
-- used bytes.
module _ (b : Buffer) (arr : Bool) (a : ℕ) (es : List Entry) (e : Entry) (inv : LeafIn b arr a es)
    (room : length es < 7) (new : IsNew arr e) (out : lookup e.key es ≡ none)
    (at_end : e.address ≡ b.m_used_size) (addressable : e.address < 2 ^ 32) where
  abbrev size : ℕ
  size = entry_size arr e

  abbrev grown : Buffer
  grown = ensure_capacity b size

  abbrev m₁ : Memory
  m₁ = with_entry grown.m_data arr e

  abbrev i : ℕ
  i = position e.key es

  abbrev m₂ : Memory
  m₂ = insert_slot m₁ a (length es) i e.key.hash e.address

  abbrev pub after : Buffer
  after = record { m_data = m₂; m_used_size = e.address + size }

  -- The old bytes under the entry's.
  entry_written : SameOn 0 b.m_used_size b.m_data m₁
  entry_written x p q =
      write_entry-outside grown.m_data arr e x (omega arith)
      ∙ byte-ensure_capacity b size x (omega (arith, inv.fits))

  leaf₁ : Leaf m₁ arr a es
  leaf₁ =
      Leaf-same b.m_data m₁ arr a es
        (λ x p q. entry_written x (omega arith) (omega (arith, inv.node_in)))
        (λ j h x p q. entry_written x (omega arith) (omega (arith, inv.below j h))) inv.leaf

  slot_written : SameOutside a node_size m₁ m₂
  slot_written =
      insert_slot-outside m₁ a (length es) i e.key.hash e.address room (position-le e.key es)

  nth-new : (j : ℕ) → nth (insert_at i e es) j ≡ inserted (nth es) i e j
  nth-new j = nth-insert_at i j e es (position-le e.key es)

  -- Each entry of the new list lies in the used bytes, apart from the node.
  placed :
      (j : ℕ)
      → j < length es + 1
      → Apart
          (nth (insert_at i e es) j).address
          (entry_size arr (nth (insert_at i e es) j))
          a
          node_size
        × ((nth (insert_at i e es) j).address + entry_size arr (nth (insert_at i e es) j)
            ≤ e.address + size)
  placed j h = rw (nth-new j) (
      ground (
        arith,
        inv.apart j,
        inv.apart (j - 1),
        inv.below j,
        inv.below (j - 1),
        inv.node_in,
        position-le e.key es,
      ))

  -- Each entry of the new list is held.
  held₁ : (j : ℕ) → j < length es + 1 → Held m₁ arr (nth (insert_at i e es) j)
  held₁ j h = rw (nth-new j) (elim (Bool-cases (ltb j i)) [
    | inl lo ↦ rw lo (leaf₁.keys.held j (ground (arith, position-le e.key es)))
    | inr up ↦ rw up (elim (Bool-cases (i == j)) [
      | inl here ↦ rw here (write_entry-Held grown.m_data arr e new)
      | inr past ↦ rw past (leaf₁.keys.held (j - 1) (ground arith))
    ])
  ])

  keys₂ : Keys m₂ arr a (insert_at i e es)
  keys₂ = record {
    count =
        insert_slot-count m₁ a (length es) i e.key.hash e.address room (position-le e.key es)
        ∙ sym (length-insert_at i e es);
    hashes = λ j h.
        let h' : j < length es + 1 = omega (arith, length-insert_at i e es) in
        insert_slot-hash m₁ a (length es) i e.key.hash e.address room (position-le e.key es) j
          (omega arith)
        ∙ inserted-row (get_hash m₁ a) (λ (d : Entry). d.key.hash) es e i j leaf₁.keys.hashes
            new.hash_fits (position-le e.key es) h'
        ∙ ap (λ (d : Entry). d.key.hash) (sym (nth-new j));
    addresses = λ j h.
        let h' : j < length es + 1 = omega (arith, length-insert_at i e es) in
        insert_slot-kv m₁ a (length es) i e.key.hash e.address room (position-le e.key es) j
          (omega arith)
        ∙ inserted-row (get_kv_offset m₁ a) (λ (d : Entry). d.address) es e i j leaf₁.keys.addresses
            addressable (position-le e.key es) h'
        ∙ ap (λ (d : Entry). d.address) (sym (nth-new j));
    held = λ j h.
        let h' : j < length es + 1 = omega (arith, length-insert_at i e es) in
        let d = nth (insert_at i e es) j in
        Held-same m₁ m₂ arr d
          (SameOn-outside a node_size d.address (entry_size arr d) m₁ m₂ ((placed j h').0)
            slot_written)
          (held₁ j h');
  }

  size₂ : m₂.size ≡ grown.m_data.size
  size₂ =
      size-insert_slot m₁ a (length es) i e.key.hash e.address
      ∙ size-write_value (write_key grown.m_data e.address e.key.text arr) (value_at arr e) e.type
          e.val
      ∙ size-write_key grown.m_data e.address e.key.text arr

  -- The leaf with the entry put in at its position.
  pub insert_leaf-LeafIn : LeafIn after arr a (insert_at i e es)
  insert_leaf-LeafIn = record {
    leaf = record {
      keys = keys₂;
      room = omega (arith, length-insert_at i e es);
      bottom = λ j h.
          insert_slot-child m₁ a (length es) i e.key.hash e.address room (position-le e.key es) j
          ∙ leaf₁.bottom j h;
    };
    fits = omega (arith, size₂, ensure_capacity-fits b size);
    node_in = omega (arith, inv.node_in);
    apart = λ j h. (placed j (omega (arith, length-insert_at i e es))).0;
    below = λ j h. (placed j (omega (arith, length-insert_at i e es))).1;
  }

  -- The word of the generation and the type is not written.
  pub first_word-after : load32 after.m_data a ≡ load32 b.m_data a
  first_word-after =
      first_word-insert_slot m₁ a (length es) i e.key.hash e.address room (position-le e.key es)
      ∙ load32-same b.m_data m₁ a
          (λ x p q. entry_written x (omega arith) (omega (arith, inv.node_in)))

  pub SameHead-after : SameHead b.m_data after.m_data a
  SameHead-after =
      SameHead-trans b.m_data m₁ m₂ a
        (SameHead-same b.m_data m₁ a
          (λ x p q. entry_written x (omega arith) (omega (arith, inv.node_in))))
        (SameHead-insert_slot m₁ a (length es) i e.key.hash e.address room (position-le e.key es))

  -- What lay in the used bytes apart from the node is as it was.
  pub kept-after :
      (x n : ℕ) → Apart x n a node_size → x + n ≤ b.m_used_size → SameOn x n b.m_data after.m_data
  kept-after x n apart below y p q =
      slot_written y (omega (arith, apart)) ∙ entry_written y (omega arith) (omega arith)

  -- `insert_leaf` does just that.
  pub insert_leaf-after :
      insert_leaf e.key.text e.key.hash e.val e.type arr b a i ≡ (value_at arr e, after)
  unfolding insert_leaf
  insert_leaf-after = simp (
    key_len-prefix_len arr e.key.text new.small,
    used-ensure_capacity,
    ← at_end,
    inv.leaf.keys.count,
  )
