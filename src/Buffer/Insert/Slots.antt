-- ===== src/Buffer/Insert/Slots.antt =====
-- What a new key does to the words of its node.
use lite3_cpp.Base.{
  ℕ, zero, suc, ◌+◌, ◌-◌, ◌*◌, inl, ◌≤◌, ◌<◌, ◌≡◌, refl, ◌∙◌, arith, u32, leb, ltb, ◌==◌, ◌&&◌,
  if◌then◌else◌,
}
use lite3_cpp.Memory.{Memory, load32}
use lite3_cpp.Memory.Laws.{SameOutside, load32-store32_outside}
use lite3_cpp.Node.Frame.{set_key_count-outside, set_hash-outside, set_kv_offset-outside}
use lite3_cpp.Node.{
  node_size, key_count, get_hash, get_kv_offset, get_child_offset, set_hash, set_kv_offset,
  set_key_count,
}
use lite3_cpp.Node.Fields.{
  get_hash-lt, get_kv_offset-lt, get_hash-set_hash, get_kv_offset-set_kv_offset,
  get_hash-set_kv_offset, get_kv_offset-set_hash, get_child_offset-set_hash,
  get_child_offset-set_kv_offset, key_count-set_key_count, get_hash-set_key_count,
  get_kv_offset-set_key_count, get_child_offset-set_key_count,
}
use lite3_cpp.Buffer.Insert.{move_key, shift_keys, insert_slot}

-- Index `j` of a row in which the places from `i` to `i + left - 1` have moved up by one.
abbrev pub shifted : (ℕ → ℕ) → ℕ → ℕ → ℕ → ℕ
shifted f i left j = if ltb i j && leb j (i + left) then f (j - 1) else f j

module _ (m : Memory) (p top : ℕ) (h : top < 7) where
  move_key-hash :
      (j : ℕ)
      → j < 7
      → get_hash (move_key m p top) p j
        ≡ (if top == j then get_hash m p (top - 1) else get_hash m p j)
  unfolding move_key
  move_key-hash j hj =
      let v = get_hash m p (top - 1) in
      let m₁ = set_hash m p top v in
      get_hash-set_kv_offset m₁ p top (get_kv_offset m₁ p (top - 1)) j hj
      ∙ get_hash-set_hash m p top v j
      ∙ ground (arith, get_hash-lt m p (top - 1))

  move_key-kv :
      (j : ℕ)
      → get_kv_offset (move_key m p top) p j
        ≡ (if top == j then get_kv_offset m p (top - 1) else get_kv_offset m p j)
  unfolding move_key
  move_key-kv j =
      let m₁ = set_hash m p top (get_hash m p (top - 1)) in
      get_kv_offset-set_kv_offset m₁ p top (get_kv_offset m₁ p (top - 1)) j
      ∙ ground (
        arith,
        get_kv_offset-set_hash m p top (get_hash m p (top - 1)) j h,
        get_kv_offset-set_hash m p top (get_hash m p (top - 1)) (top - 1) h,
        get_kv_offset-lt m p (top - 1),
      )

  move_key-child : (j : ℕ) → get_child_offset (move_key m p top) p j ≡ get_child_offset m p j
  unfolding move_key
  move_key-child j =
      let m₁ = set_hash m p top (get_hash m p (top - 1)) in
      get_child_offset-set_kv_offset m₁ p top (get_kv_offset m₁ p (top - 1)) j h
      ∙ get_child_offset-set_hash m p top (get_hash m p (top - 1)) j h

  move_key-outside : SameOutside p node_size m (move_key m p top)
  unfolding move_key
  move_key-outside x out =
      let m₁ = set_hash m p top (get_hash m p (top - 1)) in
      set_kv_offset-outside m₁ p top (get_kv_offset m₁ p (top - 1)) h x out
      ∙ set_hash-outside m p top (get_hash m p (top - 1)) h x out

module _ (p j : ℕ) (hj : j < 7) where
  -- One key that has moved, seen through the moves that follow.
  shifted_move :
      (left i : ℕ) (m : Memory)
      → i + suc left < 7
      → shifted (get_hash (move_key m p (i + suc left)) p) i left j
        ≡ shifted (get_hash m p) i (suc left) j
  shifted_move left i m h =
      ground
        (arith, move_key-hash m p (i + suc left) h j, move_key-hash m p (i + suc left) h (j - 1))

  pub shift_keys-hash :
      (left i : ℕ) (m : Memory)
      → i + left < 7
      → get_hash (shift_keys m p i left) p j ≡ shifted (get_hash m p) i left j
  unfolding shift_keys
  shift_keys-hash zero i m h = ground arith
  shift_keys-hash (suc left) i m h =
      shift_keys-hash left i (move_key m p (i + suc left)) (omega arith) ∙ shifted_move left i m h

module _ (p : ℕ) where
  pub shift_keys-kv :
      (left i : ℕ) (m : Memory) (j : ℕ)
      → i + left < 7
      → get_kv_offset (shift_keys m p i left) p j ≡ shifted (get_kv_offset m p) i left j
  unfolding shift_keys
  shift_keys-kv zero i m j h = ground arith
  shift_keys-kv (suc left) i m j h = ground (
    arith,
    shift_keys-kv left i (move_key m p (i + suc left)) j,
    move_key-kv m p (i + suc left) h j,
    move_key-kv m p (i + suc left) h (j - 1),
  )

  pub shift_keys-child :
      (left i : ℕ) (m : Memory) (j : ℕ)
      → i + left < 7
      → get_child_offset (shift_keys m p i left) p j ≡ get_child_offset m p j
  unfolding shift_keys
  shift_keys-child zero i m j h = refl
  shift_keys-child (suc left) i m j h =
      shift_keys-child left i (move_key m p (i + suc left)) j (omega arith)
      ∙ move_key-child m p (i + suc left) h j

  pub shift_keys-outside :
      (left i : ℕ) (m : Memory) → i + left < 7 → SameOutside p node_size m (shift_keys m p i left)
  unfolding shift_keys
  shift_keys-outside zero i m h x out = refl
  shift_keys-outside (suc left) i m h x out =
      shift_keys-outside left i (move_key m p (i + suc left)) (omega arith) x out
      ∙ move_key-outside m p (i + suc left) h x out

-- No setter of keys writes the first word of the node.
module _ (p : ℕ) where
  first_word-move_key : (m : Memory) (top : ℕ) → load32 (move_key m p top) p ≡ load32 m p
  unfolding move_key set_hash set_kv_offset
  first_word-move_key m top =
      load32-store32_outside _ (p + 36 + 4 * top) _ p (inl (omega arith))
      ∙ load32-store32_outside m (p + 4 + 4 * top) _ p (inl (omega arith))

  first_word-shift_keys : (left i : ℕ) (m : Memory) → load32 (shift_keys m p i left) p ≡ load32 m p
  unfolding shift_keys
  first_word-shift_keys zero i m = refl
  first_word-shift_keys (suc left) i m =
      first_word-shift_keys left i (move_key m p (i + suc left))
      ∙ first_word-move_key m (i + suc left)

-- Index `j` of a row with `v` put in at `i`, and those from `i` on moved up by one.
abbrev pub inserted {ℓ} : {A : Type ℓ} → (ℕ → A) → ℕ → A → ℕ → A
inserted f i v j = if ltb j i then f j else if i == j then v else f (j - 1)

-- A new key at index `i` of a node that is not full: the hashes and the entries' addresses are those
-- of before with the new one put in, the children stay, and the count goes up.
module _ (m : Memory) (p count i hash start : ℕ) (room : count < 7) (pos : i ≤ count) where
  pub insert_slot-hash :
      (j : ℕ)
      → j ≤ count
      → get_hash (insert_slot m p count i hash start) p j ≡ inserted (get_hash m p) i (u32 hash) j
  unfolding insert_slot
  insert_slot-hash j h =
      let m₁ = shift_keys m p i (count - i) in
      let m₂ = set_hash m₁ p i hash in
      let m₃ = set_kv_offset m₂ p i (u32 start) in
      get_hash-set_key_count m₃ p (count + 1) j (omega arith)
      ∙ get_hash-set_kv_offset m₂ p i (u32 start) j (omega arith)
      ∙ get_hash-set_hash m₁ p i hash j
      ∙ ground (arith, shift_keys-hash p j (omega arith) (count - i) i m (omega arith))

  pub insert_slot-kv :
      (j : ℕ)
      → j ≤ count
      → get_kv_offset (insert_slot m p count i hash start) p j
        ≡ inserted (get_kv_offset m p) i (u32 start) j
  unfolding insert_slot
  insert_slot-kv j h =
      let m₁ = shift_keys m p i (count - i) in
      let m₂ = set_hash m₁ p i hash in
      let m₃ = set_kv_offset m₂ p i (u32 start) in
      get_kv_offset-set_key_count m₃ p (count + 1) j
      ∙ get_kv_offset-set_kv_offset m₂ p i (u32 start) j
      ∙ ground (arith, shift_keys-kv p (count - i) i m j, get_kv_offset-set_hash m₁ p i hash j)

  pub insert_slot-child :
      (j : ℕ) → get_child_offset (insert_slot m p count i hash start) p j ≡ get_child_offset m p j
  unfolding insert_slot
  insert_slot-child j =
      let m₁ = shift_keys m p i (count - i) in
      let m₂ = set_hash m₁ p i hash in
      let m₃ = set_kv_offset m₂ p i (u32 start) in
      get_child_offset-set_key_count m₃ p (count + 1) j
      ∙ get_child_offset-set_kv_offset m₂ p i (u32 start) j (omega arith)
      ∙ get_child_offset-set_hash m₁ p i hash j (omega arith)
      ∙ shift_keys-child p (count - i) i m j (omega arith)

  pub insert_slot-count : key_count (insert_slot m p count i hash start) p ≡ count + 1
  unfolding insert_slot
  insert_slot-count =
      let m₁ = shift_keys m p i (count - i) in
      let m₂ = set_hash m₁ p i hash in
      let m₃ = set_kv_offset m₂ p i (u32 start) in
      key_count-set_key_count m₃ p (count + 1) ∙ omega arith

  pub first_word-insert_slot : load32 (insert_slot m p count i hash start) p ≡ load32 m p
  unfolding insert_slot set_hash set_kv_offset set_key_count
  first_word-insert_slot =
      load32-store32_outside _ (p + 32) _ p (inl (omega arith))
      ∙ load32-store32_outside _ (p + 36 + 4 * i) _ p (inl (omega arith))
      ∙ load32-store32_outside _ (p + 4 + 4 * i) _ p (inl (omega arith))
      ∙ first_word-shift_keys p (count - i) i m

  pub insert_slot-outside : SameOutside p node_size m (insert_slot m p count i hash start)
  unfolding insert_slot
  insert_slot-outside x h =
      let m₁ = shift_keys m p i (count - i) in
      let m₂ = set_hash m₁ p i hash in
      let m₃ = set_kv_offset m₂ p i (u32 start) in
      set_key_count-outside m₃ p (count + 1) x h
      ∙ set_kv_offset-outside m₂ p i (u32 start) (omega arith) x h
      ∙ set_hash-outside m₁ p i hash (omega arith) x h
      ∙ shift_keys-outside p (count - i) i m (omega arith) x h

  -- Putting a key at index `i` of a node of at most six keys, `i` at most their count, makes its
  -- rows of hashes and of addresses those of before with the 32-bit hash and address put in at `i`
  -- and the later ones moved up by one, keeps the row of children, adds one to the count, and
  -- changes no byte outside the node.
  pub insert_slot-node :
      ((j : ℕ)
        → j ≤ count
        → (get_hash (insert_slot m p count i hash start) p j
            ≡ inserted (get_hash m p) i (u32 hash) j)
          × (get_kv_offset (insert_slot m p count i hash start) p j
              ≡ inserted (get_kv_offset m p) i (u32 start) j))
      × ((j : ℕ)
          → get_child_offset (insert_slot m p count i hash start) p j ≡ get_child_offset m p j)
      × (key_count (insert_slot m p count i hash start) p ≡ count + 1)
      × SameOutside p node_size m (insert_slot m p count i hash start)
  insert_slot-node = (
    λ j h. (insert_slot-hash j h, insert_slot-kv j h),
    insert_slot-child,
    insert_slot-count,
    insert_slot-outside,
  )
