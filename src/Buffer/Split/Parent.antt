-- ===== src/Buffer/Split/Parent.antt =====
-- The keys and children of the parent that make place for the promoted key.
use lite3_cpp.Base.{ℕ, zero, suc, ◌+◌, ◌-◌, ◌<◌, ◌≡◌, refl, ◌∙◌, arith, ◌==◌, if◌then◌else◌}
use lite3_cpp.Memory.{Memory}
use lite3_cpp.Memory.Laws.{SameOutside}
use lite3_cpp.Node.{
  node_size, key_count, get_hash, get_kv_offset, get_child_offset, set_hash, set_kv_offset,
}
use lite3_cpp.Node.Fields.{
  get_hash-lt, get_kv_offset-lt, get_hash-set_hash, get_kv_offset-set_kv_offset,
  get_hash-set_kv_offset, get_kv_offset-set_hash, get_child_offset-set_hash,
  get_child_offset-set_kv_offset, key_count-set_hash, key_count-set_kv_offset,
}
use lite3_cpp.Node.Children.{
  get_child_offset-lt, get_child_offset-set_child_offset, get_hash-set_child_offset,
  key_count-set_child_offset, get_kv_offset-set_child_offset,
}
use lite3_cpp.Node.Frame.{set_hash-outside, set_kv_offset-outside, set_child_offset-outside}
use lite3_cpp.Buffer.Insert.Slots.{shifted}
use lite3_cpp.Buffer.Split.{shift_key_up, shift_up}

module _ (m : Memory) (p top : ℕ) (h : top < 7) (pos : 0 < top) where
  abbrev m₁ : Memory
  m₁ = set_hash m p top (get_hash m p (top - 1))

  abbrev m₂ : Memory
  m₂ = set_kv_offset m₁ p top (get_kv_offset m₁ p (top - 1))

  shift_key_up-outside : SameOutside p node_size m (shift_key_up m p top)
  unfolding shift_key_up
  shift_key_up-outside x out =
      set_child_offset-outside m₂ p (top + 1) (get_child_offset m₂ p top) (omega arith) x out
      ∙ set_kv_offset-outside m₁ p top (get_kv_offset m₁ p (top - 1)) h x out
      ∙ set_hash-outside m p top (get_hash m p (top - 1)) h x out

  shift_key_up-count : key_count (shift_key_up m p top) p ≡ key_count m p
  unfolding shift_key_up
  shift_key_up-count =
      key_count-set_child_offset m₂ p (top + 1) (get_child_offset m₂ p top)
      ∙ key_count-set_kv_offset m₁ p top (get_kv_offset m₁ p (top - 1))
      ∙ key_count-set_hash m p top (get_hash m p (top - 1)) h

  shift_key_up-hash :
      (j : ℕ)
      → j < 7
      → get_hash (shift_key_up m p top) p j
        ≡ (if top == j then get_hash m p (top - 1) else get_hash m p j)
  unfolding shift_key_up
  shift_key_up-hash j hj =
      get_hash-set_child_offset m₂ p (top + 1) (get_child_offset m₂ p top) j hj
      ∙ get_hash-set_kv_offset m₁ p top (get_kv_offset m₁ p (top - 1)) j hj
      ∙ get_hash-set_hash m p top (get_hash m p (top - 1)) j
      ∙ ground (arith, get_hash-lt m p (top - 1))

  shift_key_up-kv :
      (j : ℕ)
      → j < 7
      → get_kv_offset (shift_key_up m p top) p j
        ≡ (if top == j then get_kv_offset m p (top - 1) else get_kv_offset m p j)
  unfolding shift_key_up
  shift_key_up-kv j hj =
      get_kv_offset-set_child_offset m₂ p (top + 1) (get_child_offset m₂ p top) j hj
      ∙ get_kv_offset-set_kv_offset m₁ p top (get_kv_offset m₁ p (top - 1)) j
      ∙ ground (
        arith,
        get_kv_offset-set_hash m p top (get_hash m p (top - 1)) j h,
        get_kv_offset-set_hash m p top (get_hash m p (top - 1)) (top - 1) h,
        get_kv_offset-lt m p (top - 1),
      )

  shift_key_up-child :
      (j : ℕ)
      → get_child_offset (shift_key_up m p top) p j
        ≡ (if top + 1 == j then get_child_offset m p top else get_child_offset m p j)
  unfolding shift_key_up
  shift_key_up-child j =
      get_child_offset-set_child_offset m₂ p (top + 1) (get_child_offset m₂ p top) j
      ∙ ground (
        arith,
        get_child_offset-set_kv_offset m₁ p top (get_kv_offset m₁ p (top - 1)) j h,
        get_child_offset-set_kv_offset m₁ p top (get_kv_offset m₁ p (top - 1)) top h,
        get_child_offset-set_hash m p top (get_hash m p (top - 1)) j h,
        get_child_offset-set_hash m p top (get_hash m p (top - 1)) top h,
        get_child_offset-lt m p top,
      )

-- One place that has moved, seen through the moves that follow.
shifted_step :
    (f f' : ℕ → ℕ) (i left j : ℕ)
    → f' j ≡ (if i + suc left == j then f (i + suc left - 1) else f j)
    → f' (j - 1) ≡ (if i + suc left == j - 1 then f (i + suc left - 1) else f (j - 1))
    → shifted f' i left j ≡ shifted f i (suc left) j
shifted_step f f' i left j h h' = ground arith

module _ (p : ℕ) where
  pub shift_up-count :
      (left i : ℕ) (m : Memory) → i + left < 7 → key_count (shift_up m p i left) p ≡ key_count m p
  unfolding shift_up
  shift_up-count zero i m h = refl
  shift_up-count (suc left) i m h =
      shift_up-count left i (shift_key_up m p (i + suc left)) (omega arith)
      ∙ shift_key_up-count m p (i + suc left) h (omega arith)

  pub shift_up-outside :
      (left i : ℕ) (m : Memory) → i + left < 7 → SameOutside p node_size m (shift_up m p i left)
  unfolding shift_up
  shift_up-outside zero i m h x out = refl
  shift_up-outside (suc left) i m h x out =
      shift_up-outside left i (shift_key_up m p (i + suc left)) (omega arith) x out
      ∙ shift_key_up-outside m p (i + suc left) h (omega arith) x out

  pub shift_up-hash :
      (left i : ℕ) (m : Memory) (j : ℕ)
      → i + left < 7
      → j < 7
      → get_hash (shift_up m p i left) p j ≡ shifted (get_hash m p) i left j
  unfolding shift_up
  shift_up-hash zero i m j h hj = ground arith
  shift_up-hash (suc left) i m j h hj =
      let moved = shift_key_up-hash m p (i + suc left) h (omega arith) in
      shift_up-hash left i (shift_key_up m p (i + suc left)) j (omega arith) hj
      ∙ shifted_step (get_hash m p) (get_hash (shift_key_up m p (i + suc left)) p) i left j
          (moved j hj) (moved (j - 1) (omega arith))

  pub shift_up-kv :
      (left i : ℕ) (m : Memory) (j : ℕ)
      → i + left < 7
      → j < 7
      → get_kv_offset (shift_up m p i left) p j ≡ shifted (get_kv_offset m p) i left j
  unfolding shift_up
  shift_up-kv zero i m j h hj = ground arith
  shift_up-kv (suc left) i m j h hj =
      let moved = shift_key_up-kv m p (i + suc left) h (omega arith) in
      shift_up-kv left i (shift_key_up m p (i + suc left)) j (omega arith) hj
      ∙ shifted_step (get_kv_offset m p) (get_kv_offset (shift_key_up m p (i + suc left)) p) i left
          j (moved j hj) (moved (j - 1) (omega arith))

  pub shift_up-child :
      (left i : ℕ) (m : Memory) (j : ℕ)
      → i + left < 7
      → get_child_offset (shift_up m p i left) p j ≡ shifted (get_child_offset m p) (i + 1) left j
  unfolding shift_up
  shift_up-child zero i m j h = ground arith
  shift_up-child (suc left) i m j h = ground (
    arith,
    shift_up-child left i (shift_key_up m p (i + suc left)) j,
    shift_key_up-child m p (i + suc left) h (omega arith) j,
    shift_key_up-child m p (i + suc left) h (omega arith) (j - 1),
  )
