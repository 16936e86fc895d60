-- ===== src/Node/Frame.antt =====
-- The setters of a node write nothing outside its 96 bytes.
use lite3_cpp.Base.{ℕ, ◌+◌, ◌*◌, ◌/◌, ◌^◌, ◌<◌, ◌≤◌, ◌≡◌, ◌∙◌, ◌%◌, sym, ap, bit_and, arith}
use lite3_cpp.Memory.{Memory, load32}
use lite3_cpp.Memory.Laws.{SameOn, SameOutside, load32-same}
use lite3_cpp.Memory.Frame.{store32-outside}
use lite3_cpp.Node.Laws.{tag_lem}
use lite3_cpp.Node.{
  Tag, of_code, tag, node_size, size, key_count, get_hash, get_kv_offset, get_child_offset,
  set_gen_type, set_size, set_size_kc, set_key_count, set_hash, set_kv_offset, set_child_offset,
}

module _ (m : Memory) (p : ℕ) where
  pub set_gen_type-outside : (g : ℕ) (t : Tag) → SameOutside p node_size m (set_gen_type m p g t)
  unfolding set_gen_type
  set_gen_type-outside g t x h = store32-outside m p _ x (omega arith)

  pub set_size-outside : (n : ℕ) → SameOutside p node_size m (set_size m p n)
  unfolding set_size
  set_size-outside n x h = store32-outside m (p + 32) _ x (omega arith)

  pub set_size_kc-outside : (n k : ℕ) → SameOutside p node_size m (set_size_kc m p n k)
  unfolding set_size_kc
  set_size_kc-outside n k x h = store32-outside m (p + 32) _ x (omega arith)

  pub set_key_count-outside : (k : ℕ) → SameOutside p node_size m (set_key_count m p k)
  unfolding set_key_count
  set_key_count-outside k x h = store32-outside m (p + 32) _ x (omega arith)

  module _ (i v : ℕ) where
    pub set_hash-outside : i < 7 → SameOutside p node_size m (set_hash m p i v)
    unfolding set_hash
    set_hash-outside le x h = store32-outside m (p + 4 + 4 * i) v x (omega arith)

    pub set_kv_offset-outside : i < 7 → SameOutside p node_size m (set_kv_offset m p i v)
    unfolding set_kv_offset
    set_kv_offset-outside le x h = store32-outside m (p + 36 + 4 * i) v x (omega arith)

    pub set_child_offset-outside : i < 8 → SameOutside p node_size m (set_child_offset m p i v)
    unfolding set_child_offset
    set_child_offset-outside le x h = store32-outside m (p + 64 + 4 * i) v x (omega arith)

-- A node is read as before where its 96 bytes are the same.
module _ (m m' : Memory) (p : ℕ) (same : SameOn p node_size m m') where
  word_same : (k : ℕ) → k + 4 ≤ node_size → load32 m' (p + k) ≡ load32 m (p + k)
  word_same k h = load32-same m m' (p + k) (λ x lo hi. same x (omega arith) (omega arith))

  pub key_count-same : key_count m' p ≡ key_count m p
  unfolding key_count
  key_count-same = ap (λ w. bit_and w 7 / 2 ^ 0) (word_same 32 (omega arith))

  pub tag-same : tag m' p ≡ tag m p
  tag-same =
      let word = load32-same m m' p (λ x lo hi. same x lo (omega arith)) in
      tag_lem m' p ∙ ap (λ w. of_code (w % 2 ^ 8)) word ∙ sym (tag_lem m p)

  pub size-same : size m' p ≡ size m p
  unfolding size
  size-same = ap (λ w. bit_and w 0xFFFFFFC0 / 2 ^ 6) (word_same 32 (omega arith))

  pub get_hash-same : (j : ℕ) → j < 7 → get_hash m' p j ≡ get_hash m p j
  unfolding get_hash
  get_hash-same j h =
      load32-same m m' (p + 4 + 4 * j) (λ x lo hi. same x (omega arith) (omega arith))

  pub get_kv_offset-same : (j : ℕ) → j < 7 → get_kv_offset m' p j ≡ get_kv_offset m p j
  unfolding get_kv_offset
  get_kv_offset-same j h =
      load32-same m m' (p + 36 + 4 * j) (λ x lo hi. same x (omega arith) (omega arith))

  pub get_child_offset-same : (j : ℕ) → j < 8 → get_child_offset m' p j ≡ get_child_offset m p j
  unfolding get_child_offset
  get_child_offset-same j h =
      load32-same m m' (p + 64 + 4 * j) (λ x lo hi. same x (omega arith) (omega arith))
