-- ===== src/Buffer/Split/Sibling.antt =====
-- The keys that a full node gives to its new sibling.
use lite3_cpp.Base.{
  ℕ, zero, suc, ◌+◌, ◌<◌, ◌≤◌, ◌≡◌, refl, ◌∙◌, arith, ◌==◌, leb, ltb, ◌&&◌, if◌then◌else◌,
}
use lite3_cpp.Memory.{Memory}
use lite3_cpp.Memory.Laws.{SameOn, SameOutside}
use lite3_cpp.Memory.Frame.{SameOn-outside}
use lite3_cpp.Node.{node_size, get_hash, get_kv_offset, get_child_offset, set_hash, set_kv_offset}
use lite3_cpp.Node.Fields.{
  get_hash-lt, get_kv_offset-lt, get_hash-set_hash, get_kv_offset-set_kv_offset,
  get_hash-set_kv_offset, get_kv_offset-set_hash, get_child_offset-set_hash,
  get_child_offset-set_kv_offset,
}
use lite3_cpp.Node.Children.{
  get_child_offset-lt, get_child_offset-set_child_offset, get_hash-set_child_offset,
  get_kv_offset-set_child_offset,
}
use lite3_cpp.Node.Frame.{
  set_hash-outside, set_kv_offset-outside, set_child_offset-outside, get_hash-same,
  get_kv_offset-same, get_child_offset-same,
}
use lite3_cpp.Buffer.Insert.Leaf.{Apart}
use lite3_cpp.Buffer.Split.{move_key_to, move_keys}

-- Index `x` of a row of the sibling after `left` keys from `j` on have come from `f`.
abbrev pub moved_in : (ℕ → ℕ) → (ℕ → ℕ) → ℕ → ℕ → ℕ → ℕ
moved_in f g j left x = if leb j x && ltb x (j + left) then f (4 + x) else g x

module _ (node sibling : ℕ) (apart : Apart node 96 sibling 96) where
  module _ (m : Memory) (j : ℕ) (few : j < 3) where
    move_key_to-outside : SameOutside sibling node_size m (move_key_to m node sibling j)
    unfolding move_key_to
    move_key_to-outside x h =
        let m₁ = set_hash m sibling j (get_hash m node (3 + 1 + j)) in
        let m₂ = set_kv_offset m₁ sibling j (get_kv_offset m₁ node (3 + 1 + j)) in
        set_child_offset-outside m₂ sibling (j + 1) (get_child_offset m₂ node (3 + 1 + j + 1))
          (omega arith) x h
        ∙ set_kv_offset-outside m₁ sibling j (get_kv_offset m₁ node (3 + 1 + j)) (omega arith) x h
        ∙ set_hash-outside m sibling j (get_hash m node (3 + 1 + j)) (omega arith) x h

    move_key_to-hash :
        (x : ℕ)
        → x < 7
        → get_hash (move_key_to m node sibling j) sibling x
          ≡ (if j == x then get_hash m node (4 + j) else get_hash m sibling x)
    unfolding move_key_to
    move_key_to-hash x h =
        let m₁ = set_hash m sibling j (get_hash m node (3 + 1 + j)) in
        let m₂ = set_kv_offset m₁ sibling j (get_kv_offset m₁ node (3 + 1 + j)) in
        get_hash-set_child_offset m₂ sibling (j + 1) (get_child_offset m₂ node (3 + 1 + j + 1)) x h
        ∙ get_hash-set_kv_offset m₁ sibling j (get_kv_offset m₁ node (3 + 1 + j)) x h
        ∙ get_hash-set_hash m sibling j (get_hash m node (3 + 1 + j)) x
        ∙ ground (arith, get_hash-lt m node (4 + j))

    move_key_to-kv :
        (x : ℕ)
        → x < 7
        → get_kv_offset (move_key_to m node sibling j) sibling x
          ≡ (if j == x then get_kv_offset m node (4 + j) else get_kv_offset m sibling x)
    unfolding move_key_to
    move_key_to-kv x h =
        let m₁ = set_hash m sibling j (get_hash m node (3 + 1 + j)) in
        let m₂ = set_kv_offset m₁ sibling j (get_kv_offset m₁ node (3 + 1 + j)) in
        let from =
          get_kv_offset-same m m₁ node
            (SameOn-outside sibling node_size node node_size m m₁ apart
              (set_hash-outside m sibling j (get_hash m node (3 + 1 + j)) (omega arith)))
            (3 + 1 + j) (omega arith) in
        get_kv_offset-set_child_offset m₂ sibling (j + 1) (get_child_offset m₂ node (3 + 1 + j + 1))
          x h
        ∙ get_kv_offset-set_kv_offset m₁ sibling j (get_kv_offset m₁ node (3 + 1 + j)) x
        ∙ ground (
          arith,
          from,
          get_kv_offset-lt m node (4 + j),
          get_kv_offset-set_hash m sibling j (get_hash m node (3 + 1 + j)) x,
        )

    move_key_to-child :
        (x : ℕ)
        → get_child_offset (move_key_to m node sibling j) sibling x
          ≡ (if j + 1 == x then get_child_offset m node (5 + j) else get_child_offset m sibling x)
    unfolding move_key_to
    move_key_to-child x =
        let m₁ = set_hash m sibling j (get_hash m node (3 + 1 + j)) in
        let m₂ = set_kv_offset m₁ sibling j (get_kv_offset m₁ node (3 + 1 + j)) in
        let from =
          get_child_offset-same m m₂ node
            (SameOn-outside sibling node_size node node_size m m₂ apart (λ y out.
              set_kv_offset-outside m₁ sibling j (get_kv_offset m₁ node (3 + 1 + j)) (omega arith) y
                out
              ∙ set_hash-outside m sibling j (get_hash m node (3 + 1 + j)) (omega arith) y out))
            (3 + 1 + j + 1) (omega arith) in
        get_child_offset-set_child_offset m₂ sibling (j + 1)
          (get_child_offset m₂ node (3 + 1 + j + 1)) x
        ∙ ground (
          arith,
          from,
          get_child_offset-lt m node (5 + j),
          get_child_offset-set_kv_offset m₁ sibling j (get_kv_offset m₁ node (3 + 1 + j)) x,
          get_child_offset-set_hash m sibling j (get_hash m node (3 + 1 + j)) x,
        )

    node_kept : SameOn node node_size m (move_key_to m node sibling j)
    node_kept =
        SameOn-outside sibling node_size node node_size m (move_key_to m node sibling j) apart
          move_key_to-outside

  pub move_keys-outside :
      (left j : ℕ) (m : Memory)
      → j + left ≤ 3
      → SameOutside sibling node_size m (move_keys m node sibling j left)
  unfolding move_keys
  move_keys-outside zero j m h x out = refl
  move_keys-outside (suc left) j m h x out =
      move_keys-outside left (j + 1) (move_key_to m node sibling j) (omega arith) x out
      ∙ move_key_to-outside m j (omega arith) x out

  module _ (x : ℕ) (hx : x < 7) where
    pub move_keys-hash :
        (left j : ℕ) (m : Memory)
        → j + left ≤ 3
        → get_hash (move_keys m node sibling j left) sibling x
          ≡ moved_in (get_hash m node) (get_hash m sibling) j left x
    unfolding move_keys
    move_keys-hash zero j m h = ground arith
    move_keys-hash (suc left) j m h =
        move_keys-hash left (j + 1) (move_key_to m node sibling j) (omega arith)
        ∙ ground (
          arith,
          move_key_to-hash m j (omega arith) x hx,
          get_hash-same m (move_key_to m node sibling j) node (node_kept m j (omega arith)) (4 + x),
        )

    pub move_keys-kv :
        (left j : ℕ) (m : Memory)
        → j + left ≤ 3
        → get_kv_offset (move_keys m node sibling j left) sibling x
          ≡ moved_in (get_kv_offset m node) (get_kv_offset m sibling) j left x
    unfolding move_keys
    move_keys-kv zero j m h = ground arith
    move_keys-kv (suc left) j m h =
        move_keys-kv left (j + 1) (move_key_to m node sibling j) (omega arith)
        ∙ ground (
          arith,
          move_key_to-kv m j (omega arith) x hx,
          get_kv_offset-same m (move_key_to m node sibling j) node (node_kept m j (omega arith))
              (4 + x),
        )

  pub move_keys-child :
      (left j x : ℕ) (m : Memory)
      → j + left ≤ 3
      → get_child_offset (move_keys m node sibling j left) sibling x
        ≡ moved_in (get_child_offset m node) (get_child_offset m sibling) (j + 1) left x
  unfolding move_keys
  move_keys-child zero j x m h = ground arith
  move_keys-child (suc left) j x m h =
      move_keys-child left (j + 1) x (move_key_to m node sibling j) (omega arith)
      ∙ ground (
        arith,
        move_key_to-child m j (omega arith) x,
        get_child_offset-same m (move_key_to m node sibling j) node (node_kept m j (omega arith))
            (4 + x),
      )
