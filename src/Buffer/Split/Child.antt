-- ===== src/Buffer/Split/Child.antt =====
-- The words of the three nodes that `split_child` writes.
use lite3_cpp.Base.{ℕ, ◌+◌, ◌-◌, ◌^◌, ◌<◌, ◌≤◌, ◌≡◌, refl, ◌∙◌, sym, subst, arith, u32}
use lite3_cpp.Memory.{Memory}
use lite3_cpp.Memory.Laws.{SameOn, SameOutside}
use lite3_cpp.Memory.Frame.{SameOn-outside}
use lite3_cpp.Node.{
  size, key_count, get_hash, get_kv_offset, get_child_offset, set_size_kc, set_key_count, set_hash,
  set_kv_offset, set_child_offset,
}
use lite3_cpp.Node.Fields.{
  get_hash-lt, get_kv_offset-lt, get_hash-set_hash, get_kv_offset-set_kv_offset,
  get_hash-set_kv_offset, get_kv_offset-set_hash, get_child_offset-set_hash,
  get_child_offset-set_kv_offset, key_count-set_hash, key_count-set_kv_offset,
  key_count-set_key_count, get_hash-set_key_count, get_kv_offset-set_key_count,
  get_child_offset-set_key_count,
}
use lite3_cpp.Node.Children.{
  get_child_offset-set_child_offset, get_hash-set_child_offset, get_kv_offset-set_child_offset,
  key_count-set_child_offset, key_count-set_size_kc, get_hash-set_size_kc,
  get_kv_offset-set_size_kc, get_child_offset-set_size_kc,
}
use lite3_cpp.Node.Frame.{
  set_size_kc-outside, set_key_count-outside, set_hash-outside, set_kv_offset-outside,
  set_child_offset-outside, key_count-same, get_hash-same, get_kv_offset-same,
  get_child_offset-same,
}
use lite3_cpp.Node.Head.{
  SameHead, SameHead-trans, SameHead-same, SameHead-set_hash, SameHead-set_kv_offset,
  SameHead-set_child_offset, SameHead-set_size_kc,
}
use lite3_cpp.Buffer.Split.Heads.{SameHead-shift_up}
use lite3_cpp.Buffer.State.{Buffer}
use lite3_cpp.Buffer.Insert.Leaf.{Apart}
use lite3_cpp.Buffer.Insert.Slots.{inserted}
use lite3_cpp.Buffer.Split.{shift_up, split_child}
use lite3_cpp.Buffer.Split.Parent.{
  shift_up-count, shift_up-outside, shift_up-hash, shift_up-kv, shift_up-child,
}
use lite3_cpp.Buffer.Split.Divides.{Divides}
use lite3_cpp.Buffer.Split.Given.{
  given, given-outside, node-given, sibling-hash, sibling-kv, sibling-child, count-sibling,
  key_count-emptied,
}

module _ (b : Buffer) (p n i : ℕ) (parent_in : p + 96 ≤ b.m_used_size)
    (node_in : n + 96 ≤ b.m_used_size) (apart : Apart p 96 n 96)
    (addressable : b.m_used_size < 2 ^ 32) (full : key_count b.m_data n ≡ 7)
    (room : key_count b.m_data p < 7) (pos : i ≤ key_count b.m_data p) where
  abbrev m : Memory
  m = b.m_data

  abbrev s : ℕ
  s = b.m_used_size

  abbrev c : ℕ
  c = key_count m p

  abbrev m₅ : Memory
  m₅ = given b n

  parent₅ : SameOn p 96 m m₅
  parent₅ = SameOn-outside s 96 p 96 m m₅ (omega arith) (given-outside b n node_in)

  -- The parent with the promoted key and the sibling behind the node.
  abbrev m₆ : Memory
  m₆ = shift_up m₅ p i (c - i)

  abbrev m₇ : Memory
  m₇ = set_hash m₆ p i (get_hash m₆ n 3)

  abbrev m₈ : Memory
  m₈ = set_kv_offset m₇ p i (get_kv_offset m₇ n 3)

  abbrev m₉ : Memory
  m₉ = set_child_offset m₈ p (i + 1) (u32 s)

  abbrev m₁₀ : Memory
  m₁₀ = set_size_kc m₉ p (size m₉ p) (key_count m₉ p + 1)

  m₆-outside : SameOutside p 96 m₅ m₆
  m₆-outside x h = shift_up-outside p (c - i) i m₅ (omega arith) x h

  m₇-outside : SameOutside p 96 m₅ m₇
  m₇-outside x h = set_hash-outside m₆ p i (get_hash m₆ n 3) (omega arith) x h ∙ m₆-outside x h

  m₁₀-outside : SameOutside p 96 m₅ m₁₀
  m₁₀-outside x h =
      set_size_kc-outside m₉ p (size m₉ p) (key_count m₉ p + 1) x h
      ∙ set_child_offset-outside m₈ p (i + 1) (u32 s) (omega arith) x h
      ∙ set_kv_offset-outside m₇ p i (get_kv_offset m₇ n 3) (omega arith) x h
      ∙ m₇-outside x h

  node₆ : SameOn n 96 m₅ m₆
  node₆ = SameOn-outside p 96 n 96 m₅ m₆ (omega arith) m₆-outside

  node₇ : SameOn n 96 m₅ m₇
  node₇ = SameOn-outside p 96 n 96 m₅ m₇ (omega arith) m₇-outside

  median-hash : get_hash m₆ n 3 ≡ get_hash m n 3
  median-hash =
      get_hash-same m₅ m₆ n node₆ 3 (omega arith)
      ∙ get_hash-same m m₅ n (node-given b n node_in) 3 (omega arith)

  median-kv : get_kv_offset m₇ n 3 ≡ get_kv_offset m n 3
  median-kv =
      get_kv_offset-same m₅ m₇ n node₇ 3 (omega arith)
      ∙ get_kv_offset-same m m₅ n (node-given b n node_in) 3 (omega arith)

  parent-hash : (j : ℕ) → j ≤ c → get_hash m₁₀ p j ≡ inserted (get_hash m p) i (get_hash m n 3) j
  parent-hash j h =
      get_hash-set_size_kc m₉ p (size m₉ p) (key_count m₉ p + 1) j (omega arith)
      ∙ get_hash-set_child_offset m₈ p (i + 1) (u32 s) j (omega arith)
      ∙ get_hash-set_kv_offset m₇ p i (get_kv_offset m₇ n 3) j (omega arith)
      ∙ get_hash-set_hash m₆ p i (get_hash m₆ n 3) j
      ∙ ground (
        arith,
        median-hash,
        get_hash-lt m n 3,
        shift_up-hash p (c - i) i m₅ j,
        get_hash-same m m₅ p parent₅ j,
        get_hash-same m m₅ p parent₅ (j - 1),
      )

  parent-kv :
      (j : ℕ)
      → j ≤ c
      → get_kv_offset m₁₀ p j ≡ inserted (get_kv_offset m p) i (get_kv_offset m n 3) j
  parent-kv j h =
      get_kv_offset-set_size_kc m₉ p (size m₉ p) (key_count m₉ p + 1) j
      ∙ get_kv_offset-set_child_offset m₈ p (i + 1) (u32 s) j (omega arith)
      ∙ get_kv_offset-set_kv_offset m₇ p i (get_kv_offset m₇ n 3) j
      ∙ ground (
        arith,
        median-kv,
        get_kv_offset-lt m n 3,
        get_kv_offset-set_hash m₆ p i (get_hash m₆ n 3) j,
        shift_up-kv p (c - i) i m₅ j,
        get_kv_offset-same m m₅ p parent₅ j,
        get_kv_offset-same m m₅ p parent₅ (j - 1),
      )

  parent-child :
      (j : ℕ) → j ≤ c + 1 → get_child_offset m₁₀ p j ≡ inserted (get_child_offset m p) (i + 1) s j
  parent-child j h =
      get_child_offset-set_size_kc m₉ p (size m₉ p) (key_count m₉ p + 1) j
      ∙ get_child_offset-set_child_offset m₈ p (i + 1) (u32 s) j
      ∙ ground (
        arith,
        get_child_offset-set_kv_offset m₇ p i (get_kv_offset m₇ n 3) j,
        get_child_offset-set_hash m₆ p i (get_hash m₆ n 3) j,
        shift_up-child p (c - i) i m₅ j,
        get_child_offset-same m m₅ p parent₅ j,
        get_child_offset-same m m₅ p parent₅ (j - 1),
      )

  count-parent : key_count m₁₀ p ≡ c + 1
  count-parent =
      key_count-set_size_kc m₉ p (size m₉ p) (key_count m₉ p + 1)
      ∙ omega (
        arith,
        key_count-set_child_offset m₈ p (i + 1) (u32 s),
        key_count-set_kv_offset m₇ p i (get_kv_offset m₇ n 3),
        key_count-set_hash m₆ p i (get_hash m₆ n 3) (omega arith),
        shift_up-count p (c - i) i m₅ (omega arith),
        key_count-same m m₅ p parent₅,
      )

  abbrev m₁₁ : Memory
  m₁₁ = set_key_count m₁₀ n 3

  split_child-m₁₁ : (split_child b p n i).m_data ≡ m₁₁
  unfolding split_child
  split_child-m₁₁ = rw (key_count-emptied b n node_in, full, key_count-same m m₅ p parent₅) refl

  m₁₁-outside : SameOutside n 96 m₁₀ m₁₁
  m₁₁-outside = set_key_count-outside m₁₀ n 3

  parent₁₁ : SameOn p 96 m₁₀ m₁₁
  parent₁₁ = SameOn-outside n 96 p 96 m₁₀ m₁₁ (omega arith) m₁₁-outside

  sibling₁₁ : SameOn s 96 m₅ m₁₁
  sibling₁₁ x lo hi =
      SameOn-outside n 96 s 96 m₁₀ m₁₁ (omega arith) m₁₁-outside x lo hi
      ∙ SameOn-outside p 96 s 96 m₅ m₁₀ (omega arith) m₁₀-outside x lo hi

  node₁₀ : SameOn n 96 m m₁₀
  node₁₀ x lo hi =
      SameOn-outside p 96 n 96 m₅ m₁₀ (omega arith) m₁₀-outside x lo hi
      ∙ (node-given b n node_in) x lo hi

  kept₁₁ : (x k : ℕ) → Apart x k p 96 → Apart x k n 96 → x + k ≤ s → SameOn x k m m₁₁
  kept₁₁ x k off_p off_n old y lo hi =
      SameOn-outside n 96 x k m₁₀ m₁₁ off_n m₁₁-outside y lo hi
      ∙ SameOn-outside p 96 x k m₅ m₁₀ off_p m₁₀-outside y lo hi
      ∙ SameOn-outside s 96 x k m m₅ (omega arith) (given-outside b n node_in) y lo hi

  parent-SameHead : SameHead m m₁₀ p
  parent-SameHead = SameHead-trans m m₅ m₁₀ p (SameHead-same m m₅ p parent₅) (
      SameHead-trans m₅ m₆ m₁₀ p (SameHead-shift_up (c - i) i m₅ p (omega arith)) (
        SameHead-trans m₆ m₇ m₁₀ p (SameHead-set_hash m₆ p i (get_hash m₆ n 3) (omega arith)) (
          SameHead-trans m₇ m₈ m₁₀ p (SameHead-set_kv_offset m₇ p i (get_kv_offset m₇ n 3)) (
            SameHead-trans m₈ m₉ m₁₀ p (SameHead-set_child_offset m₈ p (i + 1) (u32 s))
              (SameHead-set_size_kc m₉ p (key_count m₉ p + 1))))))

  Divides-m₁₁ : Divides m m₁₁ p n s i
  Divides-m₁₁ = record {
    sibling_count = key_count-same m₅ m₁₁ s sibling₁₁ ∙ count-sibling b n node_in;
    sibling_hash =
        λ j h. get_hash-same m₅ m₁₁ s sibling₁₁ j (omega arith) ∙ sibling-hash b n node_in j h;
    sibling_kv =
        λ j h. get_kv_offset-same m₅ m₁₁ s sibling₁₁ j (omega arith) ∙ sibling-kv b n node_in j h;
    sibling_child =
        λ j h. get_child_offset-same m₅ m₁₁ s sibling₁₁ j h ∙ sibling-child b n node_in j h;
    node_count = key_count-set_key_count m₁₀ n 3 ∙ omega arith;
    node_hash = λ j h. get_hash-set_key_count m₁₀ n 3 j h ∙ get_hash-same m m₁₀ n node₁₀ j h;
    node_kv = λ j h. get_kv_offset-set_key_count m₁₀ n 3 j ∙ get_kv_offset-same m m₁₀ n node₁₀ j h;
    node_child =
        λ j h. get_child_offset-set_key_count m₁₀ n 3 j ∙ get_child_offset-same m m₁₀ n node₁₀ j h;
    parent_count = key_count-same m₁₀ m₁₁ p parent₁₁ ∙ count-parent;
    parent_hash = λ j h. get_hash-same m₁₀ m₁₁ p parent₁₁ j (omega arith) ∙ parent-hash j h;
    parent_kv = λ j h. get_kv_offset-same m₁₀ m₁₁ p parent₁₁ j (omega arith) ∙ parent-kv j h;
    parent_child =
        λ j h. get_child_offset-same m₁₀ m₁₁ p parent₁₁ j (omega arith) ∙ parent-child j h;
    parent_head = SameHead-trans m m₁₀ m₁₁ p parent-SameHead (SameHead-same m₁₀ m₁₁ p parent₁₁);
    kept = kept₁₁;
  }

  pub split_child-Divides : Divides m (split_child b p n i).m_data p n s i
  split_child-Divides = subst (λ m'. Divides m m' p n s i) (sym split_child-m₁₁) Divides-m₁₁
