-- ===== src/Buffer/Set/Descend.antt =====
-- The rounds of `set_impl` at a full child, and the descent from a root that is not full.
use lite3_cpp.Base.{
  ℕ, suc, ◌+◌, ◌*◌, ◌^◌, ◌<◌, ◌≤◌, ◌≡◌, ◌≢◌, refl, ◌∙◌, ap, subst, Bool, List, length, arith,
  Bool-cases, inl, inr, if◌then◌else◌, ltb,
}
use lite3_cpp.Node.{key_count}
use lite3_cpp.Buffer.State.{Buffer}
use lite3_cpp.Buffer.Search.Table.{Entry, nth, position, position-le, insert_at, length-insert_at}
use lite3_cpp.Buffer.Tree.{Tree, Trees, node, count, entries, height, height_of}
use lite3_cpp.Buffer.Tree.Held.{TreeAt}
use lite3_cpp.Buffer.Tree.Parts.{child, divide, count-divide, length-take, length-drop}
use lite3_cpp.Buffer.Tree.Spread.{entries-spread}
use lite3_cpp.Buffer.Tree.Put.{height-child}
use lite3_cpp.Buffer.Tree.Grows.{Grows, Grows-trans}
use lite3_cpp.Buffer.Tree.PutIn.{HashFree, All-nth, compare-hash, position-insert_at}
use lite3_cpp.Buffer.Tree.Portion.{All-keys, child-divide}
use lite3_cpp.Buffer.Split.{align_up}
use lite3_cpp.Buffer.Split.Rows.{Links-inner}
use lite3_cpp.Buffer.Split.Halves.{lower_half, upper_half}
use lite3_cpp.Buffer.Set.{continue, set_round}
use lite3_cpp.Buffer.Set.Touch.{key_count-touch}
use lite3_cpp.Buffer.Set.Touched.{touched}
use lite3_cpp.Buffer.Set.Child.{
  halved, halved_buffer, halved-entries, halved-used, halved-height, split_round-halved,
}
use lite3_cpp.Buffer.Set.Halved.{Grows-halved}
use lite3_cpp.Buffer.Set.Puts.{Puts, Puts-step, set_loop-continue}
use lite3_cpp.Buffer.Set.Visit.{Ready, call}
use lite3_cpp.Buffer.Set.Arrive.{Grows-touched-child, Visits, Ready-child, Ready-step, visit-child}

-- A full child `i` of a node with room, at the position of the key.
module _ (arr : Bool) (e : Entry) (n fuel d : ℕ) (visits : Visits arr e n) (b : Buffer) (p c : ℕ)
    (es ces : List Entry) (ts cts : Trees) (ready : Ready arr e b (node p es ts) (suc n))
    (counted : count ts ≡ length es + 1) (at : child (position e.key es) ts ≡ node c ces cts)
    (room : length es < 7) (full : length ces ≡ 7) (low : height_of ts ≤ n) (enough : 2 * n ≤ fuel)
    (path : d + 1 + 2 * n ≤ 17) where
  abbrev i : ℕ
  i = position e.key es

  there : i < count ts
  there = omega (arith, position-le e.key es)

  abbrev b₁ : Buffer
  b₁ = touched b c

  grows₁ : Grows b b₁ arr (node p es ts) (node p es ts)
  grows₁ = Grows-touched-child b arr p c i es ces ts cts ready.stored there at

  low₁ : b₁.m_used_size + 3 < 2 ^ 32
  low₁ = omega (arith, ready.space)

  abbrev s : ℕ
  s = align_up b₁.m_used_size

  abbrev b₂ : Buffer
  b₂ = halved_buffer b₁ p c i

  abbrev t₂ : Tree
  t₂ = halved p c s es ts i ces cts

  grows₂ : Grows b₁ b₂ arr (node p es ts) t₂
  grows₂ = Grows-halved b₁ arr p c i es ces ts cts grows₁.stored low₁ there at full room

  entries₂ : entries t₂ ≡ entries (node p es ts)
  entries₂ =
      halved-entries b₁ arr p c i es ces ts cts grows₁.stored.fits low₁ grows₁.stored.held
        grows₁.stored.tidy grows₁.stored.inside there at full room

  used₂ : b₂.m_used_size ≡ s + 96
  used₂ =
      halved-used b₁ arr p c i es ces ts cts grows₁.stored.fits low₁ grows₁.stored.held
        grows₁.stored.tidy grows₁.stored.inside there at full room

  child-Ready : Ready arr e b (node c ces cts) (suc n)
  child-Ready =
      subst (λ t. Ready arr e b t (suc n)) at
        (Ready-child arr e b p i (suc n) es ts counted there ready)

  child_count : key_count (touched b c).m_data c ≡ 7
  unfolding TreeAt
  child_count = key_count-touch b.m_data c ∙ child-Ready.stored.held.0.count ∙ full

  median_free : (nth ces 3).key.hash ≢ e.key.hash
  unfolding TreeAt
  median_free =
      All-nth (λ (d : Entry). d.key.hash ≢ e.key.hash) 3 ces (omega arith)
        (All-keys (λ (d : Entry). d.key.hash ≢ e.key.hash) ces cts
          (λ h. (Links-inner b.m_data c ces cts h child-Ready.stored.held.2).0)
          (subst (HashFree e.key.hash) (entries-spread c ces cts) child-Ready.free))

  round :
      set_round e.key.text e.key.hash e.val e.type arr b p c
      ≡ continue p (if ltb (nth ces 3).key.hash e.key.hash then s else c) b₂
  unfolding set_round
  round = rw child_count (
      split_round-halved b₁ arr p c i es ces ts cts grows₁.stored.fits low₁ grows₁.stored.held
        grows₁.stored.tidy grows₁.stored.inside there at full room e.key.text e.key.hash e.val
        e.type)

  ready₂ : Ready arr e b₂ t₂ n
  ready₂ =
      Ready-step arr e b b₂ (node p es ts) t₂ (suc n) n ready grows₂.stored entries₂
        (omega (arith, used₂))

  abbrev es₂ : List Entry
  es₂ = insert_at i (nth ces 3) es

  abbrev ts₂ : Trees
  ts₂ = divide i (lower_half c ces cts) (upper_half s ces cts) ts

  counted₂ : count ts₂ ≡ length es₂ + 1
  counted₂ = omega (
    arith,
    counted,
    count-divide i (lower_half c ces cts) (upper_half s ces cts) ts there,
    length-insert_at i (nth ces 3) es,
  )

  low₂ : height_of ts₂ ≤ n
  unfolding height
  low₂ =
      let h =
        halved-height b₁ arr p c i es ces ts cts grows₁.stored.fits low₁ grows₁.stored.held
          grows₁.stored.tidy grows₁.stored.inside there at full room in
      omega (arith, h)

  position₂ : position e.key es₂ ≡ (if ltb (nth ces 3).key.hash e.key.hash then suc i else i)
  position₂ =
      position-insert_at e.key (nth ces 3) es
      ∙ ap (λ l. if l then suc i else i) (compare-hash (nth ces 3).key e.key median_free)

  -- The visit of the half.
  half :
      Puts b₂ arr t₂ e
        (99 * n)
        (call arr e fuel (d + 1) b₂ p (if ltb (nth ces 3).key.hash e.key.hash then s else c))
  half =
      let (lower, upper) = child-divide i (lower_half c ces cts) (upper_half s ces cts) ts there in
      elim (Bool-cases (ltb (nth ces 3).key.hash e.key.hash)) [
        | inl above ↦ rw above (
            visit-child arr e n fuel (d + 1) b₂ p s es₂ _ ts₂ _ visits ready₂ counted₂
              (ap (λ j. child j ts₂) (position₂ ∙ rw above refl) ∙ upper)
              (omega (arith, length-drop 4 ces)) low₂ enough path)
        | inr below ↦ rw below (
            visit-child arr e n fuel (d + 1) b₂ p c es₂ _ ts₂ _ visits ready₂ counted₂
              (ap (λ j. child j ts₂) (position₂ ∙ rw below refl) ∙ lower)
              (omega (arith, length-take 3 ces)) low₂ enough path)
      ]

  deep : 0 < n
  unfolding height
  deep = omega (arith, ap height at, height-child i ts there)

  pub arrive-full : Puts b arr (node p es ts) e (99 * n + 99) (call arr e (suc fuel) d b p c)
  arrive-full =
      Puts-step arr e b b₂ (node p es ts) t₂ 99 (99 * n) (99 * n + 99)
        (call arr e (suc fuel) d b p c)
        (call arr e fuel (d + 1) b₂ p (if ltb (nth ces 3).key.hash e.key.hash then s else c))
        (Grows-trans b b₁ b₂ arr (node p es ts) (node p es ts) t₂ grows₁ grows₂) entries₂
        (omega (arith, used₂)) (omega arith)
        (set_loop-continue e.key.text e.key.hash e.val e.type arr b p c fuel d p _ b₂
          (omega (arith, deep)) round)
        half
