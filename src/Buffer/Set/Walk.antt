-- ===== src/Buffer/Set/Walk.antt =====
-- The descent of `set_impl` from a root that is not full.
use lite3_cpp.Base.{
  ℕ, zero, suc, ◌+◌, ◌*◌, ◌<◌, ◌≤◌, ◌≡◌, refl, ◌∙◌, ap, subst, Bool, List, length, arith,
  Bool-cases, inl, inr, ltb,
}
use lite3_cpp.Buffer.State.{Buffer}
use lite3_cpp.Buffer.Search.Table.{Entry, position, position-le}
use lite3_cpp.Buffer.Insert.Leaf.{IsNew}
use lite3_cpp.Buffer.Tree.{Trees, nil, cons, node, address, count, height, height_of, child_address}
use lite3_cpp.Buffer.Tree.Held.{TreeAt}
use lite3_cpp.Buffer.Tree.Parts.{child}
use lite3_cpp.Buffer.Tree.Portion.{Tree-parts}
use lite3_cpp.Buffer.Split.Rows.{child_address-child}
use lite3_cpp.Buffer.Set.Touched.{touched, Grows-touched}
use lite3_cpp.Buffer.Set.Puts.{Puts, Puts-more, Puts-step, set_loop-continue}
use lite3_cpp.Buffer.Set.Visit.{Ready, call, leaf-Puts, set_round-down}
use lite3_cpp.Buffer.Set.Descend.{arrive-full}
use lite3_cpp.Buffer.Set.Arrive.{Visits, Ready-child, Ready-step, visit-child}

module _ (arr : Bool) (e : Entry) where
  -- A child, full or not, at the position of the key.
  pub arrive :
      (n fuel d : ℕ) (b : Buffer) (p : ℕ) (es : List Entry) (ts : Trees)
      → Visits arr e n
      → Ready arr e b (node p es ts) (suc n)
      → count ts ≡ length es + 1
      → length es < 7
      → height_of ts ≤ n
      → 2 * n ≤ fuel
      → d + 1 + 2 * n ≤ 17
      → Puts b arr
          (node p es ts)
          e
          (99 * suc n)
          (call arr e (suc fuel) d b p (child_address ts (position e.key es)))
  unfolding TreeAt
  arrive n fuel d b p es ts visits ready counted room low enough path =
      let i = position e.key es in
      let there : i < count ts = omega (arith, position-le e.key es) in
      let (c, ces, cts, at) = Tree-parts (child i ts) in
      let linked : child_address ts i ≡ c = child_address-child i ts there ∙ ap address at in
      let below : Ready arr e b (node c ces cts) (suc n) =
        subst (λ t. Ready arr e b t (suc n)) at
          (Ready-child arr e b p i (suc n) es ts counted there ready) in
      rw linked (elim (Bool-cases (ltb (length ces) 7)) [
        | inl few ↦
            Puts-more arr e b (node p es ts) (99 * n) (99 * suc n) (call arr e (suc fuel) d b p c)
              (omega arith)
              (visit-child arr e n (suc fuel) d b p c es ces ts cts visits
                (Ready-step arr e b b (node p es ts) (node p es ts) (suc n) n ready ready.stored
                  refl (omega arith))
                counted at (ground arith) low (omega arith) (omega arith))
        | inr all ↦
            Puts-more arr e b (node p es ts) (99 * n + 99) (99 * suc n)
              (call arr e (suc fuel) d b p c) (omega arith)
              (arrive-full arr e n fuel d visits b p c es ces ts cts ready counted at room
                (ground (arith, below.stored.held.1)) low enough path)
      ])

  -- The descent from a root that is not full.
  pub visit : IsNew arr e → (n : ℕ) → Visits arr e n
  unfolding height TreeAt
  visit new zero fuel d b p a es ts ready room low enough path = absurd (omega arith)
  visit new (suc n) zero d b p a es ts ready room low enough path = absurd (omega arith)
  visit new (suc n) (suc fuel) d b p a es nil ready room low enough path =
      leaf-Puts arr e new b p a es room (suc n) fuel d (omega arith) ready
  visit new (suc n) (suc zero) d b p a es (cons t ts) ready room low enough path =
      absurd (omega arith)
  visit new (suc n) (suc (suc fuel)) d b p a es (cons t ts) ready room low enough path =
      let kids = cons t ts in
      let b' = touched b a in
      let grown = Grows-touched b arr a es kids ready.stored in
      let i = position e.key es in
      Puts-step arr e b b' (node a es kids) (node a es kids) 0 (99 * suc n) (99 * suc n)
        (call arr e (suc (suc fuel)) d b p a)
        (call arr e (suc fuel) (d + 1) b' a (child_address kids i)) grown refl (omega arith)
        (omega arith)
        (set_loop-continue e.key.text e.key.hash e.val e.type arr b p a (suc fuel) d a
          (child_address kids i) b' (omega arith)
          (set_round-down arr e new.array b p a es kids (omega arith) room (suc n) ready))
        (arrive n fuel (d + 1) b' a es kids (visit new n)
          (Ready-step arr e b b' (node a es kids) (node a es kids) (suc n) (suc n) ready
            grown.stored refl (omega arith))
          ready.stored.held.2.0 room (omega arith) (omega arith) (omega arith))
