-- ===== src/Iterator/Frames.antt =====
-- What an iterator's stack stands for: for each node on it, the entries from its index on, with the
-- children behind them.
use lite3_cpp.Base.{
  ℕ, zero, suc, ◌+◌, ◌-◌, ◌<◌, ◌≤◌, ◌≡◌, ◌≢◌, refl, ◌∙◌, sym, ap, subst, false, List, [], ◌∷◌, ◌++◌,
  arith, length, ◌==◌, ==_iff, Bool-cases, inl, inr,
}
use mathlib.Core.List.{append_assoc}
use lite3_cpp.Memory.{Memory}
use lite3_cpp.Node.{key_count, get_kv_offset, get_child_offset}
use lite3_cpp.Buffer.Search.Table.{Entry, nth}
use lite3_cpp.Buffer.Search.Held.{Held, Keys, value_at}
use lite3_cpp.Buffer.Tree.{
  Tree, node, Trees, nil, cons, address, count, child_address, height, height_of, entries, weave,
}
use lite3_cpp.Buffer.Tree.Held.{TreeAt, TreesAt, ValuesBelow, ValuesBelowOf}
use lite3_cpp.Iterator.{descend}

-- A node on the stack, with the entries and the children that are still to come.
pub record Frame : Type 0 where
  pub at : ℕ
  pub index : ℕ
  pub es : List Entry
  pub ts : Trees

abbrev pub positions : List Frame → List (ℕ × ℕ)
positions [] = []
positions (f ∷ fs) = (f.at, f.index) ∷ positions fs

pub length-positions : (fs : List Frame) → length (positions fs) ≡ length fs
length-positions [] = refl
length-positions (f ∷ fs) = omega (arith, length-positions fs)

-- The entries that are still to come.
abbrev pub remaining : List Frame → List Entry
remaining [] = []
remaining (f ∷ fs) = weave f.es f.ts ++ remaining fs

module _ (m : Memory) where
  -- An entry of the node at `a`, under index `i`, whose value begins in the buffer.
  pub record EntryAt (a i : ℕ) (e : Entry) : Type 0 where
    pub link : get_kv_offset m a i ≡ e.address
    pub held : Held m false e
    pub inside : value_at false e < m.size

  -- The entries from index `i` on, and the children behind them.
  abbrev pub Rest : ℕ → ℕ → List Entry → Trees → Type 0
  Rest a i [] ts = Unit
  Rest a i (e ∷ es) nil = EntryAt a i e × (get_child_offset m a (i + 1) ≡ 0) × Rest a (i + 1) es nil
  Rest a i (e ∷ es) (cons t ts) =
      EntryAt a i e
      × (get_child_offset m a (i + 1) ≡ address t)
      × (address t ≢ 0)
      × TreeAt m false t
      × ValuesBelow m.size t
      × Rest a (i + 1) es ts

  -- The stack's nodes, with no more levels below them than the stack has room for.
  abbrev pub FramesAt : List Frame → Type 0
  FramesAt [] = Unit
  FramesAt (f ∷ fs) =
      (key_count m f.at ≡ f.index + length f.es)
      × Rest f.at f.index f.es f.ts
      × (height_of f.ts + suc (length fs) ≤ 10)
      × FramesAt fs

  module _ (a : ℕ) where
    Rest-nil :
        (es : List Entry) (i : ℕ)
        → i + length es ≤ 7
        → ((j : ℕ) → j < length es → EntryAt a (i + j) (nth es j))
        → ((j : ℕ) → j < 8 → get_child_offset m a j ≡ 0)
        → Rest a i es nil
    Rest-nil [] i room h leaf = tt
    Rest-nil (e ∷ es) i room h leaf = (
      subst (λ x. EntryAt a x e) {y = i} (omega arith) (h 0 (omega arith)),
      leaf (i + 1) (omega arith),
      Rest-nil es (i + 1) (omega arith)
          (λ j p. subst (λ x. EntryAt a x (nth es j)) (omega arith) (h (suc j) (omega arith))) leaf,
    )

    Rest-cons :
        (es : List Entry) (ts : Trees) (i : ℕ)
        → count ts ≡ length es
        → ((j : ℕ) → j < length es → EntryAt a (i + j) (nth es j))
        → ((j : ℕ)
            → j < length es
            → (get_child_offset m a (i + 1 + j) ≡ child_address ts j) × (child_address ts j ≢ 0))
        → TreesAt m false ts
        → ValuesBelowOf m.size ts
        → Rest a i es ts
    unfolding TreeAt ValuesBelow
    Rest-cons [] ts i same h links held inside = tt
    Rest-cons (e ∷ es) nil i same h links held inside = absurd (omega arith)
    Rest-cons (e ∷ es) (cons t ts) i same h links held inside = (
      subst (λ x. EntryAt a x e) {y = i} (omega arith) (h 0 (omega arith)),
      ap (get_child_offset m a) {y = i + 1 + 0} (omega arith) ∙ (links 0 (omega arith)).0,
      (links 0 (omega arith)).1,
      held.0,
      inside.0,
      Rest-cons es ts (i + 1) (omega arith)
          (λ j p. subst (λ x. EntryAt a x (nth es j)) (omega arith) (h (suc j) (omega arith)))
          (λ j p. (
            ap (get_child_offset m a) (omega arith) ∙ (links (suc j) (omega arith)).0,
            (links (suc j) (omega arith)).1,
          ))
          held.1 inside.1,
    )

  descend_end :
      (a left : ℕ) (stack : List (ℕ × ℕ))
      → get_child_offset m a 0 ≡ 0
      → descend m a left stack ≡ stack
  unfolding descend
  descend_end a zero stack h = refl
  descend_end a (suc left) stack h = rw h refl

  descend_down :
      (a child left left' : ℕ) (stack : List (ℕ × ℕ))
      → left ≡ suc left'
      → get_child_offset m a 0 ≡ child
      → child ≢ 0
      → descend m a left stack ≡ descend m child left' ((child, 0) ∷ stack)
  unfolding descend
  descend_down a child left left' stack e h ne =
      rw (e, h)
        (elim (Bool-cases (child == 0)) [
          | inl nothing ↦ absurd (ne ((==_iff _ _).0 nothing))
          | inr there ↦ rw there refl
        ])

  EntryAt-Keys :
      (a : ℕ) (es : List Entry)
      → Keys m false a es
      → ((j : ℕ) → j < length es → value_at false (nth es j) < m.size)
      → (j : ℕ) → j < length es
      → EntryAt a (0 + j) (nth es j)
  EntryAt-Keys a es keys inside j h = record {
    link = ap (get_kv_offset m a) (omega arith) ∙ keys.addresses j h;
    held = keys.held j h;
    inside = inside j h;
  }

  pub height-pos : (t : Tree) → 1 ≤ height t
  unfolding height
  height-pos (node a es ts) = omega arith

  -- Going down from the root of a tree puts all its entries before what is to come.
  pub descend-FramesAt :
      (t : Tree) (fs : List Frame)
      → TreeAt m false t
      → ValuesBelow m.size t
      → FramesAt fs
      → height t + length fs ≤ 10
      → (fs' : List Frame) × (descend m
            (address t)
            (10 - suc (length fs))
            ((address t, 0) ∷ positions fs)
          ≡ positions fs')
        × FramesAt fs'
        × (remaining fs' ≡ entries t ++ remaining fs)
  unfolding TreeAt ValuesBelow height entries
  descend-FramesAt (node a es nil) fs held inside frames deep =
      let f : Frame = record { at = a; index = 0; es = es; ts = nil } in
      (
        f ∷ fs,
        descend_end a (10 - suc (length fs)) ((a, 0) ∷ positions fs) (held.2 0 (omega arith)),
        (
          omega (arith, held.0.count),
          Rest-nil a es 0 (omega (arith, held.1)) (EntryAt-Keys a es held.0 inside.0) held.2,
          omega arith,
          frames,
        ),
        refl,
      )
  descend-FramesAt (node a es (cons t ts)) fs held inside frames deep =
      let f : Frame = record { at = a; index = 0; es = es; ts = ts } in
      let ih =
        descend-FramesAt t (f ∷ fs) held.3.0 inside.1.0
          (
            omega (arith, held.0.count),
            Rest-cons a es ts 0 (omega (arith, held.2.0)) (EntryAt-Keys a es held.0 inside.0)
                (λ j p. (
                  ap (get_child_offset m a) (omega arith) ∙ (held.2.1 (suc j) (omega arith)).0,
                  (held.2.1 (suc j) (omega arith)).1,
                ))
                held.3.1 inside.1.1,
            omega arith,
            frames,
          )
          (omega arith) in
      (
        ih.0,
        descend_down a (address t) (10 - suc (length fs)) (10 - suc (length (f ∷ fs)))
              ((a, 0) ∷ positions fs) (omega (arith, height-pos t)) ((held.2.1 0 (omega arith)).0)
              ((held.2.1 0 (omega arith)).1)
            ∙ ih.1,
        ih.2,
        ih.3 ∙ sym (append_assoc (entries t) (weave es ts) (remaining fs)),
      )
