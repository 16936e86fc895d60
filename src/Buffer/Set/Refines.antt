-- ===== src/Buffer/Set/Refines.antt =====
-- `set_impl` of a new key on a tree of at most eight levels, and `get_impl` after it.
use lite3_cpp.Base.{
  ℕ, suc, ◌+◌, ◌*◌, ◌^◌, ◌<◌, ◌≤◌, ◌≡◌, refl, sym, ◌∙◌, ap, subst, Bool, true, List, [], some,
  length, arith, Bool-cases, inl, inr, if◌then◌else◌, ltb, size_max,
}
use lite3_cpp.Node.{key_count, node_size}
use lite3_cpp.Outcome.{ok}
use lite3_cpp.Node.Head.{SameHead, SameHead-trans}
use lite3_cpp.Buffer.State.{Buffer}
use lite3_cpp.Buffer.Compare.Order.{Key, compare_keys}
use lite3_cpp.Buffer.Search.{is_eq, get_impl, rounds}
use lite3_cpp.Buffer.Search.Leaf.{found}
use lite3_cpp.Buffer.Search.Table.{Entry, position, lookup, lookup-insert_at}
use lite3_cpp.Buffer.Search.Held.{value_at}
use lite3_cpp.Buffer.Insert.Leaf.{IsNew}
use lite3_cpp.Buffer.Tree.{Tree, Trees, nil, cons, node, entries, height}
use lite3_cpp.Buffer.Tree.Held.{TreeAt}
use lite3_cpp.Buffer.Tree.Order.{IsSorted, get_impl-entries}
use lite3_cpp.Buffer.Tree.Grows.{Stored}
use lite3_cpp.Buffer.Tree.PutIn.{put_in, lookup-HashFree, put_in-IsSorted}
use lite3_cpp.Buffer.Split.{align_up}
use lite3_cpp.Buffer.Set.{set_impl, set_round}
use lite3_cpp.Buffer.Set.Root.{raised, raised_buffer}
use lite3_cpp.Buffer.Set.Touch.{key_count-touch}
use lite3_cpp.Buffer.Set.Touched.{touched, Grows-touched}
use lite3_cpp.Buffer.Set.Puts.{placed, Puts, set_loop-replace}
use lite3_cpp.Buffer.Set.Visit.{Ready, call}
use lite3_cpp.Buffer.Set.Arrive.{Ready-step}
use lite3_cpp.Buffer.Set.Walk.{arrive, visit}
use lite3_cpp.Buffer.Set.Raised.{Sets, root-round, root-entries, raised-Even}

module _ (b : Buffer) (arr : Bool) (a : ℕ) (es : List Entry) (ts : Trees) (e : Entry)
    (new : IsNew arr e) (ready : Ready arr e b (node a es ts) (height (node a es ts) + 2))
    (levels : height (node a es ts) ≤ b.m_used_size) (low : height (node a es ts) ≤ 8) where
  abbrev t : Tree
  t = node a es ts

  abbrev h : ℕ
  h = height t

  -- The first round splits a full root.
  at_full_root :
      length es ≡ 7
      → (b₂ : Buffer) × (call arr e (rounds b) 0 b size_max a
          ≡ call arr e (suc (2 * b.m_used_size + 2)) 0 b₂ a (align_up b.m_used_size))
        × Stored b₂ arr (raised b a es ts)
        × (b₂.m_used_size ≡ align_up b.m_used_size + node_size)
        × SameHead b.m_data b₂.m_data a
  unfolding TreeAt set_round
  at_full_root full =
      let b₁ = touched b a in
      let stored₁ = (Grows-touched b arr a es ts ready.stored).stored in
      let space : b₁.m_used_size + 3 < 2 ^ 32 = omega (arith, ready.space) in
      let flat : h < rounds b₁ = omega arith in
      let count : key_count b₁.m_data a ≡ 7 =
        key_count-touch b.m_data a ∙ ready.stored.held.0.count ∙ full in
      let (round, stored₂, used₂, head₂) = root-round b₁ arr a es ts stored₁ space flat e in
      (
        raised_buffer b₁ a,
        ap (λ n. call arr e n 0 b size_max a) {y = suc (suc (2 * b.m_used_size + 2))} (omega arith)
            ∙ set_loop-replace e.key.text e.key.hash e.val e.type arr b size_max a
                (suc (2 * b.m_used_size + 2)) 0 a (align_up b.m_used_size) (raised_buffer b₁ a)
                (omega arith) (rw count round),
        stored₂,
        used₂,
        SameHead-trans b.m_data b₁.m_data (raised_buffer b₁ a).m_data a
            (Grows-touched b arr a es ts ready.stored).head head₂,
      )

  -- The result at a root that is not full.
  Puts-few : length es < 7 → Puts b arr t e (99 * h) (call arr e (rounds b) 0 b size_max a)
  Puts-few room =
      visit arr e new h (rounds b) 0 b size_max a es ts
        (Ready-step arr e b b t t (h + 2) h ready ready.stored refl (omega arith)) room
        (omega arith) (omega arith) (omega arith)

  Sets-few :
      (p : Puts b arr t e (99 * h) (call arr e (rounds b) 0 b size_max a))
      → Sets b p.buffer arr t p.tree (placed e p.at)
  Sets-few p = record {
    stored = p.grows.stored;
    same = p.grows.same;
    head = p.grows.head;
    put_entry = p.put_entry;
    used = p.grows.used;
    spent = omega (arith, p.spent);
    low = omega (arith, p.grows.low);
    even = λ d e. (d, omega arith, p.grows.even d e);
    grown = omega (arith, p.grows.low);
  }

  Result : Type 0
  Result =
      (b' : Buffer) × (t' : Tree) × (at : ℕ) × (call arr e (rounds b) 0 b size_max a
        ≡ ok (value_at arr (placed e at), b'))
      × Sets b b' arr t t' (placed e at)

  set-full : length es ≡ 7 → Result
  unfolding Result height position
  set-full full =
      let (b₂, goes, stored₂, used₂, head₂) = at_full_root full in
      let to = align_up b.m_used_size in
      let t₂ = raised b a es ts in
      let same =
        root-entries b arr a es ts ready.stored (omega (arith, ready.space)) (omega arith) in
      let ready₂ : Ready arr e b₂ t₂ (suc h) =
        Ready-step arr e b b₂ t t₂ (h + 2) (suc h) ready stored₂ same (omega (arith, used₂)) in
      let p : Puts b₂ arr t₂ e (99 * suc h) (call arr e (suc (2 * b.m_used_size + 2)) 0 b₂ a to) =
        arrive arr e h (2 * b.m_used_size + 2) 0 b₂ a [] (cons (node to es ts) nil)
          (visit arr e new h) ready₂ (omega arith) (omega arith) (omega arith) (omega arith)
          (omega arith) in
      (
        p.buffer,
        p.tree,
        p.at,
        goes ∙ p.returned,
        record {
          stored = p.grows.stored;
          same = p.grows.same;
          head = SameHead-trans b.m_data b₂.m_data p.buffer.m_data a head₂ p.grows.head;
          put_entry = p.put_entry ∙ ap (put_in (placed e p.at)) same;
          used = omega (arith, p.grows.used, used₂);
          spent = omega (arith, p.spent, used₂);
          low = omega (arith, p.grows.low);
          even = λ d e. (
            suc d,
            omega arith,
            p.grows.even (suc d) (
                raised-Even b arr a es ts ready.stored (omega (arith, ready.space)) (omega arith) d
                  full e),
          );
          grown = omega (arith, p.grows.low, p.grows.used, used₂);
        },
      )

  -- At the root of a tree that lies in the used bytes, its nodes apart from each other and from the
  -- entries, its entries in the order of their keys, of at most eight levels and no more than there
  -- are used bytes, and for a new entry (`IsNew`) whose hash no entry has, where the used bytes, 99
  -- bytes for every level and two more, the entry and three bytes stay below 2^32 (`Ready`):
  -- `set_impl` returns, within its rounds and the sixteen places of `path`, the address of the
  -- entry's value and a buffer with such a tree at the same root, of the same type and size, whose
  -- entries are those of before with the new one put in at its position; it has at most one level
  -- more, its leaves all lie on one level and its nodes below the root have at least three keys if
  -- those of before did, and the used bytes have grown by no more than was reckoned (`Sets`).
  pub set_impl-Tree :
      (b' : Buffer) × (t' : Tree) × (at : ℕ) × (set_impl b a e.key.text e.key.hash e.val e.type arr
        ≡ ok (value_at arr (placed e at), b'))
      × Sets b b' arr t t' (placed e at)
  unfolding TreeAt Result set_impl
  set_impl-Tree = elim (Bool-cases (ltb (length es) 7)) [
    | inl few ↦ let p = Puts-few (ground arith) in (p.buffer, p.tree, p.at, p.returned, Sets-few p)
    | inr all ↦ set-full (ground (arith, ready.stored.held.1))
  ]

  -- At the root of such a tree, for such a new entry and with such room (`Ready`, at most eight
  -- levels and no more than there are used bytes): `set_impl` returns, and then `get_impl` finds
  -- the entry's data and type under its key, and under every key that compares otherwise it returns
  -- what it returned before; in an array a key has no text.
  pub get_impl-set_impl_tree :
      (b' : Buffer) × (at : ℕ) × (set_impl b a e.key.text e.key.hash e.val e.type arr
        ≡ ok (value_at arr (placed e at), b'))
      × ((k : Key)
          → (arr ≡ true → k.text ≡ [])
          → get_impl b' a k.text k.hash arr ≡ (
              if is_eq (compare_keys e.key k)
              then ok (some (value_at arr (placed e at) + 1, e.type))
              else get_impl b a k.text k.hash arr))
  get_impl-set_impl_tree =
      let (b', t', at, returned, sets) = set_impl-Tree in
      let out = lookup-HashFree e.key (entries t) ready.free in
      let sorted' : IsSorted (entries t') =
        subst IsSorted (sym sets.put_entry)
          (put_in-IsSorted (placed e at) (entries t) ready.free ready.sorted) in
      (
        b',
        at,
        returned,
        λ k array.
            subst (λ x. get_impl b' x k.text k.hash arr ≡ ok (found arr (lookup k (entries t'))))
              sets.same
              (get_impl-entries b' arr t' k array sets.stored.held sorted'
                (omega (arith, sets.grown, sets.used)))
            ∙ rw
                (
                  sets.put_entry,
                  lookup-insert_at k (placed e at) (entries t) out,
                  get_impl-entries b arr t k array ready.stored.held ready.sorted (omega arith),
                )
                (ground arith),
      )
