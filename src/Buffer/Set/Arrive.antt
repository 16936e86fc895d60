-- ===== src/Buffer/Set/Arrive.antt =====
-- The rounds of `set_impl` at a child: it is split if it is full, and then the half is visited where the
-- key belongs.
use lite3_cpp.Base.{ℕ, ◌+◌, ◌*◌, ◌<◌, ◌≤◌, ◌≡◌, ◌≢◌, sym, ap, subst, Bool, List, length, arith}
use lite3_cpp.Buffer.State.{Buffer}
use lite3_cpp.Buffer.Search.Table.{Entry, position, position-le}
use lite3_cpp.Buffer.Tree.{Tree, Trees, node, count, entries, height, height_of}
use lite3_cpp.Buffer.Tree.Held.{TreeAt}
use lite3_cpp.Buffer.Tree.Frame.{Spans}
use lite3_cpp.Buffer.Tree.Order.{IsSorted}
use lite3_cpp.Buffer.Tree.Parts.{child}
use lite3_cpp.Buffer.Tree.Tidy.{Tidy, SpansOf-child, TidyOf-child, TreesAt-child}
use lite3_cpp.Buffer.Tree.Spread.{entries-spread}
use lite3_cpp.Buffer.Tree.Put.{height-child}
use lite3_cpp.Buffer.Tree.Grows.{Stored, Grows, Grows-child}
use lite3_cpp.Buffer.Tree.PutIn.{HashFree}
use lite3_cpp.Buffer.Tree.Portion.{All-child, IsSorted-child, put-child}
use lite3_cpp.Buffer.Set.Touched.{touched, Grows-touched}
use lite3_cpp.Buffer.Set.Puts.{Puts, Puts-child}
use lite3_cpp.Buffer.Set.Visit.{Ready, call}

pub Stored-child :
    (b : Buffer) (arr : Bool) (p i : ℕ) (es : List Entry) (ts : Trees)
    → i < count ts
    → Stored b arr (node p es ts)
    → Stored b arr (child i ts)
unfolding TreeAt Tidy Spans
Stored-child b arr p i es ts there stored = record {
  fits = stored.fits;
  held = TreesAt-child arr b.m_data i ts there stored.held.3;
  tidy = TidyOf-child arr i ts there stored.tidy.3;
  inside = SpansOf-child arr (λ x n. x + n ≤ b.m_used_size) i ts there stored.inside.2;
}

-- The generation of child `i` goes up.
pub Grows-touched-child :
    (b : Buffer) (arr : Bool) (p n i : ℕ) (es ces : List Entry) (ts cts : Trees)
    → Stored b arr (node p es ts)
    → i < count ts
    → child i ts ≡ node n ces cts
    → Grows b (touched b n) arr (node p es ts) (node p es ts)
Grows-touched-child b arr p n i es ces ts cts stored there at =
    let below = Stored-child b arr p i es ts there stored in
    let here = Grows-touched b arr n ces cts (subst (Stored b arr) at below) in
    subst (λ xs. Grows b (touched b n) arr (node p es ts) (node p es xs)) (put-child i ts)
      (Grows-child b (touched b n) arr p i es ts (child i ts) stored there
        (subst (λ t. Grows b (touched b n) arr t t) (sym at) here))

module _ (arr : Bool) (e : Entry) where
  -- The call at the root of a tree of at most `n` levels that is ready, its root not full, with a
  -- place in `path` for each round.
  abbrev pub Visits : ℕ → Type 1
  Visits n =
      (fuel d : ℕ) (b : Buffer) (p a : ℕ) (es : List Entry) (ts : Trees)
      → Ready arr e b (node a es ts) n
      → length es < 7
      → height (node a es ts) ≤ n
      → 2 * n ≤ fuel
      → d + 2 * n ≤ 17
      → Puts b arr (node a es ts) e (99 * n) (call arr e fuel d b p a)

  pub Ready-child :
      (b : Buffer) (p i n : ℕ) (es : List Entry) (ts : Trees)
      → count ts ≡ length es + 1
      → i < count ts
      → Ready arr e b (node p es ts) n
      → Ready arr e b (child i ts) n
  Ready-child b p i n es ts counted there ready = record {
    stored = Stored-child b arr p i es ts there ready.stored;
    sorted =
        IsSorted-child i es ts counted there (subst IsSorted (entries-spread p es ts) ready.sorted);
    free =
        All-child (λ (d : Entry). d.key.hash ≢ e.key.hash) i es ts counted there
          (subst (HashFree e.key.hash) (entries-spread p es ts) ready.free);
    space = ready.space;
  }

  pub Ready-step :
      (b b' : Buffer) (t t' : Tree) (n k : ℕ)
      → Ready arr e b t n
      → Stored b' arr t'
      → entries t' ≡ entries t
      → b'.m_used_size + 99 * k ≤ b.m_used_size + 99 * n
      → Ready arr e b' t' k
  Ready-step b b' t t' n k ready stored same le = record {
    stored = stored;
    sorted = subst IsSorted (sym same) ready.sorted;
    free = subst (HashFree e.key.hash) (sym same) ready.free;
    space = omega (arith, ready.space);
  }

  -- A visit to child `i`, whose root is not full.
  pub visit-child :
      (n fuel d : ℕ) (b : Buffer) (p c : ℕ) (es ces : List Entry) (ts cts : Trees)
      → Visits n
      → Ready arr e b (node p es ts) n
      → count ts ≡ length es + 1
      → child (position e.key es) ts ≡ node c ces cts
      → length ces < 7
      → height_of ts ≤ n
      → 2 * n ≤ fuel
      → d + 2 * n ≤ 17
      → Puts b arr (node p es ts) e (99 * n) (call arr e fuel d b p c)
  visit-child n fuel d b p c es ces ts cts visits ready counted at room low enough path =
      let i = position e.key es in
      let there : i < count ts = omega (arith, position-le e.key es) in
      let below = Ready-child b p i n es ts counted there ready in
      Puts-child arr e b p es ts (99 * n) (call arr e fuel d b p c) ready.stored counted
        ready.sorted
        (subst (λ t. Puts b arr t e (99 * n) (call arr e fuel d b p c)) (sym at)
          (visits fuel d b p c ces cts (subst (λ t. Ready arr e b t n) at below) room
            (omega (arith, ap height at, height-child i ts there)) enough path))
