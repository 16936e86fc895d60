-- ===== src/Buffer/Set/Divided.antt =====
-- The tree that the split of a full child makes.
use lite3_cpp.Base.{ℕ, ◌+◌, ◌<◌, ◌≤◌, ◌≡◌, sym, subst, Bool, List, length, arith}
use lite3_cpp.Node.{node_size}
use lite3_cpp.Buffer.Search.Table.{Entry, nth}
use lite3_cpp.Buffer.Search.Held.{entry_size}
use lite3_cpp.Buffer.Insert.Leaf.{Apart}
use lite3_cpp.Buffer.Tree.{Tree, Trees, node, count}
use lite3_cpp.Buffer.Tree.Frame.{Spans, SpansOf}
use lite3_cpp.Buffer.Tree.Parts.{child, divide}
use lite3_cpp.Buffer.Tree.Tidy.{Off, OffOf, Tidy, OffOf-child, SpansOf-child, TidyOf-child}
use lite3_cpp.Buffer.Tree.Put.{OffOthers, OffOf-OffOthers, OffOf-divide, SpansOf-divide}
use lite3_cpp.Buffer.Tree.Replace.{Fresh, Extends, StaysOff, TidyOf-OffOthers, TidyOf-divide}
use lite3_cpp.Buffer.Split.Halves.{lower_half, upper_half}
use lite3_cpp.Buffer.Split.Pieces.{
  Extends-lower, Extends-upper, StaysOff-lower, StaysOff-upper, Tidy-lower, Tidy-upper, lower-upper,
  upper-lower,
}
use lite3_cpp.Buffer.Set.Touched.{EntrySpans-insert_at}
use lite3_cpp.Buffer.Set.Child.{halved}

root_entry :
    (P : ℕ → ℕ → Type 0) (arr : Bool) (n j : ℕ) (ces : List Entry) (cts : Trees)
    → j < length ces
    → Spans P arr (node n ces cts)
    → P (nth ces j).address (entry_size arr (nth ces j))
unfolding Spans
root_entry P arr n j ces cts h all = all.1 j h

-- A node with a child cut into halves, the upper one behind the used bytes.
module _ (arr : Bool) (p n s i lo hi : ℕ) (es ces : List Entry) (ts cts : Trees) (behind : lo ≤ s)
    (ends : s + node_size ≤ hi) (tidy : Tidy arr (node p es ts))
    (inside : Spans (λ x k. x + k ≤ lo) arr (node p es ts)) (there : i < count ts)
    (pos : i ≤ length es) (at : child i ts ≡ node n ces cts) (full : length ces ≡ 7) where
  abbrev u : Tree
  u = lower_half n ces cts

  abbrev v : Tree
  v = upper_half s ces cts

  inside-child : Spans (λ x k. x + k ≤ lo) arr (node n ces cts)
  unfolding Spans
  inside-child =
      subst (Spans (λ x k. x + k ≤ lo) arr) at
        (SpansOf-child arr (λ x k. x + k ≤ lo) i ts there inside.2)

  Tidy-child : Tidy arr (node n ces cts)
  unfolding Tidy
  Tidy-child = subst (Tidy arr) at (TidyOf-child arr i ts there tidy.3)

  -- What a region off the node's old child needs to be off the halves.
  OffOf-halved :
      (x k : ℕ)
      → OffOthers i ts x k
      → Off (node n ces cts) x k
      → x + k ≤ lo
      → OffOf (divide i u v ts) x k
  OffOf-halved x k others out below =
      OffOf-divide i u v ts x k others
        (StaysOff-lower arr n s lo hi ces cts full behind ends x k out below)
        (StaysOff-upper arr n s lo hi ces cts full behind ends x k out below)

  OffOf-kept : (x k : ℕ) → OffOf ts x k → x + k ≤ lo → OffOf (divide i u v ts) x k
  OffOf-kept x k out below =
      OffOf-halved x k (OffOf-OffOthers i ts x k out)
        (subst (λ t. Off t x k) at (OffOf-child i ts x k there out)) below

  SpansOf-halved :
      (P : ℕ → ℕ → Type 0) → SpansOf P arr ts → Fresh lo hi P → SpansOf P arr (divide i u v ts)
  SpansOf-halved P all fresh =
      let here = subst (Spans P arr) at (SpansOf-child arr P i ts there all) in
      SpansOf-divide P arr i u v ts all
        (Extends-lower arr n s lo hi ces cts full behind ends P here fresh)
        (Extends-upper arr n s lo hi ces cts full behind ends P here fresh)

  median :
      (P : ℕ → ℕ → Type 0)
      → Spans P arr (child i ts)
      → P (nth ces 3).address (entry_size arr (nth ces 3))
  median P all = root_entry P arr n 3 ces cts (omega arith) (subst (Spans P arr) at all)

  pub Tidy-halved : Tidy arr (halved p n s es ts i ces cts)
  unfolding Tidy Spans Off
  Tidy-halved = (
    EntrySpans-insert_at (λ x k. (Apart x k p 96) × OffOf (divide i u v ts) x k) arr i (nth ces 3)
        es pos (λ j h. ((tidy.0 j h).0, OffOf-kept _ _ (tidy.0 j h).1 (inside.1 j h)))
        (
          median (λ x k. Apart x k p 96)
              (SpansOf-child arr (λ x k. Apart x k p 96) i ts there tidy.1),
          OffOf-halved _ _ (median (OffOthers i ts) (TidyOf-OffOthers arr i ts there tidy.3))
              (Tidy-child.0 3 (omega arith)) (inside-child.1 3 (omega arith)),
        ),
    SpansOf-halved (λ x k. Apart x k p 96) tidy.1 (λ x k from to. omega (arith, inside.0)),
    OffOf-kept p 96 tidy.2 inside.0,
    TidyOf-divide arr lo hi i u v ts there
        (subst (λ t. Extends arr lo hi t u) (sym at)
          (Extends-lower arr n s lo hi ces cts full behind ends))
        (subst (λ t. Extends arr lo hi t v) (sym at)
          (Extends-upper arr n s lo hi ces cts full behind ends))
        (subst (λ t. StaysOff lo t u) (sym at)
          (StaysOff-lower arr n s lo hi ces cts full behind ends))
        (subst (λ t. StaysOff lo t v) (sym at)
          (StaysOff-upper arr n s lo hi ces cts full behind ends))
        (Tidy-lower arr n s lo hi ces cts full behind ends Tidy-child inside-child)
        (Tidy-upper arr n s lo hi ces cts full behind ends Tidy-child inside-child)
        (lower-upper arr n s lo hi ces cts full behind ends Tidy-child inside-child)
        (upper-lower arr n s lo hi ces cts full behind ends Tidy-child inside-child) inside.2
        tidy.3,
  )

  pub Extends-halved : Extends arr lo hi (node p es ts) (halved p n s es ts i ces cts)
  unfolding Spans
  Extends-halved P all fresh = (
    all.0,
    EntrySpans-insert_at P arr i (nth ces 3) es pos all.1
        (median P (SpansOf-child arr P i ts there all.2)),
    SpansOf-halved P all.2 fresh,
  )

  pub StaysOff-halved : StaysOff lo (node p es ts) (halved p n s es ts i ces cts)
  unfolding Off
  StaysOff-halved x k out below = (out.0, OffOf-kept x k out.1 below)
