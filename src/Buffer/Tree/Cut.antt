-- ===== src/Buffer/Tree/Cut.antt =====
-- Rows of entries and of children cut in two.
use lite3_cpp.Base.{ℕ, zero, suc, ◌+◌, ◌≤◌, sym, subst, Bool, List, length, arith}
use lite3_cpp.Buffer.Search.Table.{Entry}
use lite3_cpp.Buffer.Search.Held.{entry_size}
use lite3_cpp.Buffer.Tree.{Trees, nil, cons}
use lite3_cpp.Buffer.Tree.Frame.{EntrySpans, Spans, SpansOf, Spans-map}
use lite3_cpp.Buffer.Tree.Parts.{
  take, drop, take_trees, drop_trees, length-take, length-drop, nth-take, nth-drop,
}
use lite3_cpp.Buffer.Tree.Tidy.{Off, OffOf, Tidy, TidyOf, SpansOf-zip}
use lite3_cpp.Buffer.Tree.Leaves.{SpansOf-all}

pub OffOf-take : (k : ℕ) (ts : Trees) (x n : ℕ) → OffOf ts x n → OffOf (take_trees k ts) x n
unfolding take_trees Off
OffOf-take zero ts x n off = tt
OffOf-take (suc k) nil x n off = tt
OffOf-take (suc k) (cons t ts) x n off = (off.0, OffOf-take k ts x n off.1)

pub OffOf-drop : (k : ℕ) (ts : Trees) (x n : ℕ) → OffOf ts x n → OffOf (drop_trees k ts) x n
unfolding drop_trees Off
OffOf-drop zero ts x n off = off
OffOf-drop (suc k) nil x n off = tt
OffOf-drop (suc k) (cons t ts) x n off = OffOf-drop k ts x n off.1

module _ (arr : Bool) where
  module _ (P : ℕ → ℕ → Type 0) where
    pub EntrySpans-take :
        (k : ℕ) (es : List Entry)
        → k ≤ length es
        → EntrySpans P arr es
        → EntrySpans P arr (take k es)
    EntrySpans-take k es h all j p =
        let three = length-take k es h in
        subst (λ (e : Entry). P e.address (entry_size arr e)) (sym (nth-take k es j (omega arith)))
          (all j (omega arith))

    pub EntrySpans-drop :
        (k : ℕ) (es : List Entry) → EntrySpans P arr es → EntrySpans P arr (drop k es)
    EntrySpans-drop k es all j p =
        let rest = length-drop k es in
        subst (λ (e : Entry). P e.address (entry_size arr e)) (sym (nth-drop k es j))
          (all (k + j) (omega arith))

    pub SpansOf-take : (k : ℕ) (ts : Trees) → SpansOf P arr ts → SpansOf P arr (take_trees k ts)
    unfolding take_trees Spans
    SpansOf-take zero ts all = tt
    SpansOf-take (suc k) nil all = tt
    SpansOf-take (suc k) (cons t ts) all = (all.0, SpansOf-take k ts all.1)

    pub SpansOf-drop : (k : ℕ) (ts : Trees) → SpansOf P arr ts → SpansOf P arr (drop_trees k ts)
    unfolding drop_trees Spans
    SpansOf-drop zero ts all = all
    SpansOf-drop (suc k) nil all = tt
    SpansOf-drop (suc k) (cons t ts) all = SpansOf-drop k ts all.1

  -- The children in front are apart from those behind.
  pub TidyOf-front :
      (k : ℕ) (ts : Trees) → TidyOf arr ts → SpansOf (OffOf (drop_trees k ts)) arr (take_trees k ts)
  unfolding take_trees drop_trees Tidy Spans
  TidyOf-front zero ts tidy = tt
  TidyOf-front (suc k) nil tidy = tt
  TidyOf-front (suc k) (cons t ts) tidy = (
    Spans-map (OffOf ts) (OffOf (drop_trees k ts)) arr (OffOf-drop k ts) t tidy.2,
    TidyOf-front k ts tidy.1,
  )

  pub TidyOf-back :
      (k : ℕ) (ts : Trees) → TidyOf arr ts → SpansOf (OffOf (take_trees k ts)) arr (drop_trees k ts)
  unfolding take_trees drop_trees Tidy Spans Off
  TidyOf-back zero ts tidy = SpansOf-all (λ x n. Unit) arr (λ x n. tt) ts
  TidyOf-back (suc k) nil tidy = tt
  TidyOf-back (suc k) (cons t ts) tidy =
      SpansOf-zip arr (Off t) (OffOf (take_trees k ts))
        (λ x n. Off t x n × OffOf (take_trees k ts) x n) (λ x n a b. (a, b)) (drop_trees k ts)
        (SpansOf-drop (Off t) k ts tidy.3) (TidyOf-back k ts tidy.1)

  pub TidyOf-take : (k : ℕ) (ts : Trees) → TidyOf arr ts → TidyOf arr (take_trees k ts)
  unfolding take_trees Tidy
  TidyOf-take zero ts tidy = tt
  TidyOf-take (suc k) nil tidy = tt
  TidyOf-take (suc k) (cons t ts) tidy = (
    tidy.0,
    TidyOf-take k ts tidy.1,
    Spans-map (OffOf ts) (OffOf (take_trees k ts)) arr (OffOf-take k ts) t tidy.2,
    SpansOf-take (Off t) k ts tidy.3,
  )

  pub TidyOf-drop : (k : ℕ) (ts : Trees) → TidyOf arr ts → TidyOf arr (drop_trees k ts)
  unfolding drop_trees Tidy
  TidyOf-drop zero ts tidy = tidy
  TidyOf-drop (suc k) nil tidy = tt
  TidyOf-drop (suc k) (cons t ts) tidy = TidyOf-drop k ts tidy.1
