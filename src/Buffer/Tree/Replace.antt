-- ===== src/Buffer/Tree/Replace.antt =====
-- Children stay apart when one of them is replaced by trees that have its regions and new ones.
use lite3_cpp.Base.{ℕ, zero, suc, ◌+◌, ◌<◌, ◌≤◌, Bool, arith}
use lite3_cpp.Buffer.Tree.{Tree, Trees, nil, cons, count}
use lite3_cpp.Buffer.Tree.Frame.{Spans, SpansOf}
use lite3_cpp.Buffer.Tree.Parts.{child, divide}
use lite3_cpp.Buffer.Tree.Tidy.{
  Off, OffOf, Tidy, TidyOf, OffOf-child, SpansOf-child, Spans-zip, SpansOf-zip,
}
use lite3_cpp.Buffer.Tree.Leaves.{Spans-Off, SpansOf-OffOf}
use lite3_cpp.Buffer.Tree.Put.{
  put, OffOthers, OffOf-OffOthers, OffOf-put, OffOf-divide, SpansOf-put, SpansOf-divide,
}

-- `P` of every region from `lo` to `hi`.
abbrev pub Fresh : ℕ → ℕ → (ℕ → ℕ → Type 0) → Type 0
Fresh lo hi P = (x n : ℕ) → lo ≤ x → x + n ≤ hi → P x n

-- `u` has regions of `t` and new ones between `lo` and `hi` only.
abbrev pub Extends : Bool → ℕ → ℕ → Tree → Tree → Type 1
Extends arr lo hi t u = (P : ℕ → ℕ → Type 0) → Spans P arr t → Fresh lo hi P → Spans P arr u

-- What lies below `lo` off the nodes of `t` is off those of `u`.
abbrev pub StaysOff : ℕ → Tree → Tree → Type 0
StaysOff lo t u = (x n : ℕ) → Off t x n → x + n ≤ lo → Off u x n

module _ (arr : Bool) where
  -- Child `i` is off the others.
  pub TidyOf-OffOthers :
      (i : ℕ) (ts : Trees) → i < count ts → TidyOf arr ts → Spans (OffOthers i ts) arr (child i ts)
  unfolding Tidy OffOthers child
  TidyOf-OffOthers i nil h tidy = absurd (omega arith)
  TidyOf-OffOthers zero (cons t ts) h tidy = tidy.2
  TidyOf-OffOthers (suc i) (cons t ts) h tidy =
      Spans-zip arr (Off t) (OffOthers i ts) (λ x n. Off t x n × OffOthers i ts x n)
        (λ x n off others. (off, others)) (child i ts)
        (SpansOf-child arr (Off t) i ts (omega arith) tidy.3)
        (TidyOf-OffOthers i ts (omega arith) tidy.1)

  module _ (lo hi : ℕ) where
    pub TidyOf-put :
        (i : ℕ) (u : Tree) (ts : Trees)
        → i < count ts
        → Extends arr lo hi (child i ts) u
        → StaysOff lo (child i ts) u
        → Tidy arr u
        → SpansOf (λ x n. x + n ≤ lo) arr ts
        → TidyOf arr ts
        → TidyOf arr (put i u ts)
    unfolding Tidy Spans Off put child
    TidyOf-put i u nil h grow off new inside tidy = absurd (omega arith)
    TidyOf-put zero u (cons t ts) h grow off new inside tidy = (
      new,
      tidy.1,
      grow (OffOf ts) tidy.2 (λ x n from to. SpansOf-OffOf arr lo x n from ts inside.1),
      SpansOf-zip arr (Off t) (λ x n. x + n ≤ lo) (Off u) off ts tidy.3 inside.1,
    )
    TidyOf-put (suc i) u (cons t ts) h grow off new inside tidy = (
      tidy.0,
      TidyOf-put i u ts (omega arith) grow off new inside.1 tidy.1,
      Spans-zip arr (OffOf ts) (λ x n. x + n ≤ lo) (OffOf (put i u ts))
          (λ x n out below.
            OffOf-put i u ts x n (OffOf-OffOthers i ts x n out)
              (off x n (OffOf-child i ts x n (omega arith) out) below))
          t tidy.2 inside.0,
      SpansOf-put (Off t) arr i u ts tidy.3 (
          grow (Off t) (SpansOf-child arr (Off t) i ts (omega arith) tidy.3)
            (λ x n from to. Spans-Off arr lo x n from t inside.0)),
    )

    pub TidyOf-divide :
        (i : ℕ) (u v : Tree) (ts : Trees)
        → i < count ts
        → Extends arr lo hi (child i ts) u
        → Extends arr lo hi (child i ts) v
        → StaysOff lo (child i ts) u
        → StaysOff lo (child i ts) v
        → Tidy arr u
        → Tidy arr v
        → Spans (Off v) arr u
        → Spans (Off u) arr v
        → SpansOf (λ x n. x + n ≤ lo) arr ts
        → TidyOf arr ts
        → TidyOf arr (divide i u v ts)
    unfolding Tidy Spans Off divide child
    TidyOf-divide i u v nil h gu gv ou ov tu tv uv vu inside tidy = absurd (omega arith)
    TidyOf-divide zero u v (cons t ts) h gu gv ou ov tu tv uv vu inside tidy =
        let behind : Fresh lo hi (OffOf ts) =
          λ x n from to. SpansOf-OffOf arr lo x n from ts inside.1 in
        (
          tu,
          (
            tv,
            tidy.1,
            gv (OffOf ts) tidy.2 behind,
            SpansOf-zip arr (Off t) (λ x n. x + n ≤ lo) (Off v) ov ts tidy.3 inside.1,
          ),
          Spans-zip arr (Off v) (OffOf ts) (λ x n. Off v x n × OffOf ts x n) (λ x n a b. (a, b)) u
              uv (gu (OffOf ts) tidy.2 behind),
          (vu, SpansOf-zip arr (Off t) (λ x n. x + n ≤ lo) (Off u) ou ts tidy.3 inside.1),
        )
    TidyOf-divide (suc i) u v (cons t ts) h gu gv ou ov tu tv uv vu inside tidy =
        let behind : Fresh lo hi (Off t) = λ x n from to. Spans-Off arr lo x n from t inside.0 in
        let at = SpansOf-child arr (Off t) i ts (omega arith) tidy.3 in
        (
          tidy.0,
          TidyOf-divide i u v ts (omega arith) gu gv ou ov tu tv uv vu inside.1 tidy.1,
          Spans-zip arr (OffOf ts) (λ x n. x + n ≤ lo) (OffOf (divide i u v ts))
              (λ x n out below.
                let was = OffOf-child i ts x n (omega arith) out in
                OffOf-divide i u v ts x n (OffOf-OffOthers i ts x n out) (ou x n was below)
                  (ov x n was below))
              t tidy.2 inside.0,
          SpansOf-divide (Off t) arr i u v ts tidy.3 (gu (Off t) at behind) (gv (Off t) at behind),
        )
