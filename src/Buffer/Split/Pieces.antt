-- ===== src/Buffer/Split/Pieces.antt =====
-- The halves of a full node whose upper one lies behind the used bytes: they are apart from each other.
use lite3_cpp.Base.{ℕ, ◌+◌, ◌≤◌, ◌≡◌, Bool, List, length, arith}
use lite3_cpp.Node.{node_size}
use lite3_cpp.Buffer.Search.Table.{Entry}
use lite3_cpp.Buffer.Insert.Leaf.{Apart}
use lite3_cpp.Buffer.Tree.{node, Trees}
use lite3_cpp.Buffer.Tree.Frame.{Spans, SpansOf, SpansOf-map}
use lite3_cpp.Buffer.Tree.Parts.{take_trees, drop_trees}
use lite3_cpp.Buffer.Tree.Tidy.{Off, OffOf, Tidy, SpansOf-zip}
use lite3_cpp.Buffer.Tree.Leaves.{SpansOf-OffOf}
use lite3_cpp.Buffer.Tree.Replace.{Extends, StaysOff}
use lite3_cpp.Buffer.Tree.Cut.{
  OffOf-take, OffOf-drop, EntrySpans-take, EntrySpans-drop, SpansOf-take, SpansOf-drop,
  TidyOf-front, TidyOf-back, TidyOf-take, TidyOf-drop,
}
use lite3_cpp.Buffer.Split.Halves.{lower_half, upper_half}

module _ (arr : Bool) (n s lo hi : ℕ) (ces : List Entry) (cts : Trees) (full : length ces ≡ 7)
    (behind : lo ≤ s) (ends : s + node_size ≤ hi) where
  pub Extends-lower : Extends arr lo hi (node n ces cts) (lower_half n ces cts)
  unfolding Spans
  Extends-lower P all fresh =
      (all.0, EntrySpans-take arr P 3 ces (omega arith) all.1, SpansOf-take arr P 4 cts all.2)

  pub Extends-upper : Extends arr lo hi (node n ces cts) (upper_half s ces cts)
  unfolding Spans
  Extends-upper P all fresh =
      (fresh s 96 behind ends, EntrySpans-drop arr P 4 ces all.1, SpansOf-drop arr P 4 cts all.2)

  pub StaysOff-lower : StaysOff lo (node n ces cts) (lower_half n ces cts)
  unfolding Off
  StaysOff-lower x k out below = (out.0, OffOf-take 4 cts x k out.1)

  pub StaysOff-upper : StaysOff lo (node n ces cts) (upper_half s ces cts)
  unfolding Off
  StaysOff-upper x k out below = (omega arith, OffOf-drop 4 cts x k out.1)

  module _ (tidy : Tidy arr (node n ces cts))
      (inside : Spans (λ x k. x + k ≤ lo) arr (node n ces cts)) where
    -- Off the sibling: what lies in the used bytes.
    in_front : SpansOf (λ x k. Apart x k s 96) arr cts
    unfolding Spans
    in_front =
        SpansOf-map (λ x k. x + k ≤ lo) (λ x k. Apart x k s 96) arr (λ x k h. omega arith) cts
          inside.2

    pub Tidy-lower : Tidy arr (lower_half n ces cts)
    unfolding Tidy
    Tidy-lower = (
      EntrySpans-take arr (λ x k. (Apart x k n 96) × OffOf (take_trees 4 cts) x k) 3 ces
          (omega arith) (λ j h. ((tidy.0 j h).0, OffOf-take 4 cts _ _ (tidy.0 j h).1)),
      SpansOf-take arr (λ x k. Apart x k n 96) 4 cts tidy.1,
      OffOf-take 4 cts n 96 tidy.2,
      TidyOf-take arr 4 cts tidy.3,
    )

    pub Tidy-upper : Tidy arr (upper_half s ces cts)
    unfolding Tidy Spans
    Tidy-upper = (
      EntrySpans-drop arr (λ x k. (Apart x k s 96) × OffOf (drop_trees 4 cts) x k) 4 ces
          (λ j h. (omega (arith, inside.1 j h), OffOf-drop 4 cts _ _ (tidy.0 j h).1)),
      SpansOf-drop arr (λ x k. Apart x k s 96) 4 cts in_front,
      OffOf-drop 4 cts s 96 (SpansOf-OffOf arr lo s 96 behind cts inside.2),
      TidyOf-drop arr 4 cts tidy.3,
    )

    pub lower-upper : Spans (Off (upper_half s ces cts)) arr (lower_half n ces cts)
    unfolding Tidy Spans Off
    lower-upper = (
      (omega (arith, inside.0), OffOf-drop 4 cts n 96 tidy.2),
      EntrySpans-take arr (λ x k. (Apart x k s 96) × OffOf (drop_trees 4 cts) x k) 3 ces
          (omega arith) (λ j h. (omega (arith, inside.1 j h), OffOf-drop 4 cts _ _ (tidy.0 j h).1)),
      SpansOf-zip arr (λ x k. Apart x k s 96) (OffOf (drop_trees 4 cts))
          (λ x k. (Apart x k s 96) × OffOf (drop_trees 4 cts) x k) (λ x k a b. (a, b))
          (take_trees 4 cts) (SpansOf-take arr (λ x k. Apart x k s 96) 4 cts in_front)
          (TidyOf-front arr 4 cts tidy.3),
    )

    pub upper-lower : Spans (Off (lower_half n ces cts)) arr (upper_half s ces cts)
    unfolding Tidy Spans Off
    upper-lower = (
      (
        omega (arith, inside.0),
        OffOf-take 4 cts s 96 (SpansOf-OffOf arr lo s 96 behind cts inside.2),
      ),
      EntrySpans-drop arr (λ x k. (Apart x k n 96) × OffOf (take_trees 4 cts) x k) 4 ces
          (λ j h. ((tidy.0 j h).0, OffOf-take 4 cts _ _ (tidy.0 j h).1)),
      SpansOf-zip arr (λ x k. Apart x k n 96) (OffOf (take_trees 4 cts))
          (λ x k. (Apart x k n 96) × OffOf (take_trees 4 cts) x k) (λ x k a b. (a, b))
          (drop_trees 4 cts) (SpansOf-drop arr (λ x k. Apart x k n 96) 4 cts tidy.1)
          (TidyOf-back arr 4 cts tidy.3),
    )
