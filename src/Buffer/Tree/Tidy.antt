-- ===== src/Buffer/Tree/Tidy.antt =====
-- Trees whose nodes meet neither each other nor the entries.
use lite3_cpp.Base.{ℕ, zero, suc, ◌<◌, ◌≢◌, refl, ap, Bool, arith}
use lite3_cpp.Memory.{Memory}
use lite3_cpp.Node.{node_size}
use lite3_cpp.Buffer.Insert.Leaf.{Apart}
use lite3_cpp.Buffer.Tree.{Tree, node, Trees, nil, cons, count}
use lite3_cpp.Buffer.Tree.Held.{TreeAt, TreesAt}
use lite3_cpp.Buffer.Tree.Frame.{
  EntrySpans, Spans, SpansOf, Spans-map, Kept, TreeAt-same, TreesAt-same,
}
use lite3_cpp.Buffer.Tree.Parts.{child, divide, take_trees, drop_trees}

-- A region that meets no node of the tree.
unfoldable mutual
  pub Off : Tree → ℕ → ℕ → Type 0
  Off (node a es ts) x n = (Apart x n a node_size) × OffOf ts x n

  pub OffOf : Trees → ℕ → ℕ → Type 0
  OffOf nil x n = Unit
  OffOf (cons t ts) x n = Off t x n × OffOf ts x n

unfoldable mutual
  pub Tidy : Bool → Tree → Type 0
  Tidy arr (node a es ts) =
      EntrySpans (λ x n. (Apart x n a node_size) × OffOf ts x n) arr es
      × SpansOf (λ x n. Apart x n a node_size) arr ts
      × OffOf ts a node_size
      × TidyOf arr ts

  pub TidyOf : Bool → Trees → Type 0
  TidyOf arr nil = Unit
  TidyOf arr (cons t ts) =
      Tidy arr t × TidyOf arr ts × Spans (OffOf ts) arr t × SpansOf (Off t) arr ts

pub OffOf-child :
    (i : ℕ) (ts : Trees) (x n : ℕ) → i < count ts → OffOf ts x n → Off (child i ts) x n
unfolding Off child
OffOf-child i nil x n h off = absurd (omega arith)
OffOf-child zero (cons t ts) x n h off = off.0
OffOf-child (suc i) (cons t ts) x n h off = OffOf-child i ts x n (omega arith) off.1

module _ (arr : Bool) where
  pub TidyOf-child : (i : ℕ) (ts : Trees) → i < count ts → TidyOf arr ts → Tidy arr (child i ts)
  unfolding Tidy child
  TidyOf-child i nil h tidy = absurd (omega arith)
  TidyOf-child zero (cons t ts) h tidy = tidy.0
  TidyOf-child (suc i) (cons t ts) h tidy = TidyOf-child i ts (omega arith) tidy.1

  module _ (P : ℕ → ℕ → Type 0) where
    pub SpansOf-child :
        (i : ℕ) (ts : Trees) → i < count ts → SpansOf P arr ts → Spans P arr (child i ts)
    unfolding Spans child
    SpansOf-child i nil h all = absurd (omega arith)
    SpansOf-child zero (cons t ts) h all = all.0
    SpansOf-child (suc i) (cons t ts) h all = SpansOf-child i ts (omega arith) all.1

    -- `P` of all children but child `i`.
    unfoldable pub Others : ℕ → Trees → Type 0
    Others i nil = Unit
    Others zero (cons t ts) = SpansOf P arr ts
    Others (suc i) (cons t ts) = Spans P arr t × Others i ts

    pub SpansOf-Others : (i : ℕ) (ts : Trees) → SpansOf P arr ts → Others i ts
    unfolding Spans Others
    SpansOf-Others i nil all = tt
    SpansOf-Others zero (cons t ts) all = all.1
    SpansOf-Others (suc i) (cons t ts) all = (all.0, SpansOf-Others i ts all.1)

    pub Others-child :
        (i k : ℕ) (ts : Trees) → k < count ts → k ≢ i → Others i ts → Spans P arr (child k ts)
    unfolding Spans Others child
    Others-child i k nil h other all = absurd (omega arith)
    Others-child zero zero (cons t ts) h other all = absurd (other refl)
    Others-child zero (suc k) (cons t ts) h other all = SpansOf-child k ts (omega arith) all
    Others-child (suc i) zero (cons t ts) h other all = all.0
    Others-child (suc i) (suc k) (cons t ts) h other all =
        Others-child i k ts (omega arith) (λ e. other (ap (λ n. suc n) e)) all.1

  pub TidyOf-Others :
      (i : ℕ) (ts : Trees) → i < count ts → TidyOf arr ts → Others (Off (child i ts)) i ts
  unfolding Tidy Others child
  TidyOf-Others i nil h tidy = absurd (omega arith)
  TidyOf-Others zero (cons t ts) h tidy = tidy.3
  TidyOf-Others (suc i) (cons t ts) h tidy = (
    Spans-map (OffOf ts) (Off (child i ts)) arr (λ x n off. OffOf-child i ts x n (omega arith) off)
        t tidy.2,
    TidyOf-Others i ts (omega arith) tidy.1,
  )

  module _ (P Q R : ℕ → ℕ → Type 0) (both : (x n : ℕ) → P x n → Q x n → R x n) where
    mutual
      unfolding Spans

      pub Spans-zip : (t : Tree) → Spans P arr t → Spans Q arr t → Spans R arr t
      Spans-zip (node a es ts) h k =
          (both a node_size h.0 k.0, λ j p. both _ _ (h.1 j p) (k.1 j p), SpansOf-zip ts h.2 k.2)

      pub SpansOf-zip : (ts : Trees) → SpansOf P arr ts → SpansOf Q arr ts → SpansOf R arr ts
      SpansOf-zip nil h k = tt
      SpansOf-zip (cons t ts) h k = (Spans-zip t h.0 k.0, SpansOf-zip ts h.1 k.1)

    pub Others-zip : (i : ℕ) (ts : Trees) → Others P i ts → Others Q i ts → Others R i ts
    unfolding Others
    Others-zip i nil h k = tt
    Others-zip zero (cons t ts) h k = SpansOf-zip ts h k
    Others-zip (suc i) (cons t ts) h k = (Spans-zip t h.0 k.0, Others-zip i ts h.1 k.1)

  module _ (m m' : Memory) where
    -- The children with child `i` replaced by two.
    pub TreesAt-divide :
        (i : ℕ) (u v : Tree) (ts : Trees)
        → TreesAt m arr ts
        → Others (Kept m m' arr) i ts
        → TreeAt m' arr u
        → TreeAt m' arr v
        → TreesAt m' arr (divide i u v ts)
    unfolding TreeAt Others divide
    TreesAt-divide i u v nil held same hu hv = tt
    TreesAt-divide zero u v (cons t ts) held same hu hv =
        (hu, (hv, TreesAt-same m m' arr ts same held.1))
    TreesAt-divide (suc i) u v (cons t ts) held same hu hv =
        (TreeAt-same m m' arr t same.0 held.0, TreesAt-divide i u v ts held.1 same.1 hu hv)

  module _ (m : Memory) where
    pub TreesAt-child :
        (i : ℕ) (ts : Trees) → i < count ts → TreesAt m arr ts → TreeAt m arr (child i ts)
    unfolding TreeAt child
    TreesAt-child i nil h held = absurd (omega arith)
    TreesAt-child zero (cons t ts) h held = held.0
    TreesAt-child (suc i) (cons t ts) h held = TreesAt-child i ts (omega arith) held.1

    pub TreesAt-take : (k : ℕ) (ts : Trees) → TreesAt m arr ts → TreesAt m arr (take_trees k ts)
    unfolding TreeAt take_trees
    TreesAt-take zero ts held = tt
    TreesAt-take (suc k) nil held = tt
    TreesAt-take (suc k) (cons t ts) held = (held.0, TreesAt-take k ts held.1)

    pub TreesAt-drop : (k : ℕ) (ts : Trees) → TreesAt m arr ts → TreesAt m arr (drop_trees k ts)
    unfolding TreeAt drop_trees
    TreesAt-drop zero ts held = held
    TreesAt-drop (suc k) nil held = tt
    TreesAt-drop (suc k) (cons t ts) held = TreesAt-drop k ts held.1
