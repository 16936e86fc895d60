-- ===== src/Buffer/Tree/Frame.antt =====
-- A tree is the same where the bytes of its nodes and entries are.
use lite3_cpp.Base.{ℕ, ◌<◌, ◌≤◌, ◌∙◌, Bool, List, length, arith}
use lite3_cpp.Memory.{Memory}
use lite3_cpp.Memory.Laws.{SameOn}
use lite3_cpp.Node.{node_size}
use lite3_cpp.Node.Frame.{get_child_offset-same}
use lite3_cpp.Buffer.Search.Table.{Entry, nth}
use lite3_cpp.Buffer.Search.Held.{entry_size}
use lite3_cpp.Buffer.Search.Frame.{Keys-same}
use lite3_cpp.Buffer.Tree.{Tree, address, node, Trees, nil, cons}
use lite3_cpp.Buffer.Tree.Held.{Links, TreeAt, TreesAt}

module _ (P : ℕ → ℕ → Type 0) (arr : Bool) where
  -- `P` of the address and the length of each entry.
  abbrev pub EntrySpans : List Entry → Type 0
  EntrySpans es = (j : ℕ) → j < length es → P (nth es j).address (entry_size arr (nth es j))

  -- `P` of the address and the length of each node and each entry.
  unfoldable mutual
    pub Spans : Tree → Type 0
    Spans (node a es ts) = P a node_size × EntrySpans es × SpansOf ts

    pub SpansOf : Trees → Type 0
    SpansOf nil = Unit
    SpansOf (cons t ts) = Spans t × SpansOf ts

pub Spans-address :
    (P : ℕ → ℕ → Type 0) (arr : Bool) (t : Tree) → Spans P arr t → P (address t) node_size
unfolding Spans
Spans-address P arr (node a es ts) h = h.0

module _ (P Q : ℕ → ℕ → Type 0) (arr : Bool) (weaker : (x n : ℕ) → P x n → Q x n) where
  mutual
    unfolding Spans

    pub Spans-map : (t : Tree) → Spans P arr t → Spans Q arr t
    Spans-map (node a es ts) h =
        (weaker a node_size h.0, (λ j p. weaker _ _ (h.1 j p)), SpansOf-map ts h.2)

    pub SpansOf-map : (ts : Trees) → SpansOf P arr ts → SpansOf Q arr ts
    SpansOf-map nil h = tt
    SpansOf-map (cons t ts) h = (Spans-map t h.0, SpansOf-map ts h.1)

module _ (m m' : Memory) (arr : Bool) where
  abbrev pub Kept : ℕ → ℕ → Type 0
  Kept x n = SameOn x n m m'

  pub Links-same :
      (a : ℕ) (es : List Entry) (ts : Trees)
      → length es ≤ 7
      → SameOn a node_size m m'
      → Links m a es ts
      → Links m' a es ts
  Links-same a es nil room same h = λ j p. get_child_offset-same m m' a same j p ∙ h j p
  Links-same a es (cons t ts) room same h =
      (h.0, λ j p. (get_child_offset-same m m' a same j (omega arith) ∙ (h.1 j p).0, (h.1 j p).1))

  mutual
    unfolding Spans TreeAt

    pub TreeAt-same : (t : Tree) → Spans Kept arr t → TreeAt m arr t → TreeAt m' arr t
    TreeAt-same (node a es ts) same h = (
      Keys-same m m' arr a es h.1 same.0 same.1 h.0,
      h.1,
      Links-same a es ts h.1 same.0 h.2,
      TreesAt-same ts same.2 h.3,
    )

    pub TreesAt-same : (ts : Trees) → SpansOf Kept arr ts → TreesAt m arr ts → TreesAt m' arr ts
    TreesAt-same nil same h = tt
    TreesAt-same (cons t ts) same h = (TreeAt-same t same.0 h.0, TreesAt-same ts same.1 h.1)
