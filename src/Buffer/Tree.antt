-- ===== src/Buffer/Tree.antt =====
-- The abstract view of a tree of nodes (src/buffer.cpp): each node with its address, its entries in the
-- order of their indices, and its children, of which a leaf has none.
pub mod Held
pub mod Get
pub mod Entries
pub mod Frame
pub mod Order
pub mod Parts
pub mod Put
pub mod Replace
pub mod Portion
pub mod PutIn
pub mod Cut
pub mod Even
pub mod Depth
pub mod Grows
pub mod Leaves
pub mod Height
pub mod Tidy
pub mod Spread
use lite3_cpp.Base.{ℕ, zero, suc, ◌+◌, max, List, [], ◌∷◌, ◌++◌, Option, none, some}
use lite3_cpp.Buffer.Compare.Order.{Key}
use lite3_cpp.Buffer.Search.Table.{Entry, position, lookup}

mutual
  pub data Tree : Type 0 where
    node : ℕ → List Entry → Trees → Tree

  pub data Trees : Type 0 where
    nil : Trees
    cons : Tree → Trees → Trees

abbrev pub address : Tree → ℕ
address (node a es ts) = a

abbrev pub count : Trees → ℕ
count nil = 0
count (cons t ts) = suc (count ts)

-- The address of child `i`, and 0 for a child that is not there, as the code has it.
abbrev pub child_address : Trees → ℕ → ℕ
child_address nil i = 0
child_address (cons t ts) zero = address t
child_address (cons t ts) (suc i) = child_address ts i

-- The number of levels.
unfoldable mutual
  pub height : Tree → ℕ
  height (node a es ts) = suc (height_of ts)

  pub height_of : Trees → ℕ
  height_of nil = 0
  height_of (cons t ts) = max (height t) (height_of ts)

abbrev pub or_else : Option Entry → Option Entry → Option Entry
or_else none r = r
or_else (some e) r = some e

-- The search goes to the child at the position of the key.
unfoldable mutual
  pub lookup_tree : Key → Tree → Option Entry
  lookup_tree k (node a es ts) = or_else (lookup k es) (lookup_child k ts (position k es))

  pub lookup_child : Key → Trees → ℕ → Option Entry
  lookup_child k nil i = none
  lookup_child k (cons t ts) zero = lookup_tree k t
  lookup_child k (cons t ts) (suc i) = lookup_child k ts i

-- The entries in order: those of the first child, the first entry, those of the next child, and so on.
unfoldable mutual
  pub entries : Tree → List Entry
  entries (node a es nil) = es
  entries (node a es (cons t ts)) = entries t ++ weave es ts

  pub weave : List Entry → Trees → List Entry
  weave es nil = es
  weave [] (cons t ts) = []
  weave (e ∷ es) (cons t ts) = e ∷ (entries t ++ weave es ts)
