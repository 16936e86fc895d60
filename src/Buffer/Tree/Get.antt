-- ===== src/Buffer/Tree/Get.antt =====
-- `get_impl` in a tree.
use lite3_cpp.Base.{
  ℕ, zero, suc, ◌<◌, ◌≤◌, ◌≡◌, refl, ◌∙◌, Bool, true, List, [], none, arith, ◌==◌, length, inl, inr,
  Option-cases, Bool-cases, ==_iff,
}
use lite3_cpp.Memory.{Memory}
use lite3_cpp.Outcome.{ok}
use lite3_cpp.Buffer.State.{Buffer}
use lite3_cpp.Buffer.Compare.Order.{Key}
use lite3_cpp.Buffer.Search.{get_loop, get_impl, rounds}
use lite3_cpp.Buffer.Search.Table.{Entry, position, position-le, lookup}
use lite3_cpp.Buffer.Search.Held.{Keys}
use lite3_cpp.Buffer.Search.Leaf.{found, get_loop-some, get_loop-none}
use lite3_cpp.Buffer.Tree.{
  Tree, node, Trees, nil, cons, address, count, child_address, height, height_of, lookup_tree,
  lookup_child,
}
use lite3_cpp.Buffer.Tree.Held.{Links, TreeAt, TreesAt}

module _ (m : Memory) (arr : Bool) (k : Key) (array : arr ≡ true → k.text ≡ []) where
  -- A round at a node without the key, by its children.
  get_loop-Links :
      (a : ℕ) (es : List Entry) (ts : Trees) (fuel : ℕ)
      → Keys m arr a es
      → length es ≤ 7
      → Links m a es ts
      → lookup k es ≡ none
      → ((i : ℕ)
          → i < count ts
          → get_loop k.hash k.text arr fuel m (child_address ts i)
            ≡ ok (found arr (lookup_child k ts i)))
      → get_loop k.hash k.text arr (suc fuel) m a
        ≡ ok (found arr (lookup_child k ts (position k es)))
  unfolding lookup_tree
  get_loop-Links a es nil fuel keys room links out below =
      get_loop-none m arr a k array es keys fuel out
      ∙ rw (links (position k es) (omega (arith, position-le k es))) refl
  get_loop-Links a es (cons t ts) fuel keys room links out below =
      let (link, there) = links.1 (position k es) (position-le k es) in
      get_loop-none m arr a k array es keys fuel out
      ∙ rw link (elim (Bool-cases (child_address (cons t ts) (position k es) == 0)) [
        | inl none_there ↦ absurd (there ((==_iff _ _).0 none_there))
        | inr other ↦ rw other (below (position k es) (omega (arith, links.0, position-le k es)))
      ])

  mutual
    unfolding lookup_tree height TreeAt

    get_loop-Tree :
        (t : Tree) (fuel : ℕ)
        → TreeAt m arr t
        → height t ≤ fuel
        → get_loop k.hash k.text arr fuel m (address t) ≡ ok (found arr (lookup_tree k t))
    get_loop-Tree (node a es ts) zero held deep = absurd (omega arith)
    get_loop-Tree (node a es ts) (suc fuel) held deep = elim (Option-cases (lookup k es)) [
      | inl out ↦
          get_loop-Links a es ts fuel held.0 held.1 held.2 out
            (λ i h. get_loop-Trees ts i fuel held.3 (omega arith) h)
          ∙ rw out refl
      | inr (e, h) ↦ get_loop-some m arr a k array es held.0 fuel e h ∙ rw h refl
    ]

    get_loop-Trees :
        (ts : Trees) (i fuel : ℕ)
        → TreesAt m arr ts
        → height_of ts ≤ fuel
        → i < count ts
        → get_loop k.hash k.text arr fuel m (child_address ts i)
          ≡ ok (found arr (lookup_child k ts i))
    get_loop-Trees nil i fuel held deep h = absurd (omega arith)
    get_loop-Trees (cons t ts) zero fuel held deep h = get_loop-Tree t fuel held.0 (omega arith)
    get_loop-Trees (cons t ts) (suc i) fuel held deep h =
        get_loop-Trees ts i fuel held.1 (omega arith) (omega arith)

-- `get_impl` at the root of a tree that has no more levels than the loop has rounds.
pub get_impl-Tree :
    (b : Buffer) (arr : Bool) (t : Tree) (k : Key)
    → (arr ≡ true → k.text ≡ [])
    → TreeAt b.m_data arr t
    → height t ≤ rounds b
    → get_impl b (address t) k.text k.hash arr ≡ ok (found arr (lookup_tree k t))
unfolding get_impl
get_impl-Tree b arr t k array held deep = get_loop-Tree b.m_data arr k array t (rounds b) held deep
