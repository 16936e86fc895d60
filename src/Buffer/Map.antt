-- ===== src/Buffer/Map.antt =====
-- The abstract view of an object or an array of any size: the list of its entries in the order of their
-- keys, behind which the tree of nodes is hidden.
use lite3_cpp.Base.{
  ℕ, suc, ◌+◌, ◌*◌, ◌^◌, ◌<◌, ◌≤◌, ◌≡◌, refl, sym, ◌∙◌, ap, subst, Bool, true, false, List, [], ◌∷◌,
  ◌++◌, All, none, some, ◌⊎◌, length, arith, Bool-cases, inl, inr,
}
use lite3_cpp.Memory.{Memory}
use lite3_cpp.Node.{Tag}
use lite3_cpp.Node.Head.{SameHead}
use lite3_cpp.Outcome.{ok}
use lite3_cpp.Buffer.State.{Buffer, init_structure}
use lite3_cpp.Buffer.Compare.Order.{Key, compare_keys}
use lite3_cpp.Buffer.Search.{is_lt, is_eq, get_impl}
use lite3_cpp.Buffer.Search.Leaf.{found}
use lite3_cpp.Buffer.Search.Table.{Entry, nth, lookup}
use lite3_cpp.Buffer.Search.Held.{Held, entry_size, value_at}
use lite3_cpp.Buffer.Insert.Leaf.{IsNew}
use lite3_cpp.Buffer.Tree.{Tree, Trees, nil, cons, node, address, entries, weave, height}
use lite3_cpp.Buffer.Tree.Held.{TreeAt, TreesAt}
use lite3_cpp.Buffer.Tree.Order.{TreeAt-IsFormed, IsSorted, get_impl-entries}
use lite3_cpp.Buffer.Tree.Even.{Even}
use lite3_cpp.Buffer.Tree.Depth.{Even-levels}
use lite3_cpp.Buffer.Tree.Grows.{Stored}
use lite3_cpp.Buffer.Tree.PutIn.{put_in, HashFree, put_in-IsSorted}
use lite3_cpp.Buffer.Tree.Portion.{Tree-parts}
use lite3_cpp.Buffer.Set.{set_impl}
use lite3_cpp.Buffer.Set.Touched.{LeafIn-Stored}
use lite3_cpp.Buffer.Set.Puts.{placed}
use lite3_cpp.Buffer.Set.Visit.{Ready}
use lite3_cpp.Buffer.Set.Refines.{set_impl-Tree}
use lite3_cpp.Buffer.Shows.{Shows}
use lite3_cpp.Buffer.Object.New.{init_structure-LeafIn}

-- The entries below the root at `a`, in a tree of at most `h` levels, which are no more than bytes used.
pub record IsMap (b : Buffer) (arr : Bool) (a : ℕ) (es : List Entry) (h : ℕ) : Type 0 where
  pub tree : Tree
  pub stored : Stored b arr tree
  pub at : address tree ≡ a
  pub listed : entries tree ≡ es
  pub sorted : IsSorted es
  pub low : height tree ≤ h
  pub levels : height tree ≤ b.m_used_size
  pub depth : ℕ
  pub even : Even depth tree

found-first :
    (k : Key) (x e : Entry) (xs : List Entry)
    → lookup k (x ∷ xs) ≡ some e
    → (x ≡ e) ⊎ (lookup k xs ≡ some e)
unfolding lookup
found-first k x e xs h = elim (Bool-cases (is_lt (compare_keys x.key k))) [
  | inl lt ↦ inr (by_lt lt)
  | inr other ↦ elim (Bool-cases (is_eq (compare_keys x.key k))) [
    | inl same ↦ inl (by_eq other same)
    | inr out ↦ absurd (by_none other out)
  ]
]
  where
    by_lt : is_lt (compare_keys x.key k) ≡ true → lookup k xs ≡ some e
    by_lt lt = (rw lt at h)

    by_eq : is_lt (compare_keys x.key k) ≡ false → is_eq (compare_keys x.key k) ≡ true → x ≡ e
    by_eq other same = let h' : some x ≡ some e = rw (other, same) at h in cc

    by_none : is_lt (compare_keys x.key k) ≡ false → is_eq (compare_keys x.key k) ≡ false → ⊥
    by_none other out = let h' : none ≡ some e = rw (other, out) at h in cc

module _ (P : Entry → Type 0) where
  All-of_nth : (es : List Entry) → ((j : ℕ) → j < length es → P (nth es j)) → All P es
  All-of_nth [] h = tt
  All-of_nth (e ∷ es) h = (h 0 (omega arith), All-of_nth es (λ j p. h (suc j) (omega arith)))

  All-append : (xs ys : List Entry) → All P xs → All P ys → All P (xs ++ ys)
  All-append [] ys h k = k
  All-append (x ∷ xs) ys h k = (h.0, All-append xs ys h.1 k)

  All-lookup : (k : Key) (e : Entry) (es : List Entry) → lookup k es ≡ some e → All P es → P e
  unfolding lookup
  All-lookup k e [] h all = absurd (cc)
  All-lookup k e (x ∷ xs) h all = elim (found-first k x e xs h) [
    | inl here ↦ subst P here all.0
    | inr later ↦ All-lookup k e xs later all.1
  ]

-- Every entry of a tree lies in memory.
module _ (m : Memory) (arr : Bool) where
  mutual
    unfolding TreeAt entries

    TreeAt-All : (t : Tree) → TreeAt m arr t → All (Held m arr) (entries t)
    TreeAt-All (node a es nil) h = All-of_nth (Held m arr) es h.0.held
    TreeAt-All (node a es (cons t ts)) h =
        All-append (Held m arr) (entries t) (weave es ts) (TreeAt-All t h.3.0)
          (TreesAt-All es ts (All-of_nth (Held m arr) es h.0.held) h.3.1)

    TreesAt-All :
        (es : List Entry) (ts : Trees)
        → All (Held m arr) es
        → TreesAt m arr ts
        → All (Held m arr) (weave es ts)
    TreesAt-All es nil all h = all
    TreesAt-All [] (cons t ts) all h = tt
    TreesAt-All (e ∷ es) (cons t ts) all h = (
      all.0,
      All-append (Held m arr) (entries t) (weave es ts) (TreeAt-All t h.0)
          (TreesAt-All es ts all.1 h.1),
    )

module _ (b : Buffer) (arr : Bool) (a : ℕ) (es : List Entry) (h : ℕ)
    (map : IsMap b arr a es h) where
  pub IsMap-Shows : Shows b arr a es
  IsMap-Shows = record {
    answers = λ k array.
        subst (λ x. get_impl b x k.text k.hash arr ≡ ok (found arr (lookup k es))) map.at
          (get_impl-entries b arr map.tree k array map.stored.held
              (subst IsSorted (sym map.listed) map.sorted) (omega (arith, map.levels))
            ∙ ap (λ xs. ok (found arr (lookup k xs))) map.listed);
    lies = λ k e array found_there. All-lookup (Held b.m_data arr) k e es found_there (
        subst (All (Held b.m_data arr)) map.listed
          (TreeAt-All b.m_data arr map.tree map.stored.held));
  }

  pub IsMap-eight : length es + 1 < 4 ^ 8 → height map.tree ≤ 8
  IsMap-eight few =
      Even-levels 8 map.tree map.depth (TreeAt-IsFormed b.m_data arr map.tree map.stored.held)
        map.even (omega (arith, ap (λ xs. length xs) map.listed))

  -- A new entry of a new hash, at so few entries that `path` has a place for every round.
  pub set_impl-IsMap :
      (e : Entry)
      → IsNew arr e
      → HashFree e.key.hash es
      → length es + 1 < 4 ^ 8
      → b.m_used_size + 99 * (h + 2) + entry_size arr e + 3 < 2 ^ 32
      → (b' : Buffer) × (at : ℕ) × (set_impl b a e.key.text e.key.hash e.val e.type arr
          ≡ ok (value_at arr (placed e at), b'))
        × IsMap b' arr a (put_in (placed e at) es) (h + 1)
        × (b'.m_used_size ≤ b.m_used_size + 99 * (h + 2) + entry_size arr e)
        × SameHead b.m_data b'.m_data a
  set_impl-IsMap e new free few space =
      let (c, ces, cts, is) = Tree-parts map.tree in
      let t = node c ces cts in
      let root : c ≡ a = sym (ap address is) ∙ map.at in
      let same : entries t ≡ es = sym (ap entries is) ∙ map.listed in
      let top : height t ≡ height map.tree = ap height (sym is) in
      let ready : Ready arr e b t (height t + 2) = record {
        stored = subst (Stored b arr) is map.stored;
        sorted = subst IsSorted (sym same) map.sorted;
        free = subst (HashFree e.key.hash) (sym same) free;
        space = omega (arith, map.low);
      } in
      let (b', t', at, returned, sets) =
        set_impl-Tree b arr c ces cts e new ready (omega (arith, map.levels))
          (omega (arith, top, IsMap-eight few)) in
      let (deeper, one_more, even') = sets.even map.depth (subst (Even map.depth) is map.even) in
      (
        b',
        at,
        subst
            (λ x.
              set_impl b x e.key.text e.key.hash e.val e.type arr
              ≡ ok (value_at arr (placed e at), b'))
            root returned,
        record {
          tree = t';
          stored = sets.stored;
          at = sets.same ∙ root;
          listed = sets.put_entry ∙ ap (put_in (placed e at)) same;
          sorted = put_in-IsSorted (placed e at) es free map.sorted;
          low = omega (arith, sets.low, map.low);
          levels = omega (arith, sets.grown, sets.used, map.levels);
          depth = deeper;
          even = even';
        },
        omega (arith, sets.spent, map.low),
        subst (SameHead b.m_data b'.m_data) root sets.head,
      )

-- The object or array that `init_structure` makes.
pub init_structure-IsMap :
    (b : Buffer) (t : Tag) (arr : Bool) → IsMap (init_structure b t) arr b.m_used_size [] 1
unfolding entries height IsSorted Even
init_structure-IsMap b t arr =
    let (leaf, first_generation, made_tag, first_size, used) = init_structure-LeafIn b t arr in
    record {
      tree = node b.m_used_size [] nil;
      stored = LeafIn-Stored (init_structure b t) arr b.m_used_size [] leaf;
      at = refl;
      listed = refl;
      sorted = tt;
      low = omega arith;
      levels = omega (arith, used);
      depth = 0;
      even = refl;
    }
