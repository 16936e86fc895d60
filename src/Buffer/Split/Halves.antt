-- ===== src/Buffer/Split/Halves.antt =====
-- `split_child` on a tree: the halves of the child stand below the parent, with the median between.
use lite3_cpp.Base.{
  ℕ, ◌+◌, ◌<◌, ◌≤◌, ◌≡◌, ◌≢◌, sym, ◌∙◌, ap, subst, Bool, List, length, arith, ltb, if◌then◌else◌,
}
use lite3_cpp.Memory.{Memory}
use lite3_cpp.Node.{get_hash, get_kv_offset, get_child_offset}
use lite3_cpp.Buffer.Insert.Slots.{inserted}
use lite3_cpp.Buffer.Search.Table.{Entry, nth, insert_at, length-insert_at}
use lite3_cpp.Buffer.Search.Held.{Keys, Held}
use lite3_cpp.Buffer.Search.Frame.{Held-same}
use lite3_cpp.Buffer.Tree.{Tree, node, Trees, nil, cons, address, count, child_address}
use lite3_cpp.Buffer.Tree.Held.{Links, TreeAt, TreesAt}
use lite3_cpp.Buffer.Tree.Frame.{EntrySpans, SpansOf, Kept, TreesAt-same}
use lite3_cpp.Buffer.Tree.Parts.{
  take, drop, take_trees, drop_trees, child, divide, length-take, length-drop, nth-take, nth-drop,
  count-take_trees, count-drop_trees, child_address-take_trees, child_address-drop_trees,
  count-divide, child_address-divide,
}
use lite3_cpp.Buffer.Tree.Tidy.{Others, TreesAt-divide, TreesAt-take, TreesAt-drop}
use lite3_cpp.Buffer.Split.Divides.{Divides}
use lite3_cpp.Buffer.Split.Rows.{
  put-row, put-Held, child_address-child, inserted-ext, inserted_nonzero, Links-inner, Links-of,
}

-- The halves of a full node.
abbrev pub lower_half : ℕ → List Entry → Trees → Tree
lower_half n ces cts = node n (take 3 ces) (take_trees 4 cts)

abbrev pub upper_half : ℕ → List Entry → Trees → Tree
upper_half s ces cts = node s (drop 4 ces) (drop_trees 4 cts)

-- The halves in a memory where the split has been done.
module _ (m m' : Memory) (arr : Bool) (p n s i : ℕ) (ces : List Entry) (cts : Trees)
    (divides : Divides m m' p n s i) (full : length ces ≡ 7) (held : TreeAt m arr (node n ces cts))
    (entries : EntrySpans (Kept m m' arr) arr ces)
    (children : SpansOf (Kept m m' arr) arr cts) where
  keys : Keys m arr n ces
  unfolding TreeAt
  keys = held.0

  entry-Held : (j : ℕ) → j < 7 → Held m' arr (nth ces j)
  entry-Held j h =
      Held-same m m' arr (nth ces j) (entries j (omega arith)) (keys.held j (omega arith))

  children_held : TreesAt m' arr cts
  unfolding TreeAt
  children_held = TreesAt-same m m' arr cts children held.3

  lower-Keys : Keys m' arr n (take 3 ces)
  lower-Keys =
      let three = length-take 3 ces (omega arith) in
      record {
        count = divides.node_count ∙ sym three;
        hashes = λ j h.
            divides.node_hash j (omega arith)
            ∙ keys.hashes j (omega arith)
            ∙ ap (λ (e : Entry). e.key.hash) (sym (nth-take 3 ces j (omega arith)));
        addresses = λ j h.
            divides.node_kv j (omega arith)
            ∙ keys.addresses j (omega arith)
            ∙ ap (λ (e : Entry). e.address) (sym (nth-take 3 ces j (omega arith)));
        held = λ j h.
            subst (Held m' arr) (sym (nth-take 3 ces j (omega arith))) (entry-Held j (omega arith));
      }

  upper-Keys : Keys m' arr s (drop 4 ces)
  upper-Keys =
      let three = length-drop 4 ces in
      record {
        count = divides.sibling_count ∙ omega arith;
        hashes = λ j h.
            divides.sibling_hash j (omega arith)
            ∙ keys.hashes (4 + j) (omega arith)
            ∙ ap (λ (e : Entry). e.key.hash) (sym (nth-drop 4 ces j));
        addresses = λ j h.
            divides.sibling_kv j (omega arith)
            ∙ keys.addresses (4 + j) (omega arith)
            ∙ ap (λ (e : Entry). e.address) (sym (nth-drop 4 ces j));
        held =
            λ j h. subst (Held m' arr) (sym (nth-drop 4 ces j)) (entry-Held (4 + j) (omega arith));
      }

  links : Links m n ces cts
  unfolding TreeAt
  links = held.2

  lower-Links : (ts : Trees) → Links m n ces ts → Links m' n (take 3 ces) (take_trees 4 ts)
  unfolding take_trees
  lower-Links nil h = λ j p. divides.node_child j p ∙ h j p
  lower-Links (cons t ts) h =
      let three = length-take 3 ces (omega arith) in
      let four = count-take_trees 4 (cons t ts) (omega (arith, h.0)) in
      Links-of m' n (take 3 ces) (take_trees 4 (cons t ts)) (omega arith) (omega arith) (λ j p.
        let same = child_address-take_trees 4 (cons t ts) j (omega arith) in
        (
          divides.node_child j (omega arith) ∙ (h.1 j (omega arith)).0 ∙ sym same,
          λ e. (h.1 j (omega arith)).1 (sym same ∙ e),
        ))

  upper-Links : (ts : Trees) → Links m n ces ts → Links m' s (drop 4 ces) (drop_trees 4 ts)
  unfolding drop_trees
  upper-Links nil h = λ j p. divides.sibling_child j p ∙ ground (arith, h (4 + j))
  upper-Links (cons t ts) h =
      let three = length-drop 4 ces in
      let four = count-drop_trees 4 (cons t ts) in
      Links-of m' s (drop 4 ces) (drop_trees 4 (cons t ts)) (omega (arith, h.0))
        (omega (arith, h.0))
        (λ j p.
          let same = child_address-drop_trees 4 (cons t ts) j in
          let row : (if ltb j 4 then get_child_offset m n (4 + j) else 0)
              ≡ get_child_offset m n (4 + j) =
            ground arith in
          (
            divides.sibling_child j (omega arith) ∙ row ∙ (h.1 (4 + j) (omega arith)).0 ∙ sym same,
            λ e. (h.1 (4 + j) (omega arith)).1 (sym same ∙ e),
          ))

  lower-TreeAt : TreeAt m' arr (lower_half n ces cts)
  unfolding TreeAt
  lower-TreeAt = (
    lower-Keys,
    omega (arith, length-take 3 ces (omega arith)),
    lower-Links cts links,
    TreesAt-take arr m' 4 cts children_held,
  )

  upper-TreeAt : TreeAt m' arr (upper_half s ces cts)
  unfolding TreeAt
  upper-TreeAt = (
    upper-Keys,
    omega (arith, length-drop 4 ces),
    upper-Links cts links,
    TreesAt-drop arr m' 4 cts children_held,
  )

  -- The parent, with the halves for its child.
  module _ (es : List Entry) (ts : Trees) (there : i < count ts) (room : length es < 7)
      (at : child i ts ≡ node n ces cts) (new : s ≢ 0) (parent : TreeAt m arr (node p es ts))
      (parent_entries : EntrySpans (Kept m m' arr) arr es)
      (others : Others arr (Kept m m' arr) i ts) where
    parent_row : Keys m arr p es
    unfolding TreeAt
    parent_row = parent.0

    inner :
        (count ts ≡ length es + 1)
        × ((j : ℕ)
            → j ≤ length es
            → (get_child_offset m p j ≡ child_address ts j) × (child_address ts j ≢ 0))
    unfolding TreeAt
    inner = Links-inner m p es ts (omega arith) parent.2

    parent-Keys : Keys m' arr p (insert_at i (nth ces 3) es)
    parent-Keys =
        let longer = length-insert_at i (nth ces 3) es in
        record {
          count = divides.parent_count ∙ omega (arith, parent_row.count);
          hashes = λ j h.
              divides.parent_hash j (omega (arith, parent_row.count))
              ∙ ap (λ v. inserted (get_hash m p) i v j) (keys.hashes 3 (omega arith))
              ∙ put-row (get_hash m p) (λ (e : Entry). e.key.hash) es (nth ces 3) i j
                  parent_row.hashes (omega (arith, inner.0)) (omega arith);
          addresses = λ j h.
              divides.parent_kv j (omega (arith, parent_row.count))
              ∙ ap (λ v. inserted (get_kv_offset m p) i v j) (keys.addresses 3 (omega arith))
              ∙ put-row (get_kv_offset m p) (λ (e : Entry). e.address) es (nth ces 3) i j
                  parent_row.addresses (omega (arith, inner.0)) (omega arith);
          held = λ j h.
              put-Held m' arr es (nth ces 3) i j
                (λ x q. Held-same m m' arr (nth es x) (parent_entries x q) (parent_row.held x q))
                (entry-Held 3 (omega arith)) (omega (arith, inner.0)) (omega arith);
        }

    abbrev pub divided : Trees
    divided = divide i (lower_half n ces cts) (upper_half s ces cts) ts

    divided_row : (j : ℕ) → child_address divided j ≡ inserted (child_address ts) (i + 1) s j
    divided_row j =
        child_address-divide i (lower_half n ces cts) (upper_half s ces cts) ts j there
          (sym (ap address at) ∙ sym (child_address-child i ts there))

    child_row : (j : ℕ) → j ≤ length es + 1 → get_child_offset m' p j ≡ child_address divided j
    child_row j h =
        divides.parent_child j (omega (arith, parent_row.count))
        ∙ inserted-ext (get_child_offset m p) (child_address ts) (i + 1) s (length es) j
            (λ x q. (inner.1 x q).0) (omega (arith, inner.0)) h
        ∙ sym (divided_row j)

    child_there : (j : ℕ) → j ≤ length es + 1 → child_address divided j ≢ 0
    child_there j h e =
        inserted_nonzero (child_address ts) (i + 1) s (length es) j (λ x q. (inner.1 x q).1) new
          (omega (arith, inner.0)) h (sym (divided_row j) ∙ e)

    pub parent-TreeAt : TreeAt m' arr (node p (insert_at i (nth ces 3) es) divided)
    unfolding TreeAt
    parent-TreeAt =
        let longer = length-insert_at i (nth ces 3) es in
        let more = count-divide i (lower_half n ces cts) (upper_half s ces cts) ts there in
        (
          parent-Keys,
          omega arith,
          Links-of m' p (insert_at i (nth ces 3) es) divided (omega arith) (omega (arith, inner.0))
              (λ j h. (child_row j (omega arith), child_there j (omega arith))),
          TreesAt-divide arr m m' i (lower_half n ces cts) (upper_half s ces cts) ts parent.3 others
              lower-TreeAt upper-TreeAt,
        )
