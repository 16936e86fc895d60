-- ===== src/Buffer/Set/Visit.antt =====
-- The rounds of `set_impl` at a node that is not full, for a key whose hash no entry has.
use lite3_cpp.Base.{
  ℕ, suc, ◌+◌, ◌*◌, ◌^◌, ◌<◌, ◌≡◌, ◌≢◌, refl, ◌∙◌, subst, Bool, true, false, List, length, arith,
  ◌==◌,
}
use lite3_cpp.Outcome.{Outcome}
use lite3_cpp.Buffer.State.{Buffer}
use lite3_cpp.Buffer.Search.Table.{Entry, position, position-le}
use lite3_cpp.Buffer.Search.Held.{entry_size, value_at, scan-position, matches-lookup}
use lite3_cpp.Buffer.Insert.Leaf.{IsNew}
use lite3_cpp.Buffer.Tree.{Tree, Trees, nil, node, count, entries, child_address}
use lite3_cpp.Buffer.Tree.Held.{TreeAt}
use lite3_cpp.Buffer.Tree.Order.{IsSorted}
use lite3_cpp.Buffer.Tree.Spread.{entries-spread}
use lite3_cpp.Buffer.Tree.Grows.{Stored, Grows-trans}
use lite3_cpp.Buffer.Tree.PutIn.{put_in, HashFree, lookup-HashFree}
use lite3_cpp.Buffer.Tree.Portion.{All-keys}
use lite3_cpp.Buffer.Split.Rows.{Links-inner}
use lite3_cpp.Buffer.Set.{continue, search_round, set_round, set_loop}
use lite3_cpp.Buffer.Set.Touched.{touched, Grows-touched, Grows-put, Stored-LeafIn}
use lite3_cpp.Buffer.Set.Leaf.{set_round-search, set_loop-finish, search_round-finish, with_key}
use lite3_cpp.Buffer.Set.Puts.{placed, Puts}

pub IsNew-placed : (arr : Bool) (e : Entry) (a : ℕ) → IsNew arr e → IsNew arr (placed e a)
IsNew-placed arr e a new = record {
  hash_fits = new.hash_fits;
  small = new.small;
  array = new.array;
  known = new.known;
  sized = new.sized;
  type_fits = new.type_fits;
  val_fits = new.val_fits;
}

-- The calls at a node: the new entry, and the bytes that the levels of a tree may take.
module _ (arr : Bool) (e : Entry) where
  abbrev pub call : ℕ → ℕ → Buffer → ℕ → ℕ → Outcome (ℕ × Buffer)
  call fuel d b p n = set_loop e.key.text e.key.hash e.val e.type arr fuel d b p n

  -- A tree as it is found: in order, the new hash in none of its entries, and with room behind it for
  -- `n` new nodes and the entry.
  pub record Ready (b : Buffer) (t : Tree) (n : ℕ) : Type 0 where
    pub stored : Stored b arr t
    pub sorted : IsSorted (entries t)
    pub free : HashFree e.key.hash (entries t)
    pub space : b.m_used_size + 99 * n + entry_size arr e + 3 < 2 ^ 32

  -- A leaf takes the entry.
  module _ (new : IsNew arr e) (b : Buffer) (p a : ℕ) (es : List Entry) (room : length es < 7) where
    pub leaf-Puts :
        (n fuel d : ℕ)
        → d < 16
        → Ready b (node a es nil) n
        → Puts b arr (node a es nil) e (99 * n) (call (suc fuel) d b p a)
    unfolding TreeAt entries
    leaf-Puts n fuel d free ready =
        let at = b.m_used_size in
        let e' = placed e at in
        let new' = IsNew-placed arr e at new in
        let out = lookup-HashFree e.key es ready.free in
        let leaf = Stored-LeafIn b arr a es ready.stored in
        let low : at < 2 ^ 32 = omega (arith, ready.space) in
        let stored' = (Grows-touched b arr a es nil ready.stored).stored in
        record {
          buffer = with_key b arr a es e' leaf room new' out refl low;
          tree = node a (put_in e' es) nil;
          at = at;
          returned =
              set_loop-finish e.key.text e.key.hash e.val e.type arr b p a fuel d (value_at arr e')
                (with_key b arr a es e' leaf room new' out refl low) free
                (set_round-search e.key.text e.key.hash e.val e.type arr b p a
                    (omega (arith, leaf.leaf.keys.count))
                  ∙ search_round-finish b arr a es e' leaf room new' out refl low);
          grows =
              Grows-trans b (touched b a) (with_key b arr a es e' leaf room new' out refl low) arr
                (node a es nil) (node a es nil) (node a (put_in e' es) nil)
                (Grows-touched b arr a es nil ready.stored)
                (Grows-put (touched b a) arr a es e' stored' room new' out refl low);
          put_entry = refl;
          spent = omega arith;
        }

  -- An inner node that is not full sends the search to the child at the key's position.
  module _ (array : arr ≡ true → e.key.text ≡ List.[]) (b : Buffer) (p a : ℕ) (es : List Entry)
      (ts : Trees) (inner : 0 < count ts) (room : length es < 7) where
    pub set_round-down :
        (n : ℕ)
        → Ready b (node a es ts) n
        → set_round e.key.text e.key.hash e.val e.type arr b p a
          ≡ continue a (child_address ts (position e.key es)) (touched b a)
    unfolding TreeAt search_round
    set_round-down n ready =
        let b' = touched b a in
        let held = (Grows-touched b arr a es ts ready.stored).stored.held in
        let links = Links-inner b'.m_data a es ts inner held.2 in
        let i = position e.key es in
        let linked = links.1 i (position-le e.key es) in
        let there : (child_address ts i == 0) ≡ false = ground (arith, linked.1) in
        let free : HashFree e.key.hash es =
          All-keys (λ (d : Entry). d.key.hash ≢ e.key.hash) es ts (λ h. links.0)
            (subst (HashFree e.key.hash) (entries-spread a es ts) ready.free) in
        set_round-search e.key.text e.key.hash e.val e.type arr b p a
          (omega (arith, ready.stored.held.0.count))
        ∙ rw
            (
              scan-position b'.m_data arr a e.key array es held.0,
              matches-lookup b'.m_data arr a e.key array es held.0,
              lookup-HashFree e.key es free,
              linked.0,
              there,
            )
            refl
