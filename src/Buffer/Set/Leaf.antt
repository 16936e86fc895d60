-- ===== src/Buffer/Set/Leaf.antt =====
-- `set_impl` of a new key at a leaf that is not full, and `get_impl` after it.
use lite3_cpp.Base.{
  refl, ltb, ℕ, suc, ◌+◌, ◌*◌, ◌^◌, ◌<◌, ◌≡◌, ◌∙◌, ap, Bool, true, false, List, none, some, arith,
  leb, if◌then◌else◌, length, size_max, lt→leb,
}
use lite3_cpp.Node.{Tag, key_count}
use lite3_cpp.Outcome.{ok}
use lite3_cpp.Buffer.State.{Buffer}
use lite3_cpp.Buffer.Compare.Order.{Key, compare_keys}
use lite3_cpp.Buffer.Search.{is_eq, get_impl}
use lite3_cpp.Buffer.Search.Table.{
  Entry, position, position-le, lookup, insert_at, lookup-insert_at,
}
use lite3_cpp.Buffer.Search.Held.{value_at, scan-position, matches-lookup}
use lite3_cpp.Buffer.Search.Leaf.{get_impl-Leaf}
use lite3_cpp.Buffer.Insert.Leaf.{LeafIn, IsNew}
use lite3_cpp.Buffer.Insert.Placed.{after, insert_leaf-LeafIn, insert_leaf-after}
use lite3_cpp.Buffer.Set.{finish, touch, set_round, search_round, set_loop, set_impl}
use lite3_cpp.Buffer.Set.Touch.{touch-LeafIn, key_count-touch}

module _ (key : List ℕ) (hash : ℕ) (val : List ℕ) (type : Tag) (arr : Bool) (b : Buffer)
    (parent node : ℕ) where
  -- At a node that is not full a round searches.
  pub set_round-search :
      key_count b.m_data node < 7
      → set_round key hash val type arr b parent node
        ≡ search_round key hash val type arr (record b { m_data = touch b.m_data node }) node
  unfolding set_round
  set_round-search h =
      let few : leb 7 (key_count (touch b.m_data node) node) ≡ false =
        lt→leb 7 _ (omega (arith, key_count-touch b.m_data node)) in
      rw few

  -- A round that finishes ends the loop.
  pub set_loop-finish :
      (fuel d vo : ℕ) (b' : Buffer)
      → d < 16
      → set_round key hash val type arr b parent node ≡ finish vo b'
      → set_loop key hash val type arr (suc fuel) d b parent node ≡ ok (vo, b')
  unfolding set_loop
  set_loop-finish fuel d vo b' room h =
      let has_room : ltb d 16 ≡ true = ground arith in rw (set_loop, has_room, h) refl

module _ (b : Buffer) (arr : Bool) (a : ℕ) (es : List Entry) (e : Entry) (inv : LeafIn b arr a es)
    (room : length es < 7) (new : IsNew arr e) (out : lookup e.key es ≡ none)
    (at_end : e.address ≡ b.m_used_size) (addressable : e.address < 2 ^ 32) where
  abbrev touched : Buffer
  touched = record b { m_data = touch b.m_data a }

  -- The buffer with the new entry.
  abbrev pub with_key : Buffer
  with_key = after touched arr a es e (touch-LeafIn b arr a es inv) room new out at_end addressable

  pub search_round-finish :
      search_round e.key.text e.key.hash e.val e.type arr touched a
      ≡ finish (value_at arr e) with_key
  unfolding search_round
  search_round-finish =
      let inv' = touch-LeafIn b arr a es inv in
      rw (
        scan-position touched.m_data arr a e.key new.array es inv'.leaf.keys,
        matches-lookup touched.m_data arr a e.key new.array es inv'.leaf.keys,
        out,
        inv'.leaf.bottom (position e.key es) (omega (arith, position-le e.key es)),
        insert_leaf-after touched arr a es e inv' room new out at_end addressable,
      )

  -- At a leaf of fewer than seven keys whose entries lie in the used bytes, for a new entry
  -- (`IsNew`) at their end, below 2^32, whose key is not found in the leaf: `set_impl` returns the
  -- address of the entry's value, within its rounds, and the buffer it leaves has at the same
  -- address a leaf of the same entries with the new one put in at its position.
  pub set_impl-new :
      (set_impl b a e.key.text e.key.hash e.val e.type arr ≡ ok (value_at arr e, with_key))
      × LeafIn with_key arr a (insert_at (position e.key es) e es)
  unfolding set_impl
  set_impl-new = (
    ap (λ n. set_loop e.key.text e.key.hash e.val e.type arr n 0 b size_max a)
          {y = suc (2 * b.m_used_size + 3)} (omega arith)
        ∙ set_loop-finish e.key.text e.key.hash e.val e.type arr b size_max a _ 0 _ _ (omega arith)
            (set_round-search e.key.text e.key.hash e.val e.type arr b size_max a
                (omega (arith, inv.leaf.keys.count))
              ∙ search_round-finish),
    insert_leaf-LeafIn touched arr a es e (touch-LeafIn b arr a es inv) room new out at_end
        addressable,
  )

  -- At a leaf of fewer than seven keys whose entries lie in the used bytes, after `set_impl` has
  -- put a new entry (`IsNew`) at their end, below 2^32, whose key was not found in the leaf,
  -- `get_impl` finds the new entry's data and type under its key, and under every key that compares
  -- otherwise it returns what it returned before; in an array a key has no text.
  pub get_impl-set_impl :
      (k : Key)
      → (arr ≡ true → k.text ≡ List.[])
      → get_impl with_key a k.text k.hash arr ≡ (
          if is_eq (compare_keys e.key k)
          then ok (some (value_at arr e + 1, e.type))
          else get_impl b a k.text k.hash arr)
  get_impl-set_impl k array =
      get_impl-Leaf with_key arr a k (insert_at (position e.key es) e es) array
        (set_impl-new.1.leaf)
      ∙ rw (lookup-insert_at k e es out, get_impl-Leaf b arr a k es array inv.leaf) (ground arith)
