-- ===== src/Buffer/Set/Puts.antt =====
-- What `set_impl` of a new key makes of a tree: the steps up to it, and what it did at a child.
use lite3_cpp.Base.{
  refl, true, ltb, ℕ, suc, ◌+◌, ◌<◌, ◌≤◌, ◌≡◌, sym, ◌∙◌, ap, subst, Bool, List, length, arith,
}
use lite3_cpp.Node.{Tag}
use lite3_cpp.Outcome.{Outcome, ok}
use lite3_cpp.Buffer.State.{Buffer}
use lite3_cpp.Buffer.Search.Table.{Entry, position, position-le}
use lite3_cpp.Buffer.Search.Held.{entry_size, value_at}
use lite3_cpp.Buffer.Tree.{Tree, Trees, node, count, entries}
use lite3_cpp.Buffer.Tree.Order.{IsSorted}
use lite3_cpp.Buffer.Tree.Parts.{child}
use lite3_cpp.Buffer.Tree.Spread.{entries-spread}
use lite3_cpp.Buffer.Tree.Put.{put}
use lite3_cpp.Buffer.Tree.Grows.{Stored, Grows, Grows-trans, Grows-child}
use lite3_cpp.Buffer.Tree.PutIn.{put_in, spread-put_in}
use lite3_cpp.Buffer.Set.{continue, replace, set_round, set_loop}

-- The entry at an address.
abbrev pub placed : Entry → ℕ → Entry
placed e a = record e { address = a }

-- The result `r` of a call: the value's address, and a buffer in which the tree has grown by the entry,
-- and the used bytes by no more than `k` besides the entry's.
pub record Puts (b : Buffer) (arr : Bool) (t : Tree) (e : Entry) (k : ℕ) (r : Outcome (ℕ × Buffer))
    : Type 1 where
  pub buffer : Buffer
  pub tree : Tree
  pub at : ℕ
  pub returned : r ≡ ok (value_at arr (placed e at), buffer)
  pub grows : Grows b buffer arr t tree
  pub put_entry : entries tree ≡ put_in (placed e at) (entries t)
  pub spent : buffer.m_used_size ≤ b.m_used_size + k + entry_size arr e

module _ (arr : Bool) (e : Entry) where
  pub Puts-step :
      (b b' : Buffer) (t t' : Tree) (j k l : ℕ) (r r' : Outcome (ℕ × Buffer))
      → Grows b b' arr t t'
      → entries t' ≡ entries t
      → b'.m_used_size ≤ b.m_used_size + j
      → j + k ≤ l
      → r ≡ r'
      → Puts b' arr t' e k r'
      → Puts b arr t e l r
  Puts-step b b' t t' j k l r r' grown same up le goes p = record {
    buffer = p.buffer;
    tree = p.tree;
    at = p.at;
    returned = goes ∙ p.returned;
    grows = Grows-trans b b' p.buffer arr t t' p.tree grown p.grows;
    put_entry = p.put_entry ∙ ap (put_in (placed e p.at)) same;
    spent = omega (arith, p.spent);
  }

  pub Puts-more :
      (b : Buffer) (t : Tree) (k l : ℕ) (r : Outcome (ℕ × Buffer))
      → k ≤ l
      → Puts b arr t e k r
      → Puts b arr t e l r
  Puts-more b t k l r le p = record {
    buffer = p.buffer;
    tree = p.tree;
    at = p.at;
    returned = p.returned;
    grows = p.grows;
    put_entry = p.put_entry;
    spent = omega (arith, p.spent);
  }

  pub Puts-child :
      (b : Buffer) (p : ℕ) (es : List Entry) (ts : Trees) (k : ℕ) (r : Outcome (ℕ × Buffer))
      → Stored b arr (node p es ts)
      → count ts ≡ length es + 1
      → IsSorted (entries (node p es ts))
      → Puts b arr (child (position e.key es) ts) e k r
      → Puts b arr (node p es ts) e k r
  Puts-child b p es ts k r stored counted sorted below =
      let i = position e.key es in
      let there : i < count ts = omega (arith, position-le e.key es) in
      record {
        buffer = below.buffer;
        tree = node p es (put i below.tree ts);
        at = below.at;
        returned = below.returned;
        grows = Grows-child b below.buffer arr p i es ts below.tree stored there below.grows;
        put_entry =
            entries-spread p es (put i below.tree ts)
            ∙ spread-put_in (placed e below.at) below.tree es ts counted
                (subst IsSorted (entries-spread p es ts) sorted) below.put_entry
            ∙ ap (put_in (placed e below.at)) (sym (entries-spread p es ts));
        spent = below.spent;
      }

-- Rounds that go on.
module _ (key : List ℕ) (hash : ℕ) (val : List ℕ) (type : Tag) (arr : Bool) (b : Buffer)
    (p n fuel d q o : ℕ) (b' : Buffer) (free : d < 16) where
  has_room : ltb d 16 ≡ true
  has_room = ground arith

  pub set_loop-continue :
      set_round key hash val type arr b p n ≡ continue q o b'
      → set_loop key hash val type arr (suc fuel) d b p n
        ≡ set_loop key hash val type arr fuel (d + 1) b' q o
  unfolding set_loop
  set_loop-continue h = rw (set_loop, has_room, h) refl

  pub set_loop-replace :
      set_round key hash val type arr b p n ≡ replace q o b'
      → set_loop key hash val type arr (suc fuel) d b p n
        ≡ set_loop key hash val type arr fuel d b' q o
  unfolding set_loop
  set_loop-replace h = rw (set_loop, has_room, h) refl
