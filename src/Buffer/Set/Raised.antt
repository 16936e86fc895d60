-- ===== src/Buffer/Set/Raised.antt =====
-- What `set_impl` leaves of a tree, and the round that splits its root.
use lite3_cpp.Base.{
  ℕ, suc, ◌+◌, ◌-◌, ◌*◌, ◌^◌, ◌<◌, ◌≤◌, ◌≡◌, sym, ◌∙◌, subst, Bool, List, length, arith, size_max,
}
use mathlib.Core.List.{append-nil}
use lite3_cpp.Node.{node_size}
use lite3_cpp.Node.Head.{SameHead}
use lite3_cpp.Buffer.State.{Buffer}
use lite3_cpp.Buffer.Search.{rounds}
use lite3_cpp.Buffer.Search.Table.{Entry}
use lite3_cpp.Buffer.Search.Held.{entry_size}
use lite3_cpp.Buffer.Insert.Leaf.{Apart}
use lite3_cpp.Buffer.Tree.{Tree, Trees, node, address, entries, height}
use lite3_cpp.Buffer.Tree.Frame.{Spans}
use lite3_cpp.Buffer.Tree.Leaves.{lifted-Tidy, lifted-Spans}
use lite3_cpp.Buffer.Tree.Spread.{entries-spread}
use lite3_cpp.Buffer.Tree.Tidy.{Tidy, SpansOf-zip}
use lite3_cpp.Buffer.Tree.Even.{Even, Even-root}
use lite3_cpp.Buffer.Tree.Grows.{Stored}
use lite3_cpp.Buffer.Tree.PutIn.{put_in}
use lite3_cpp.Buffer.Split.{align_up}
use lite3_cpp.Buffer.Set.{replace, split_round}
use lite3_cpp.Buffer.Set.Root.{InUsed, raised, raised_buffer, split_round-root}

-- What a call leaves of a tree: the same address, the entries with the new one at its place among them,
-- and no more than one level more.
pub record Sets (b b' : Buffer) (arr : Bool) (t t' : Tree) (e : Entry) : Type 0 where
  pub stored : Stored b' arr t'
  pub same : address t' ≡ address t
  pub head : SameHead b.m_data b'.m_data (address t)
  pub put_entry : entries t' ≡ put_in e (entries t)
  pub used : b.m_used_size ≤ b'.m_used_size
  pub spent : b'.m_used_size ≤ b.m_used_size + 99 * (height t + 2) + entry_size arr e
  pub low : height t' ≤ height t + 1
  pub even : (d : ℕ) → Even d t → (c : ℕ) × (c ≤ d + 1) × Even c t'
  pub grown : height t' ≤ height t + (b'.m_used_size - b.m_used_size)

-- A split root.
module _ (b : Buffer) (arr : Bool) (a : ℕ) (es : List Entry) (ts : Trees)
    (stored : Stored b arr (node a es ts)) (low : b.m_used_size + 3 < 2 ^ 32)
    (flat : height (node a es ts) < rounds b) where
  abbrev to : ℕ
  to = align_up b.m_used_size

  pub root-round :
      (e : Entry)
      → (split_round e.key.text e.key.hash e.val e.type arr b size_max a
          ≡ replace a to (raised_buffer b a))
        × Stored (raised_buffer b a) arr (raised b a es ts)
        × ((raised_buffer b a).m_used_size ≡ to + node_size)
        × SameHead b.m_data (raised_buffer b a).m_data a
  unfolding Spans Tidy
  root-round e =
      let all =
        split_round-root b arr a es ts stored.fits stored.inside.0 low stored.held
          (λ j h. ((stored.tidy.0 j h).0, stored.inside.1 j h))
          (SpansOf-zip arr (λ x n. Apart x n a node_size) (λ x n. x + n ≤ b.m_used_size)
            (InUsed b a) (λ x n p q. (p, q)) ts stored.tidy.1 stored.inside.2)
          e.key.text e.key.hash e.val e.type flat in
      let behind : b.m_used_size ≤ to = omega arith in
      (
        all.0,
        record {
          fits = all.6;
          held = all.1;
          tidy = lifted-Tidy arr a to b.m_used_size es ts behind stored.tidy stored.inside;
          inside =
              subst (λ u. Spans (λ x n. x + n ≤ u) arr (raised b a es ts)) (sym all.5)
                (lifted-Spans arr a to b.m_used_size es ts behind stored.tidy stored.inside);
        },
        all.5,
        (all.3, all.4),
      )

  pub root-entries : entries (raised b a es ts) ≡ entries (node a es ts)
  unfolding entries
  root-entries =
      append-nil (entries (node to es ts)) ∙ entries-spread to es ts ∙ sym (entries-spread a es ts)

  pub raised-Even :
      (d : ℕ) → length es ≡ 7 → Even d (node a es ts) → Even (suc d) (raised b a es ts)
  unfolding Even
  raised-Even d full e =
      (omega arith, (omega arith, Even-root d a (align_up b.m_used_size) es ts e, tt))
