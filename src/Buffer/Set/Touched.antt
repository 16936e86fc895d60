-- ===== src/Buffer/Set/Touched.antt =====
-- The steps of `set_impl` that change one node of a tree: its generation, and a new entry in a leaf.
use lite3_cpp.Base.{
  ℕ, ◌+◌, ◌^◌, ◌<◌, ◌≤◌, ◌≡◌, refl, ◌∙◌, Bool, List, none, length, arith, ◌-◌, ltb, ◌==◌,
  Bool-cases, inl, inr,
}
use lite3_cpp.Memory.{Memory}
use lite3_cpp.Memory.Laws.{SameOn}
use lite3_cpp.Memory.Frame.{SameOn-outside}
use lite3_cpp.Node.{node_size, generation, get_child_offset}
use lite3_cpp.Node.Head.{SameHead, SameHead-set_gen_type}
use lite3_cpp.Buffer.State.{Buffer}
use lite3_cpp.Buffer.Search.Table.{
  Entry, position, position-le, lookup, insert_at, length-insert_at, nth-insert_at,
}
use lite3_cpp.Buffer.Search.Held.{entry_size}
use lite3_cpp.Buffer.Insert.Leaf.{Apart, LeafIn, IsNew}
use lite3_cpp.Buffer.Insert.Placed.{after, insert_leaf-LeafIn, kept-after, SameHead-after}
use lite3_cpp.Buffer.Tree.{height, node, Trees, nil, cons}
use lite3_cpp.Buffer.Tree.Held.{Links, TreeAt}
use lite3_cpp.Buffer.Tree.Frame.{EntrySpans, Spans, SpansOf-map, Kept, TreesAt-same}
use lite3_cpp.Buffer.Tree.Tidy.{Off, Tidy}
use lite3_cpp.Buffer.Tree.Even.{Even-leaf}
use lite3_cpp.Buffer.Tree.Grows.{Stored, Grows}
use lite3_cpp.Buffer.Tree.Leaves.{LeafIn-TreeAt, LeafIn-Tidy, LeafIn-Spans}
use lite3_cpp.Buffer.Set.{touch}
use lite3_cpp.Buffer.Set.Touch.{touch-outside, touch-Keys, size-touch, get_child_offset-touch}

pub Links-rows :
    (m m' : Memory) (a : ℕ) (es : List Entry) (ts : Trees)
    → ((j : ℕ) → get_child_offset m' a j ≡ get_child_offset m a j)
    → Links m a es ts
    → Links m' a es ts
Links-rows m m' a es nil same h = λ j p. same j ∙ h j p
Links-rows m m' a es (cons t ts) same h = (h.0, λ j p. (same j ∙ (h.1 j p).0, (h.1 j p).1))

abbrev pub touched : Buffer → ℕ → Buffer
touched b a = record b { m_data = touch b.m_data a }

SameHead-touch : (m : Memory) (a : ℕ) → SameHead m (touch m a) a
unfolding touch
SameHead-touch m a = SameHead-set_gen_type m a (generation m a + 1)

pub Grows-touched :
    (b : Buffer) (arr : Bool) (a : ℕ) (es : List Entry) (ts : Trees)
    → Stored b arr (node a es ts)
    → Grows b (touched b a) arr (node a es ts) (node a es ts)
unfolding TreeAt Tidy Off
Grows-touched b arr a es ts stored =
    let outside : (x n : ℕ) → Apart x n a node_size → SameOn x n b.m_data (touch b.m_data a) =
      λ x n apart.
        SameOn-outside a node_size x n b.m_data (touch b.m_data a) apart
          (touch-outside b.m_data a) in
    record {
      stored = record {
        fits = omega (arith, stored.fits, size-touch b.m_data a);
        held = (
          touch-Keys b.m_data a arr es (λ j h. (stored.tidy.0 j h).0) stored.held.0,
          stored.held.1,
          Links-rows b.m_data (touch b.m_data a) a es ts (get_child_offset-touch b.m_data a)
              stored.held.2,
          TreesAt-same b.m_data (touch b.m_data a) arr ts
              (SpansOf-map (λ x n. Apart x n a node_size) (Kept b.m_data (touch b.m_data a) arr) arr
                outside ts stored.tidy.1)
              stored.held.3,
        );
        tidy = stored.tidy;
        inside = stored.inside;
      };
      same = refl;
      head = SameHead-touch b.m_data a;
      used = omega arith;
      spans = λ P all fresh. all;
      off = λ x n out below. out;
      kept = λ x n out below. outside x n out.0;
      low = omega arith;
      even = λ d e. e;
      keys = omega arith;
    }

pub Stored-LeafIn :
    (b : Buffer) (arr : Bool) (a : ℕ) (es : List Entry)
    → Stored b arr (node a es nil)
    → LeafIn b arr a es
unfolding TreeAt Tidy Spans
Stored-LeafIn b arr a es stored = record {
  leaf = record { keys = stored.held.0; room = stored.held.1; bottom = stored.held.2 };
  fits = stored.fits;
  node_in = stored.inside.0;
  apart = λ j h. (stored.tidy.0 j h).0;
  below = stored.inside.1;
}

pub LeafIn-Stored :
    (b : Buffer) (arr : Bool) (a : ℕ) (es : List Entry)
    → LeafIn b arr a es
    → Stored b arr (node a es nil)
LeafIn-Stored b arr a es leaf = record {
  fits = leaf.fits;
  held = LeafIn-TreeAt b arr a es leaf;
  tidy = LeafIn-Tidy b arr a es leaf;
  inside = LeafIn-Spans b arr a es leaf;
}

module _ (P : ℕ → ℕ → Type 0) (arr : Bool) where
  -- A property of two rows of entries, one put into the other.
  pub EntrySpans-insert_at :
      (i : ℕ) (e : Entry) (es : List Entry)
      → i ≤ length es
      → EntrySpans P arr es
      → P e.address (entry_size arr e)
      → EntrySpans P arr (insert_at i e es)
  EntrySpans-insert_at i e es pos all new j h =
      rw (nth-insert_at i j e es pos) (elim (Bool-cases (ltb j i)) [
        | inl lo ↦ rw lo (all j (ground arith))
        | inr up ↦ rw up (elim (Bool-cases (i == j)) [
          | inl here ↦ rw here new
          | inr past ↦ rw past (all (j - 1) (ground (arith, length-insert_at i e es)))
        ])
      ])

module _ (b : Buffer) (arr : Bool) (a : ℕ) (es : List Entry) (e : Entry)
    (stored : Stored b arr (node a es nil)) (room : length es < 7) (new : IsNew arr e)
    (out : lookup e.key es ≡ none) (at_end : e.address ≡ b.m_used_size)
    (addressable : e.address < 2 ^ 32) where
  -- The buffer with the new entry in the leaf.
  abbrev pub put_buffer : Buffer
  put_buffer = after b arr a es e (Stored-LeafIn b arr a es stored) room new out at_end addressable

  pub Grows-put :
      Grows b put_buffer arr (node a es nil) (node a (insert_at (position e.key es) e es) nil)
  unfolding Spans Off height
  Grows-put = record {
    stored = LeafIn-Stored put_buffer arr a (insert_at (position e.key es) e es) (
        insert_leaf-LeafIn b arr a es e (Stored-LeafIn b arr a es stored) room new out at_end
          addressable);
    same = refl;
    head =
        SameHead-after b arr a es e (Stored-LeafIn b arr a es stored) room new out at_end
          addressable;
    used = omega arith;
    spans = λ P all fresh. (
      all.0,
      EntrySpans-insert_at P arr (position e.key es) e es (position-le e.key es) all.1
          (fresh _ _ (omega arith) (omega arith)),
      tt,
    );
    off = λ x n out' below. out';
    kept = λ x n out' below.
        kept-after b arr a es e (Stored-LeafIn b arr a es stored) room new out at_end addressable x
          n out'.0 below;
    low = omega arith;
    even = λ d h. Even-leaf d a es (insert_at (position e.key es) e es) h;
    keys = omega (arith, length-insert_at (position e.key es) e es);
  }
