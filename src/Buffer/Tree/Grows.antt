-- ===== src/Buffer/Tree/Grows.antt =====
-- What a step of `set_impl` may do to a tree in a buffer, and the steps at a child as steps at its parent.
use lite3_cpp.Base.{ℕ, ◌+◌, ◌<◌, ◌≤◌, ◌≡◌, refl, sym, subst, ◌∙◌, Bool, List, length, arith}
use lite3_cpp.Memory.{Memory}
use lite3_cpp.Memory.Laws.{SameOn}
use lite3_cpp.Node.{node_size}
use lite3_cpp.Node.Head.{SameHead, SameHead-trans, SameHead-same}
use lite3_cpp.Buffer.State.{Buffer}
use lite3_cpp.Buffer.Search.Table.{Entry}
use lite3_cpp.Buffer.Search.Frame.{Keys-same}
use lite3_cpp.Node.Frame.{get_child_offset-same}
use lite3_cpp.Buffer.Insert.Leaf.{Apart}
use lite3_cpp.Buffer.Split.Rows.{Links-of}
use lite3_cpp.Buffer.Tree.{Tree, node, Trees, nil, cons, address, count, height}
use lite3_cpp.Buffer.Tree.Held.{Links, TreeAt}
use lite3_cpp.Buffer.Tree.Frame.{Spans, SpansOf, SpansOf-map, Kept}
use lite3_cpp.Buffer.Tree.Parts.{child}
use lite3_cpp.Buffer.Tree.Tidy.{
  Off, OffOf, Tidy, OffOf-child, SpansOf-child, Others, SpansOf-Others, TidyOf-Others, Others-zip,
}
use lite3_cpp.Buffer.Tree.Put.{
  put, count-put, child_address-put, height-put, OffOf-OffOthers, OffOf-put, SpansOf-put,
  TreesAt-put,
}
use lite3_cpp.Buffer.Tree.Even.{root_keys, Even, Even-put}
use lite3_cpp.Buffer.Tree.Replace.{Fresh, Extends, StaysOff, TidyOf-put}

-- A tree in the used bytes, its nodes apart from each other and from the entries.
pub record Stored (b : Buffer) (arr : Bool) (t : Tree) : Type 0 where
  pub fits : b.m_used_size ≤ b.m_data.size
  pub held : TreeAt b.m_data arr t
  pub tidy : Tidy arr t
  pub inside : Spans (λ x n. x + n ≤ b.m_used_size) arr t

-- The tree `t` of `b` has become `u` in `b'`, whose new regions lie behind the used bytes of `b`; what
-- lay in these and met no node of `t` is as it was.
pub record Grows (b b' : Buffer) (arr : Bool) (t u : Tree) : Type 1 where
  pub stored : Stored b' arr u
  pub same : address u ≡ address t
  pub head : SameHead b.m_data b'.m_data (address t)
  pub used : b.m_used_size ≤ b'.m_used_size
  pub spans : Extends arr b.m_used_size b'.m_used_size t u
  pub off : StaysOff b.m_used_size t u
  pub kept : (x n : ℕ) → Off t x n → x + n ≤ b.m_used_size → SameOn x n b.m_data b'.m_data
  pub low : height u ≤ height t
  pub even : (d : ℕ) → Even d t → Even d u
  pub keys : length (root_keys t) ≤ length (root_keys u)

pub Grows-trans :
    (b b' b'' : Buffer) (arr : Bool) (t u v : Tree)
    → Grows b b' arr t u
    → Grows b' b'' arr u v
    → Grows b b'' arr t v
Grows-trans b b' b'' arr t u v g h = record {
  stored = h.stored;
  same = h.same ∙ g.same;
  head =
      SameHead-trans b.m_data b'.m_data b''.m_data (address t) g.head
        (subst (SameHead b'.m_data b''.m_data) g.same h.head);
  used = omega (arith, g.used, h.used);
  spans = λ P all fresh.
      h.spans P (g.spans P all (λ x n lo hi. fresh x n lo (omega (arith, h.used))))
        (λ x n lo hi. fresh x n (omega (arith, g.used)) hi);
  off = λ x n out below. h.off x n (g.off x n out below) (omega (arith, g.used));
  kept = λ x n out below y lo hi.
      h.kept x n (g.off x n out below) (omega (arith, g.used)) y lo hi
      ∙ g.kept x n out below y lo hi;
  low = omega (arith, g.low, h.low);
  even = λ d e. h.even d (g.even d e);
  keys = omega (arith, g.keys, h.keys);
}

-- A row of children whose addresses stay.
Links-put :
    (m m' : Memory) (a : ℕ) (es : List Entry) (ts : Trees) (i : ℕ) (u : Tree)
    → length es ≤ 7
    → SameOn a node_size m m'
    → address u ≡ address (child i ts)
    → Links m a es ts
    → Links m' a es (put i u ts)
unfolding put child
Links-put m m' a es nil i u room same at h = λ j p. get_child_offset-same m m' a same j p ∙ h j p
Links-put m m' a es (cons t ts) i u room same at h =
    let row = child_address-put i u (cons t ts) in
    Links-of m' a es (put i u (cons t ts)) (omega (arith, count-put i u (cons t ts)))
      (omega (arith, count-put i u (cons t ts), h.0))
      (λ j p. (
        get_child_offset-same m m' a same j (omega arith) ∙ (h.1 j p).0 ∙ sym (row j at),
        λ e. (h.1 j p).1 (sym (row j at) ∙ e),
      ))

module _ (b b' : Buffer) (arr : Bool) (p i : ℕ) (es : List Entry) (ts : Trees) (u : Tree)
    (stored : Stored b arr (node p es ts)) (there : i < count ts)
    (grown : Grows b b' arr (child i ts) u) where
  node_in : p + node_size ≤ b.m_used_size
  unfolding Spans
  node_in = stored.inside.0

  others : Others arr (Kept b.m_data b'.m_data arr) i ts
  unfolding Tidy Spans
  others =
      Others-zip arr (λ x n. x + n ≤ b.m_used_size) (Off (child i ts)) (Kept b.m_data b'.m_data arr)
        (λ x n below out. grown.kept x n out below) i ts
        (SpansOf-Others arr (λ x n. x + n ≤ b.m_used_size) i ts stored.inside.2)
        (TidyOf-Others arr i ts there stored.tidy.3)

  put-off : (x n : ℕ) → OffOf ts x n → x + n ≤ b.m_used_size → OffOf (put i u ts) x n
  put-off x n out below =
      OffOf-put i u ts x n (OffOf-OffOthers i ts x n out)
        (grown.off x n (OffOf-child i ts x n there out) below)

  put-spans :
      (P : ℕ → ℕ → Type 0)
      → SpansOf P arr ts
      → Fresh b.m_used_size b'.m_used_size P
      → SpansOf P arr (put i u ts)
  put-spans P all fresh =
      SpansOf-put P arr i u ts all (grown.spans P (SpansOf-child arr P i ts there all) fresh)

  same_on : (x n : ℕ) → OffOf ts x n → x + n ≤ b.m_used_size → SameOn x n b.m_data b'.m_data
  same_on x n out below = grown.kept x n (OffOf-child i ts x n there out) below

  put-held : TreeAt b'.m_data arr (node p es (put i u ts))
  unfolding TreeAt Tidy Spans
  put-held =
      let same = same_on p node_size stored.tidy.2 stored.inside.0 in
      (
        Keys-same b.m_data b'.m_data arr p es stored.held.1 same
            (λ j h. same_on _ _ (stored.tidy.0 j h).1 (stored.inside.1 j h)) stored.held.0,
        stored.held.1,
        Links-put b.m_data b'.m_data p es ts i u stored.held.1 same grown.same stored.held.2,
        TreesAt-put b.m_data b'.m_data arr i u ts stored.held.3 others grown.stored.held,
      )

  put-Tidy : Tidy arr (node p es (put i u ts))
  unfolding Tidy Spans
  put-Tidy = (
    λ j h. ((stored.tidy.0 j h).0, put-off _ _ (stored.tidy.0 j h).1 (stored.inside.1 j h)),
    put-spans (λ x n. Apart x n p node_size) stored.tidy.1 (λ x n lo hi. omega (arith, node_in)),
    put-off p node_size stored.tidy.2 node_in,
    TidyOf-put arr b.m_used_size b'.m_used_size i u ts there grown.spans grown.off grown.stored.tidy
        stored.inside.2 stored.tidy.3,
  )

  pub Grows-child : Grows b b' arr (node p es ts) (node p es (put i u ts))
  unfolding Tidy Spans Off height
  Grows-child = record {
    stored = record {
      fits = grown.stored.fits;
      held = put-held;
      tidy = put-Tidy;
      inside = (
        omega (arith, node_in, grown.used),
        λ j h. omega (arith, stored.inside.1 j h, grown.used),
        SpansOf-put (λ x n. x + n ≤ b'.m_used_size) arr i u ts
            (SpansOf-map (λ x n. x + n ≤ b.m_used_size) (λ x n. x + n ≤ b'.m_used_size) arr
              (λ x n h. omega (arith, grown.used)) ts stored.inside.2)
            grown.stored.inside,
      );
    };
    same = refl;
    head = SameHead-same b.m_data b'.m_data p (same_on p node_size stored.tidy.2 node_in);
    used = grown.used;
    spans = λ P all fresh. (all.0, all.1, put-spans P all.2 fresh);
    off = λ x n out below. (out.0, put-off x n out.1 below);
    kept = λ x n out below. same_on x n out.1 below;
    low = omega (arith, height-put i u ts grown.low);
    even = λ d e. Even-put d p i es ts u there grown.keys grown.even e;
    keys = omega arith;
  }
