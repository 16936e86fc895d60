-- ===== src/Buffer/Set/Halved.antt =====
-- The split of a full child as a step of the tree at its parent.
use lite3_cpp.Base.{ℕ, ◌+◌, ◌^◌, ◌<◌, ◌≤◌, ◌≡◌, refl, ◌∙◌, subst, Bool, List, length, arith}
use lite3_cpp.Memory.Laws.{SameOn}
use lite3_cpp.Node.{node_size}
use lite3_cpp.Node.Head.{SameHead, SameHead-trans, SameHead-same}
use lite3_cpp.Buffer.State.{Buffer}
use lite3_cpp.Buffer.Search.Table.{Entry, length-insert_at, insert_at, nth}
use lite3_cpp.Buffer.Tree.{Trees, node, count}
use lite3_cpp.Buffer.Tree.Held.{TreeAt}
use lite3_cpp.Buffer.Tree.Frame.{Spans, Spans-map}
use lite3_cpp.Buffer.Tree.Even.{Even, Even-take, Even-drop, Even-divide}
use lite3_cpp.Buffer.Tree.Parts.{take, drop, length-take, length-drop, child}
use lite3_cpp.Buffer.Tree.Tidy.{Off, OffOf-child, TreesAt-child}
use lite3_cpp.Buffer.Tree.Grows.{Stored, Grows}
use lite3_cpp.Buffer.Split.{align_up, make_room}
use lite3_cpp.Buffer.Split.Room.{make_room-kept, make_room-fits, make_room-used}
use lite3_cpp.Buffer.Split.Rows.{Links-inner}
use lite3_cpp.Buffer.Split.Halves.{lower_half, upper_half}
use lite3_cpp.Buffer.Set.Growth.{size-split_child}
use lite3_cpp.Buffer.Set.Inner.{keeps, split_child-SameHead}
use lite3_cpp.Buffer.Set.Child.{
  halved, halved_buffer, halved-at, halved-used, halved-height, held₁, inside₁, addressable₁,
}
use lite3_cpp.Buffer.Set.Divided.{Extends-halved, StaysOff-halved, Tidy-halved}

-- The round that splits child `i`.
module _ (b : Buffer) (arr : Bool) (p n i : ℕ) (es ces : List Entry) (ts cts : Trees)
    (stored : Stored b arr (node p es ts)) (addressable : b.m_used_size + 3 < 2 ^ 32)
    (there : i < count ts) (at : child i ts ≡ node n ces cts) (full : length ces ≡ 7)
    (room : length es < 7) where
  new_used : (halved_buffer b p n i).m_used_size ≡ align_up b.m_used_size + node_size
  new_used =
      halved-used b arr p n i es ces ts cts stored.fits addressable stored.held stored.tidy
        stored.inside there at full room

  pos : i ≤ length es
  unfolding TreeAt
  pos = omega (arith, (Links-inner b.m_data p es ts (omega arith) stored.held.2).0)

  kept-halved :
      (x k : ℕ)
      → Off (node p es ts) x k
      → x + k ≤ b.m_used_size
      → SameOn x k b.m_data (halved_buffer b p n i).m_data
  unfolding Off
  kept-halved x k out below y lo hi =
      let up : b.m_used_size ≤ (make_room b p).m_used_size =
        omega (arith, make_room-used b p stored.fits) in
      keeps (make_room b p) arr p n i es ces ts cts
        (held₁ b arr p n i es ces ts cts stored.fits addressable stored.held stored.tidy
          stored.inside there at full room)
        stored.tidy
        (inside₁ b arr p n i es ces ts cts stored.fits addressable stored.held stored.tidy
          stored.inside there at full room)
        there at full room
        (addressable₁ b arr p n i es ces ts cts stored.fits addressable stored.held stored.tidy
          stored.inside there at full room)
        x k (out.0, (subst (λ t. Off t x k) at (OffOf-child i ts x k there out.1)).0, omega arith) y
        lo hi
      ∙ make_room-kept b p stored.fits x k below y lo hi

  head-halved : SameHead b.m_data (halved_buffer b p n i).m_data p
  unfolding Spans
  head-halved =
      SameHead-trans b.m_data (make_room b p).m_data (halved_buffer b p n i).m_data p
        (SameHead-same b.m_data (make_room b p).m_data p
          (make_room-kept b p stored.fits p 96 stored.inside.0))
        (split_child-SameHead (make_room b p) arr p n i es ces ts cts
          (held₁ b arr p n i es ces ts cts stored.fits addressable stored.held stored.tidy
            stored.inside there at full room)
          stored.tidy
          (inside₁ b arr p n i es ces ts cts stored.fits addressable stored.held stored.tidy
            stored.inside there at full room)
          there at full room
          (addressable₁ b arr p n i es ces ts cts stored.fits addressable stored.held stored.tidy
            stored.inside there at full room))

  child_links : 0 < count cts → count cts ≡ 8
  unfolding TreeAt
  child_links more =
      let below : TreeAt b.m_data arr (node n ces cts) =
        subst (TreeAt b.m_data arr) at (TreesAt-child arr b.m_data i ts there stored.held.3) in
      omega (arith, (Links-inner b.m_data n ces cts more below.2).0)

  Even-halved :
      (d : ℕ) → Even d (node p es ts) → Even d (halved p n (align_up b.m_used_size) es ts i ces cts)
  Even-halved d even =
      Even-divide d p i es (insert_at i (nth ces 3) es) ts (lower_half n ces cts)
        (upper_half (align_up b.m_used_size) ces cts) there
        (omega (arith, length-take 3 ces (omega arith))) (omega (arith, length-drop 4 ces))
        (λ c e.
          let was : Even c (node n ces cts) = subst (Even c) at e in
          (
            Even-take c 3 n ces (take 3 ces) cts (λ more. omega (arith, child_links more)) was,
            Even-drop c 4 n (align_up b.m_used_size) ces (drop 4 ces) cts
                (λ more. omega (arith, child_links more)) was,
          ))
        even

  pub Grows-halved :
      Grows b
        (halved_buffer b p n i)
        arr
        (node p es ts)
        (halved p n (align_up b.m_used_size) es ts i ces cts)
  Grows-halved =
      let behind : b.m_used_size ≤ align_up b.m_used_size = omega arith in
      let ends : align_up b.m_used_size + node_size ≤ (halved_buffer b p n i).m_used_size =
        omega (arith, new_used) in
      let s = align_up b.m_used_size in
      let hi = (halved_buffer b p n i).m_used_size in
      let grow =
        Extends-halved arr p n s i b.m_used_size hi es ces ts cts behind ends stored.tidy
          stored.inside there pos at full in
      record {
        stored = record {
          fits = omega (
            arith,
            new_used,
            size-split_child (make_room b p) p n i,
            make_room-fits b p stored.fits,
            make_room-used b p stored.fits,
          );
          held =
              halved-at b arr p n i es ces ts cts stored.fits addressable stored.held stored.tidy
                stored.inside there at full room;
          tidy =
              Tidy-halved arr p n s i b.m_used_size hi es ces ts cts behind ends stored.tidy
                stored.inside there pos at full;
          inside =
              grow (λ x k. x + k ≤ hi)
                (Spans-map (λ x k. x + k ≤ b.m_used_size) (λ x k. x + k ≤ hi) arr
                  (λ x k h. omega arith) (node p es ts) stored.inside)
                (λ x k from to. to);
        };
        same = refl;
        head = head-halved;
        used = omega arith;
        spans = grow;
        off =
            StaysOff-halved arr p n s i b.m_used_size hi es ces ts cts behind ends stored.tidy
              stored.inside there pos at full;
        kept = kept-halved;
        low =
            halved-height b arr p n i es ces ts cts stored.fits addressable stored.held stored.tidy
              stored.inside there at full room;
        even = Even-halved;
        keys = omega (arith, length-insert_at i (nth ces 3) es);
      }
