-- ===== src/Buffer/Split/Room.antt =====
-- `make_room` keeps a tree.
use lite3_cpp.Base.{ℕ, ◌+◌, ◌-◌, ◌*◌, ◌≤◌, ◌≡◌, refl, Bool, arith, size_max, ◌==◌, if◌then◌else◌}
use lite3_cpp.Memory.Laws.{SameOn}
use lite3_cpp.Node.{node_size}
use lite3_cpp.Buffer.State.{Buffer}
use lite3_cpp.Buffer.State.Capacity.{ensure_capacity-fits, byte-ensure_capacity}
use lite3_cpp.Buffer.Tree.{Tree}
use lite3_cpp.Buffer.Tree.Held.{TreeAt}
use lite3_cpp.Buffer.Tree.Frame.{Spans, Spans-map, Kept, TreeAt-same}
use lite3_cpp.Buffer.Split.{align_up, make_room}

module _ (b : Buffer) (parent : ℕ) (fits : b.m_used_size ≤ b.m_data.size) where
  pub make_room-kept :
      (x n : ℕ) → x + n ≤ b.m_used_size → SameOn x n b.m_data (make_room b parent).m_data
  unfolding make_room
  make_room-kept x n h y p q = byte-ensure_capacity b _ y (omega arith)

  pub make_room-TreeAt :
      (arr : Bool) (t : Tree)
      → Spans (λ x n. x + n ≤ b.m_used_size) arr t
      → TreeAt b.m_data arr t
      → TreeAt (make_room b parent).m_data arr t
  make_room-TreeAt arr t inside = TreeAt-same b.m_data (make_room b parent).m_data arr t (
      Spans-map (λ x n. x + n ≤ b.m_used_size) (Kept b.m_data (make_room b parent).m_data arr) arr
        make_room-kept t inside)

  pub make_room-used : (make_room b parent).m_used_size ≡ align_up b.m_used_size
  unfolding make_room
  make_room-used = refl

  -- There is room for a new node, and for two if the root is split.
  pub make_room-fits :
      (make_room b parent).m_used_size + node_size ≤ (make_room b parent).m_data.size
  unfolding make_room
  make_room-fits =
      let space = if parent == size_max then 2 * node_size else node_size in
      let wide : node_size ≤ space = ground arith in
      omega (
        arith,
        wide,
        ensure_capacity-fits b (space + (align_up b.m_used_size - b.m_used_size) + 128),
      )
