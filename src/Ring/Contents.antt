-- ===== src/Ring/Contents.antt =====
-- What a ring holds after a node is added or removed.
use lite3_cpp.Base.{
  ℕ, zero, suc, ◌+◌, ◌<◌, ◌≡◌, refl, ◌∙◌, Bool, false, true, [], ◌∷◌, Option, none, some, arith,
  ◌==◌, if◌then◌else◌, Bool-cases, inl, inr,
}
use lite3_cpp.Ring.{
  NodeId, Map, ConsistentHash, assign, add_vnodes, add_node, erase_node, remove_node, vnode_hash,
}
use lite3_cpp.Ring.Order.{Above, IsSorted, ring-IsSorted}

-- The node that the ring has under a hash.
unfoldable pub find : ℕ → Map → Option NodeId
find h [] = none
find h ((x, m) ∷ r) = if x == h then some m else find h r

-- One of the virtual nodes from `i` on, `left` of them, has the hash.
unfoldable pub is_vnode : ℕ → NodeId → ℕ → ℕ → Bool
is_vnode h n i zero = false
is_vnode h n i (suc left) = if vnode_hash n i == h then true else is_vnode h n (i + 1) left

-- Nothing in place of node `n`.
abbrev pub without : NodeId → Option NodeId → Option NodeId
without n none = none
without n (some m) = if m == n then none else some m

find-assign :
    (h g : ℕ) (n : NodeId) (r : Map) → find h (assign g n r) ≡ (if g == h then some n else find h r)
unfolding find assign
find-assign h g n [] = refl
find-assign h g n ((x, m) ∷ r) = ground (arith, find-assign h g n r)

find-add_vnodes :
    (h : ℕ) (n : NodeId) (i left : ℕ) (r : Map)
    → find h (add_vnodes n i left r) ≡ (if is_vnode h n i left then some n else find h r)
unfolding add_vnodes is_vnode
find-add_vnodes h n i zero r = refl
find-add_vnodes h n i (suc left) r =
    find-add_vnodes h n (i + 1) left (assign (vnode_hash n i) n r)
    ∙ rw (find-assign h (vnode_hash n i) n r) (elim (Bool-cases (vnode_hash n i == h)) [
      | inl same ↦ rw same (elim (Bool-cases (is_vnode h n (i + 1) left)) [
        | inl again ↦ rw again refl
        | inr once ↦ rw once refl
      ])
      | inr other ↦ rw other refl
    ])

find-Above : (h lo : ℕ) (r : Map) → h < lo → Above lo r → find h r ≡ none
unfolding find
find-Above h lo [] below s = refl
find-Above h lo ((x, m) ∷ r) below s = ground (arith, find-Above h (suc x) r)

find-erase_node :
    (h lo : ℕ) (n : NodeId) (r : Map) → Above lo r → find h (erase_node n r) ≡ without n (find h r)
unfolding find erase_node
find-erase_node h lo n [] s = refl
find-erase_node h lo n ((x, m) ∷ r) s =
    ground (arith, find-erase_node h (suc x) n r, find-Above h (suc x) r)

-- In a ring in the strict order of its hashes: after a node is added, the ring has the node under
-- the hashes of its virtual nodes, as many as there are replicas, and under every other hash what
-- it had; after a node is removed, it has nothing under the node's hashes and under every other
-- hash what it had; and both rings are in the strict order of their hashes.
pub find-ring :
    (c : ConsistentHash) (n : NodeId) (h : ℕ)
    → IsSorted c.ring
    → (find h (add_node c n).ring ≡ (if is_vnode h n 0 c.replicas then some n else find h c.ring))
      × (find h (remove_node c n).ring ≡ without n (find h c.ring))
      × IsSorted (add_node c n).ring
      × IsSorted (remove_node c n).ring
unfolding add_node remove_node
find-ring c n h s = (
  find-add_vnodes h n 0 c.replicas c.ring,
  find-erase_node h 0 n c.ring s,
  (ring-IsSorted c n s).0,
  (ring-IsSorted c n s).1,
)
