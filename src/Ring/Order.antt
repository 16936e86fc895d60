-- ===== src/Ring/Order.antt =====
-- The entries stay in the strict order of their hashes, which is what makes the list a map.
use lite3_cpp.Base.{ℕ, zero, suc, ◌+◌, ◌≤◌, [], ◌∷◌, arith}
use lite3_cpp.Ring.{
  NodeId, Map, ConsistentHash, assign, add_vnodes, add_node, erase_node, remove_node, vnode_hash,
}

-- All hashes are above `lo`, and grow.
abbrev pub Above : ℕ → Map → Type 0
Above lo [] = Unit
Above lo ((x, m) ∷ r) = (lo ≤ x) × Above (suc x) r

abbrev pub IsSorted : Map → Type 0
IsSorted r = Above 0 r

Above-weaken : (lo lo' : ℕ) (r : Map) → lo' ≤ lo → Above lo r → Above lo' r
Above-weaken lo lo' [] p h = tt
Above-weaken lo lo' ((x, m) ∷ r) p h = (omega arith, h.1)

assign-Above : (lo h : ℕ) (n : NodeId) (r : Map) → lo ≤ h → Above lo r → Above lo (assign h n r)
unfolding assign
assign-Above lo h n [] p s = (p, tt)
assign-Above lo h n ((x, m) ∷ r) p s =
    ground (arith, assign-Above (suc x) h n r, Above-weaken (suc x) (suc h) r)

add_vnodes-Above :
    (n : NodeId) (i left : ℕ) (r : Map) → IsSorted r → IsSorted (add_vnodes n i left r)
unfolding add_vnodes
add_vnodes-Above n i zero r s = s
add_vnodes-Above n i (suc left) r s =
    add_vnodes-Above n (i + 1) left (assign (vnode_hash n i) n r)
      (assign-Above 0 (vnode_hash n i) n r (omega arith) s)

erase_node-Above : (lo : ℕ) (n : NodeId) (r : Map) → Above lo r → Above lo (erase_node n r)
unfolding erase_node
erase_node-Above lo n [] s = tt
erase_node-Above lo n ((x, m) ∷ r) s =
    ground (arith, erase_node-Above (suc x) n r, Above-weaken (suc x) lo (erase_node n r))

-- Adding and removing a node keep the entries of a ring in the strict order of their hashes.
pub ring-IsSorted :
    (c : ConsistentHash) (n : NodeId)
    → IsSorted c.ring
    → IsSorted (add_node c n).ring × IsSorted (remove_node c n).ring
unfolding add_node remove_node
ring-IsSorted c n s = (add_vnodes-Above n 0 c.replicas c.ring s, erase_node-Above 0 n c.ring s)
