-- ===== src/Ring.antt =====
-- include/lite3/ring.hpp: the consistent-hash ring. The `std::map` from hashes to nodes is the list of
-- its entries in the order of the hashes.
pub mod Order
pub mod Owner
pub mod Contents
use lite3_cpp.Base.{
  ℕ, zero, suc, ◌+◌, ◌-◌, ◌/◌, ◌%◌, Bool, List, [], ◌∷◌, ◌++◌, Option, none, some, ltb, leb, ◌==◌,
  if◌then◌else◌, length,
}
use lite3_cpp.Hash.{fnv1a_64}

abbrev pub NodeId : Type 0
NodeId = ℕ

abbrev pub Map : Type 0
Map = List (ℕ × NodeId)

pub record ConsistentHash : Type 0 where
  pub replicas : ℕ
  pub ring : Map

-- `std::to_string` of an unsigned number; a number has no more digits than `fuel`.
unfoldable pub digits : ℕ → ℕ → List ℕ
digits zero n = []
digits (suc fuel) n =
    let rest = digits fuel (n / 10) in
    if ltb n 10 then (b'0' + n) ∷ [] else rest ++ ((b'0' + n % 10) ∷ [])

unfoldable pub to_string : ℕ → List ℕ
unfolding digits
to_string n = digits (n + 1) n

-- `ring_[hash] = node_id`
unfoldable pub assign : ℕ → NodeId → Map → Map
assign h n [] = (h, n) ∷ []
assign h n ((x, m) ∷ r) =
    if ltb h x then (h, n) ∷ (x, m) ∷ r else if h == x then (h, n) ∷ r else (x, m) ∷ assign h n r

-- The hash of virtual node `i`.
unfoldable pub vnode_hash : NodeId → ℕ → ℕ
unfolding to_string fnv1a_64
vnode_hash node_id i = fnv1a_64 (to_string node_id ++ (b':' ∷ to_string i))

-- The loop of `add_node` from `i` on, with `left` rounds to go.
unfoldable pub add_vnodes : NodeId → ℕ → ℕ → Map → Map
unfolding assign vnode_hash
add_vnodes node_id i zero r = r
add_vnodes node_id i (suc left) r =
    add_vnodes node_id (i + 1) left (assign (vnode_hash node_id i) node_id r)

unfoldable pub add_node : ConsistentHash → NodeId → ConsistentHash
unfolding add_vnodes
add_node c node_id = record c { ring = add_vnodes node_id 0 c.replicas c.ring }

-- The loop of `remove_node`.
unfoldable pub erase_node : NodeId → Map → Map
erase_node node_id [] = []
erase_node node_id ((x, m) ∷ r) =
    if m == node_id then erase_node node_id r else (x, m) ∷ erase_node node_id r

unfoldable pub remove_node : ConsistentHash → NodeId → ConsistentHash
unfolding erase_node
remove_node c node_id = record c { ring = erase_node node_id c.ring }

-- `ring_.lower_bound(h)`: the first entry whose hash is not below `h`.
unfoldable pub lower_bound : ℕ → Map → Option (ℕ × NodeId)
lower_bound h [] = none
lower_bound h ((x, m) ∷ r) = if ltb x h then lower_bound h r else some (x, m)

-- `ring_.begin()`
abbrev pub first : Map → Option (ℕ × NodeId)
first [] = none
first (e ∷ r) = some e

-- The node of an entry, and 0 for none.
abbrev pub node_of : Option (ℕ × NodeId) → NodeId
node_of none = 0
node_of (some (x, m)) = m

abbrev pub or_first : Option (ℕ × NodeId) → Map → NodeId
or_first none r = node_of (first r)
or_first (some (x, m)) r = m

-- The node that owns hash `h`: clockwise, round the end.
unfoldable pub owner : ℕ → Map → NodeId
unfolding lower_bound
owner h r = or_first (lower_bound h r) r

unfoldable pub get_node : ConsistentHash → List ℕ → NodeId
unfolding owner fnv1a_64
get_node c key = owner (fnv1a_64 key) c.ring

unfoldable pub is_owner : ConsistentHash → List ℕ → NodeId → Bool
unfolding get_node
is_owner c key self_id = get_node c key == self_id

unfoldable pub size : ConsistentHash → ℕ
size c = length c.ring
