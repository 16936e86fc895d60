-- ===== src/Ring/Owner.antt =====
-- Who owns a hash, and how little a change of the ring moves.
use lite3_cpp.Base.{
  ℕ, zero, suc, ◌+◌, ◌<◌, ◌≤◌, ◌≡◌, ◌≢◌, refl, ◌∙◌, ap, ◌⊎◌, inl, inr, List, [], ◌∷◌, none, some,
  arith, ltb, Bool-cases, Option-cases,
}
use lite3_cpp.Ring.{
  NodeId, Map, ConsistentHash, assign, add_vnodes, add_node, erase_node, remove_node, vnode_hash,
  lower_bound, first, node_of, owner, get_node,
}
use lite3_cpp.Ring.Order.{Above, IsSorted}

-- An entry of the ring.
abbrev pub In : ℕ → NodeId → Map → Type 0
In h n [] = ⊥
In h n ((x, m) ∷ r) = ((x ≡ h) × (m ≡ n)) ⊎ In h n r

-- Entry `(x, n)` is the first one at or behind `h`, or the first of all if none is behind `h`.
pub record Serves (h : ℕ) (r : Map) (x : ℕ) (n : NodeId) : Type 0 where
  pub there : In x n r
  pub least :
      ((h ≤ x) × ((y : ℕ) (m : NodeId) → In y m r → h ≤ y → x ≤ y))
      ⊎ (((y : ℕ) (m : NodeId) → In y m r → y < h) × ((y : ℕ) (m : NodeId) → In y m r → x ≤ y))

In-Above : (lo y : ℕ) (m : NodeId) (r : Map) → Above lo r → In y m r → lo ≤ y
In-Above lo y m [] s h = absurd h
In-Above lo y m ((x, k) ∷ r) s (inl e) = omega arith
In-Above lo y m ((x, k) ∷ r) s (inr t) = omega (arith, In-Above (suc x) y m r s.1 t)

lower_bound-some :
    (lo h : ℕ) (r : Map) (x : ℕ) (n : NodeId)
    → Above lo r
    → lower_bound h r ≡ some (x, n)
    → In x n r × (h ≤ x) × ((y : ℕ) (m : NodeId) → In y m r → h ≤ y → x ≤ y)
unfolding lower_bound
lower_bound-some lo h [] x n s e = absurd (cc)
lower_bound-some lo h ((z, k) ∷ r) x n s e = elim (Bool-cases (ltb z h)) [
  | inl below ↦
      let ih = lower_bound-some (suc z) h r x n s.1 (ground arith) in
      (
        inr ih.0,
        ih.1,
        λ y m t le. elim t [ inl here ↦ absurd (ground arith) | inr later ↦ ih.2 y m later le ],
      )
  | inr at ↦
      let same : (z ≡ x) × (k ≡ n) = ground arith in
      (
        inl same,
        ground arith,
        λ y m t le. elim t [
          | inl here ↦ omega arith
          | inr later ↦ omega (arith, In-Above (suc z) y m r s.1 later)
        ],
      )
]

lower_bound-none :
    (h : ℕ) (r : Map) → lower_bound h r ≡ none → (y : ℕ) (m : NodeId) → In y m r → y < h
unfolding lower_bound
lower_bound-none h [] e y m t = absurd t
lower_bound-none h ((z, k) ∷ r) e y m (inl t) = ground arith
lower_bound-none h ((z, k) ∷ r) e y m (inr t) = lower_bound-none h r (ground arith) y m t

lower_bound-erase_none :
    (h : ℕ) (n : NodeId) (r : Map) → lower_bound h r ≡ none → lower_bound h (erase_node n r) ≡ none
unfolding lower_bound erase_node
lower_bound-erase_none h n [] e = refl
lower_bound-erase_none h n ((x, m) ∷ r) e = ground (arith, lower_bound-erase_none h n r)

lower_bound-erase_some :
    (h : ℕ) (n : NodeId) (r : Map) (x : ℕ) (m : NodeId)
    → lower_bound h r ≡ some (x, m)
    → m ≢ n
    → lower_bound h (erase_node n r) ≡ some (x, m)
unfolding lower_bound erase_node
lower_bound-erase_some h n [] x m e ne = cc
lower_bound-erase_some h n ((y, k) ∷ r) x m e ne = ground (arith, lower_bound-erase_some h n r x m)

first-erase : (n : NodeId) (r : Map) → node_of (first r) ≢ n → first (erase_node n r) ≡ first r
unfolding erase_node
first-erase n [] ne = refl
first-erase n ((x, m) ∷ r) ne = ground arith

owner-erase : (h : ℕ) (n : NodeId) (r : Map) → owner h r ≢ n → owner h (erase_node n r) ≡ owner h r
unfolding owner
owner-erase h n r ne = elim (Option-cases (lower_bound h r)) [
  | inl e ↦ rw (e, lower_bound-erase_none h n r e) (ap node_of (first-erase n r (rw e at ne)))
  | inr ((x, m), e) ↦ rw (e, lower_bound-erase_some h n r x m e (rw e at ne))
]

-- Removing a node changes the owner of no key that the node did not own.
pub get_node-remove_node :
    (c : ConsistentHash) (n : NodeId) (key : List ℕ)
    → get_node c key ≢ n
    → get_node (remove_node c n) key ≡ get_node c key
unfolding get_node remove_node
get_node-remove_node c n key ne = owner-erase _ n c.ring ne

first-least :
    (r : Map) (x : ℕ) (n : NodeId) (lo : ℕ)
    → Above lo ((x, n) ∷ r)
    → (y : ℕ) (m : NodeId) → In y m ((x, n) ∷ r)
    → x ≤ y
first-least r x n lo s y m (inl here) = omega arith
first-least r x n lo s y m (inr later) = omega (arith, In-Above (suc x) y m r s.1 later)

first-Serves :
    (h : ℕ) (e : ℕ × NodeId) (r : Map)
    → IsSorted (e ∷ r)
    → lower_bound h (e ∷ r) ≡ none
    → Serves h (e ∷ r) e.0 e.1
first-Serves h (x, n) r s out = record {
  there = inl (refl, refl);
  least = inr (lower_bound-none h ((x, n) ∷ r) out, first-least r x n 0 s);
}

-- In a ring in the order of its hashes that is not empty, the owner of a hash is the node of the
-- first entry at or behind the hash, or of the first entry of all if every entry is below it.
pub owner-Serves : (h : ℕ) (r : Map) → IsSorted r → r ≢ [] → (x : ℕ) × Serves h r x (owner h r)
unfolding owner
owner-Serves h [] s ne = absurd (ne refl)
owner-Serves h (e ∷ r) s ne = elim (Option-cases (lower_bound h (e ∷ r))) [
  | inl out ↦ (e.0, rw out (first-Serves h e r s out))
  | inr ((x, n), found) ↦
      let at = lower_bound-some 0 h (e ∷ r) x n s found in
      (x, rw found (record { there = at.0; least = inl (at.1, at.2) }))
]

-- Putting one entry in gives its hash range to the new node and moves nothing else.
lower_bound-assign :
    (h g : ℕ) (n : NodeId) (r : Map)
    → (lower_bound h (assign g n r) ≡ some (g, n))
      ⊎ (lower_bound h (assign g n r) ≡ lower_bound h r)
unfolding lower_bound assign
lower_bound-assign h g n [] = ground arith
lower_bound-assign h g n ((x, m) ∷ r) = ground (arith, lower_bound-assign h g n r)

first-assign :
    (g : ℕ) (n : NodeId) (r : Map)
    → r ≢ []
    → (node_of (first (assign g n r)) ≡ n) ⊎ (node_of (first (assign g n r)) ≡ node_of (first r))
unfolding assign
first-assign g n [] ne = absurd (ne refl)
first-assign g n ((x, m) ∷ r) ne = ground arith

assign-ne_nil : (g : ℕ) (n : NodeId) (r : Map) → assign g n r ≢ []
unfolding assign
assign-ne_nil g n [] e = cc
assign-ne_nil g n ((x, m) ∷ r) e = ground arith

owner-assign :
    (h g : ℕ) (n : NodeId) (r : Map)
    → r ≢ []
    → (owner h (assign g n r) ≡ n) ⊎ (owner h (assign g n r) ≡ owner h r)
unfolding owner
owner-assign h g n r ne = ground (arith, lower_bound-assign h g n r, first-assign g n r ne)

owner-add_vnodes :
    (h : ℕ) (n : NodeId) (i left : ℕ) (r : Map)
    → r ≢ []
    → (owner h (add_vnodes n i left r) ≡ n) ⊎ (owner h (add_vnodes n i left r) ≡ owner h r)
unfolding add_vnodes
owner-add_vnodes h n i zero r ne = inr refl
owner-add_vnodes h n i (suc left) r ne =
    let r' = assign (vnode_hash n i) n r in
    let rest = owner-add_vnodes h n (i + 1) left r' (assign-ne_nil (vnode_hash n i) n r) in
    elim rest [
      | inl new ↦ inl new
      | inr old ↦ elim (owner-assign h (vnode_hash n i) n r ne) [
        | inl new ↦ inl (old ∙ new)
        | inr same ↦ inr (old ∙ same)
      ]
    ]

-- After a node is added to a ring that is not empty, each key is owned by the new node or by its
-- owner of before.
pub get_node-add_node :
    (c : ConsistentHash) (n : NodeId) (key : List ℕ)
    → c.ring ≢ []
    → (get_node (add_node c n) key ≡ n) ⊎ (get_node (add_node c n) key ≡ get_node c key)
unfolding get_node add_node
get_node-add_node c n key ne = owner-add_vnodes _ n 0 c.replicas c.ring ne
