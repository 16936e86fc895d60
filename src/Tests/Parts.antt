-- ===== src/Tests/Parts.antt =====
-- The theorems on memory, nodes, entries, hexadecimal texts, the ring, logging and handles, at concrete inputs.
use lite3_cpp.Base.{
  if◌then◌else◌, ℕ, ◌+◌, ◌<◌, ◌≤◌, ◌≡◌, ◌≢◌, ◌⊎◌, inl, inr, refl, Bool, true, false, List, [], ◌∷◌,
  none, some, All, arith, length, ◌==◌,
}
use lite3_cpp.Memory.{Memory, zeros}
use lite3_cpp.Memory.Laws.{SameOutside}
use lite3_cpp.Node.{
  string, object, code, of_code, node_size, set_gen_type, generation, tag, size, key_count,
  get_hash, get_kv_offset, get_child_offset,
}
use lite3_cpp.Node.Fields.{set_gen_type-node}
use lite3_cpp.Outcome.{ok}
use lite3_cpp.Hex.{hex_decode, hex_encode}
use lite3_cpp.Hex.RoundTrip.{IsHex, hex_decode-hex_encode, hex_decode-IsHex, hex_decode_total}
use lite3_cpp.Ring.{ConsistentHash, add_node, remove_node, get_node, owner}
use lite3_cpp.Ring.Order.{IsSorted}
use lite3_cpp.Ring.Contents.{find, is_vnode, without, find-ring}
use lite3_cpp.Ring.Owner.{Serves, get_node-remove_node, get_node-add_node, owner-Serves}
use lite3_cpp.Observability.{LogLevel, warn, error, log_if_enabled, initial}
use lite3_cpp.Observability.Routing.{
  Setting, logger, metrics, threshold, configure, last_logger, last_threshold,
  log_if_enabled-configure,
}
use lite3_cpp.Buffer.State.{new, ensure_capacity}
use lite3_cpp.Buffer.State.Capacity.{IsSound, ensure_capacity-keeps}
use lite3_cpp.Buffer.Entry.{write_key, write_value}
use lite3_cpp.Buffer.Entry.RoundTrip.{KeyAt, ValueAt, write_key-KeyAt, write_value-ValueAt}
use lite3_cpp.Buffer.Insert.{insert_slot}
use lite3_cpp.Buffer.Insert.Slots.{inserted, insert_slot-node}

abbrev storage : Memory
storage = zeros 200

write_key-KeyAt_example : KeyAt (write_key storage 96 (b'a' ∷ []) false) 96 (b'a' ∷ [])
write_key-KeyAt_example = write_key-KeyAt storage 96 (b'a' ∷ []) (omega arith)

write_value-ValueAt_example :
    ValueAt (write_value storage 99 string (7 ∷ 8 ∷ [])) 99 string (7 ∷ 8 ∷ [])
unfolding code
write_value-ValueAt_example =
    write_value-ValueAt storage 99 string (7 ∷ 8 ∷ []) (omega arith) (omega arith)

insert_slot-node_example :
    ((j : ℕ)
      → j ≤ 2
      → (get_hash (insert_slot storage 0 2 1 5 96) 0 j ≡ inserted (get_hash storage 0) 1 5 j)
        × (get_kv_offset (insert_slot storage 0 2 1 5 96) 0 j
            ≡ inserted (get_kv_offset storage 0) 1 96 j))
    × ((j : ℕ)
        → get_child_offset (insert_slot storage 0 2 1 5 96) 0 j ≡ get_child_offset storage 0 j)
    × (key_count (insert_slot storage 0 2 1 5 96) 0 ≡ 3)
    × SameOutside 0 node_size storage (insert_slot storage 0 2 1 5 96)
insert_slot-node_example = insert_slot-node storage 0 2 1 5 96 (omega arith) (omega arith)

new-IsSound : IsSound new
unfolding new zeros
new-IsSound = record { fits = omega arith; zero_tail = λ x h. refl }

ensure_capacity-keeps_example :
    (new.m_used_size + 10 ≤ (ensure_capacity new 10).m_data.size)
    × ((ensure_capacity new 10).m_used_size ≡ new.m_used_size)
    × ((x : ℕ) → x < new.m_data.size → (ensure_capacity new 10).m_data.byte x ≡ new.m_data.byte x)
    × IsSound (ensure_capacity new 10)
ensure_capacity-keeps_example = ensure_capacity-keeps new 10 new-IsSound

two_bytes-All : All (λ b. b < 256) (0xDE ∷ 0xAD ∷ [])
two_bytes-All = (omega arith, (omega arith, tt))

hex_decode-hex_encode_example : hex_decode (hex_encode (0xDE ∷ 0xAD ∷ [])) ≡ ok (0xDE ∷ 0xAD ∷ [])
hex_decode-hex_encode_example = hex_decode-hex_encode (0xDE ∷ 0xAD ∷ []) two_bytes-All

-- `dead`
abbrev dead : List ℕ
dead = b'd' ∷ b'e' ∷ b'a' ∷ b'd' ∷ []

dead-IsHex : All IsHex dead
dead-IsHex = (
  inr (inl (omega arith, omega arith)),
  (
    inr (inl (omega arith, omega arith)),
    (inr (inl (omega arith, omega arith)), (inr (inl (omega arith, omega arith)), tt)),
  ),
)

dead-decoded : hex_decode dead ≡ ok (0xDE ∷ 0xAD ∷ [])
unfolding hex_decode
dead-decoded = refl

hex_decode-IsHex_example :
    (length dead ≡ 4) × All IsHex dead × All (λ b. b < 256) (0xDE ∷ 0xAD ∷ [])
hex_decode-IsHex_example = hex_decode-IsHex dead (0xDE ∷ 0xAD ∷ []) dead-decoded

hex_decode_total_example : (bytes : List ℕ) × (hex_decode dead ≡ ok bytes)
hex_decode_total_example = hex_decode_total 2 dead refl dead-IsHex

-- Two nodes, each with one entry.
abbrev two_nodes : ConsistentHash
two_nodes = record { replicas = 1; ring = (10, 1) ∷ (20, 2) ∷ [] }

two_nodes-IsSorted : IsSorted two_nodes.ring
two_nodes-IsSorted = (omega arith, (omega arith, tt))

find-ring_example :
    (find 20 (add_node two_nodes 2).ring
      ≡ (if is_vnode 20 2 0 1 then some 2 else find 20 two_nodes.ring))
    × (find 20 (remove_node two_nodes 2).ring ≡ without 2 (find 20 two_nodes.ring))
    × IsSorted (add_node two_nodes 2).ring
    × IsSorted (remove_node two_nodes 2).ring
find-ring_example = find-ring two_nodes 2 20 two_nodes-IsSorted

owner-Serves_example : (x : ℕ) × Serves 15 two_nodes.ring x (owner 15 two_nodes.ring)
owner-Serves_example = owner-Serves 15 two_nodes.ring two_nodes-IsSorted (λ e. cc)

-- The hash of the empty key is above both entries.
not_moved : get_node two_nodes [] ≢ 2
unfolding get_node
not_moved e = omega arith

get_node-remove_node_example : get_node (remove_node two_nodes 2) [] ≡ get_node two_nodes []
get_node-remove_node_example = get_node-remove_node two_nodes 2 [] not_moved

get_node-add_node_example :
    (get_node (add_node two_nodes 3) [] ≡ 3)
    ⊎ (get_node (add_node two_nodes 3) [] ≡ get_node two_nodes [])
get_node-add_node_example = get_node-add_node two_nodes 3 [] (λ e. cc)

-- A logger, known by a number, that answers true exactly for number 1.
abbrev answer : ℕ → LogLevel → ℕ → Bool
answer l level event = l == 1

-- Two loggers, the second one under a threshold that is set before it, and metrics.
abbrev settings : List (Setting ℕ ℕ)
settings = logger (some 4) ∷ threshold warn ∷ metrics none ∷ logger (some 1) ∷ []

log_if_enabled-configure_example :
    log_if_enabled answer (configure initial settings) error 9 ≡ (true, some (1, error, 9))
unfolding last_logger last_threshold
log_if_enabled-configure_example = log_if_enabled-configure answer settings error 9

set_gen_type-node_example :
    (generation (set_gen_type storage 96 1 object) 96 ≡ 1)
    × (tag (set_gen_type storage 96 1 object) 96 ≡ object)
    × (key_count (set_gen_type storage 96 1 object) 96 ≡ key_count storage 96)
    × (size (set_gen_type storage 96 1 object) 96 ≡ size storage 96)
    × ((j : ℕ)
        → (get_hash (set_gen_type storage 96 1 object) 96 j ≡ get_hash storage 96 j)
          × (get_kv_offset (set_gen_type storage 96 1 object) 96 j ≡ get_kv_offset storage 96 j)
          × (get_child_offset (set_gen_type storage 96 1 object) 96 j
              ≡ get_child_offset storage 96 j))
unfolding code of_code
set_gen_type-node_example = set_gen_type-node storage 96 1 object (omega arith) (omega arith) refl
