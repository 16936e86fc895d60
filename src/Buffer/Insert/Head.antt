-- ===== src/Buffer/Insert/Head.antt =====
-- Putting a key into a node keeps the node's type and size.
use lite3_cpp.Base.{ℕ, zero, suc, ◌+◌, ◌-◌, ◌<◌, ◌≤◌, refl, arith}
use lite3_cpp.Memory.{Memory}
use lite3_cpp.Node.{get_hash, get_kv_offset, set_hash, set_kv_offset}
use lite3_cpp.Node.Head.{
  SameHead, SameHead-trans, SameHead-set_hash, SameHead-set_kv_offset, SameHead-set_key_count,
}
use lite3_cpp.Base.{u32}
use lite3_cpp.Buffer.Insert.{move_key, shift_keys, insert_slot}

SameHead-move_key : (m : Memory) (p top : ℕ) → top < 7 → SameHead m (move_key m p top) p
unfolding move_key
SameHead-move_key m p top h =
    let m₁ = set_hash m p top (get_hash m p (top - 1)) in
    SameHead-trans m m₁ (move_key m p top) p (SameHead-set_hash m p top (get_hash m p (top - 1)) h)
      (SameHead-set_kv_offset m₁ p top (get_kv_offset m₁ p (top - 1)))

SameHead-shift_keys :
    (left i : ℕ) (m : Memory) (p : ℕ) → i + left < 7 → SameHead m (shift_keys m p i left) p
unfolding shift_keys
SameHead-shift_keys zero i m p h = (refl, refl)
SameHead-shift_keys (suc left) i m p h =
    let m₁ = move_key m p (i + suc left) in
    SameHead-trans m m₁ (shift_keys m₁ p i left) p (SameHead-move_key m p (i + suc left) h)
      (SameHead-shift_keys left i m₁ p (omega arith))

pub SameHead-insert_slot :
    (m : Memory) (p count i hash start : ℕ)
    → count < 7
    → i ≤ count
    → SameHead m (insert_slot m p count i hash start) p
unfolding insert_slot
SameHead-insert_slot m p count i hash start room pos =
    let m₁ = shift_keys m p i (count - i) in
    let m₂ = set_hash m₁ p i hash in
    let m₃ = set_kv_offset m₂ p i (u32 start) in
    SameHead-trans m m₁ (insert_slot m p count i hash start) p
      (SameHead-shift_keys (count - i) i m p (omega arith))
      (SameHead-trans m₁ m₂ (insert_slot m p count i hash start) p
        (SameHead-set_hash m₁ p i hash (omega arith))
        (SameHead-trans m₂ m₃ (insert_slot m p count i hash start) p
          (SameHead-set_kv_offset m₂ p i (u32 start)) (SameHead-set_key_count m₃ p (count + 1))))
