-- ===== src/Buffer/Split/Heads.antt =====
-- Moving the parent's keys keeps its type and size.
use lite3_cpp.Base.{ℕ, zero, suc, ◌+◌, ◌-◌, ◌<◌, refl, arith}
use lite3_cpp.Memory.{Memory}
use lite3_cpp.Node.{get_hash, get_kv_offset, get_child_offset, set_hash, set_kv_offset}
use lite3_cpp.Node.Head.{
  SameHead, SameHead-trans, SameHead-set_hash, SameHead-set_kv_offset, SameHead-set_child_offset,
}
use lite3_cpp.Buffer.Split.{shift_key_up, shift_up}

SameHead-shift_key_up : (m : Memory) (p top : ℕ) → top < 7 → SameHead m (shift_key_up m p top) p
unfolding shift_key_up
SameHead-shift_key_up m p top h =
    let m₁ = set_hash m p top (get_hash m p (top - 1)) in
    let m₂ = set_kv_offset m₁ p top (get_kv_offset m₁ p (top - 1)) in
    SameHead-trans m m₁ (shift_key_up m p top) p
      (SameHead-set_hash m p top (get_hash m p (top - 1)) h)
      (SameHead-trans m₁ m₂ (shift_key_up m p top) p
        (SameHead-set_kv_offset m₁ p top (get_kv_offset m₁ p (top - 1)))
        (SameHead-set_child_offset m₂ p (top + 1) (get_child_offset m₂ p top)))

pub SameHead-shift_up :
    (left i : ℕ) (m : Memory) (p : ℕ) → i + left < 7 → SameHead m (shift_up m p i left) p
unfolding shift_up
SameHead-shift_up zero i m p h = (refl, refl)
SameHead-shift_up (suc left) i m p h =
    let m₁ = shift_key_up m p (i + suc left) in
    SameHead-trans m m₁ (shift_up m₁ p i left) p (SameHead-shift_key_up m p (i + suc left) h)
      (SameHead-shift_up left i m₁ p (omega arith))
