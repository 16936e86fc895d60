-- ===== src/Buffer/Compare.antt =====
-- `compare_node_key` (src/buffer.cpp, lines 14 to 40): the order of a stored key and a sought one, by
-- hash first and by text where the hashes are equal.
pub mod Order
use Prim.Native.Nat.{compare, Ordering}
use lite3_cpp.Base.{
  ℕ, ◌+◌, ◌-◌, ◌^◌, Bool, true, false, List, [], ◌∷◌, ltb, ◌==◌, if◌then◌else◌, u32, ◌>>>◌,
}
use lite3_cpp.Memory.{Memory}
use lite3_cpp.Node.{get_hash, get_kv_offset}

-- `existing.compare(key)` for a view of the `n` bytes at `a`: bytes from the left, then lengths.
unfoldable pub compare_text : Memory → ℕ → ℕ → List ℕ → Ordering
compare_text m a n [] = if n == 0 then Ordering.eq else Ordering.gt
compare_text m a n (c ∷ key) =
    if n == 0
    then Ordering.lt
    else if ltb (m.byte a) c
    then Ordering.lt
    else if ltb c (m.byte a)
    then Ordering.gt
    else compare_text m (a + 1) (n - 1) key

-- `klen - 1` is a `uint32_t` before it becomes a `size_t`.
unfoldable pub compare_node_key : Memory → ℕ → ℕ → ℕ → List ℕ → Bool → Ordering
unfolding compare_text
compare_node_key base node idx hash key is_arr =
    let nh = get_hash base node idx in
    let vo = get_kv_offset base node idx in
    let klen = base.byte vo >>> 2 in
    let ksz = u32 (klen + 2 ^ 32 - 1) in
    if ltb nh hash
    then Ordering.lt
    else if ltb hash nh
    then Ordering.gt
    else if is_arr
    then Ordering.eq
    else compare_text base (vo + 1) ksz key
