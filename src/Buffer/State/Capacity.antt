-- ===== src/Buffer/State/Capacity.antt =====
-- What `ensure_capacity` and `init_structure` guarantee.
use lite3_cpp.Base.{ℕ, ◌+◌, ◌≡◌, ◌≤◌, ◌<◌, arith}
use lite3_cpp.Memory.{resize}
use lite3_cpp.Buffer.State.{Buffer, grown_size, ensure_capacity}

-- Nothing but zeros lies behind the used bytes.
pub record IsSound (b : Buffer) : Type 0 where
  pub fits : b.m_used_size ≤ b.m_data.size
  pub zero_tail : (x : ℕ) → b.m_used_size ≤ x → b.m_data.byte x ≡ 0

module _ (b : Buffer) (n : ℕ) where
  pub used-ensure_capacity : (ensure_capacity b n).m_used_size ≡ b.m_used_size
  unfolding ensure_capacity
  used-ensure_capacity = ground arith

  -- There is room for `n` more bytes, and no byte of the vector changes.
  pub ensure_capacity-fits : b.m_used_size + n ≤ (ensure_capacity b n).m_data.size
  unfolding ensure_capacity grown_size resize
  ensure_capacity-fits = ground arith

  pub ensure_capacity-grows : b.m_data.size ≤ (ensure_capacity b n).m_data.size
  unfolding ensure_capacity grown_size resize
  ensure_capacity-grows = ground arith

  pub byte-ensure_capacity :
      (x : ℕ) → x < b.m_data.size → (ensure_capacity b n).m_data.byte x ≡ b.m_data.byte x
  unfolding ensure_capacity resize
  byte-ensure_capacity x h = ground arith

  pub ensure_capacity-IsSound : IsSound b → IsSound (ensure_capacity b n)
  unfolding ensure_capacity resize grown_size
  ensure_capacity-IsSound s = record {
    fits = ground arith;
    zero_tail = λ x h. ground (arith, s.zero_tail x);
  }

  -- On a buffer whose used bytes fit its vector and that has zeros behind them,
  -- `ensure_capacity(n)` makes room for `n` more bytes, keeps the used size and every byte of the
  -- vector, and leaves zeros behind the used bytes.
  pub ensure_capacity-keeps :
      IsSound b
      → (b.m_used_size + n ≤ (ensure_capacity b n).m_data.size)
        × ((ensure_capacity b n).m_used_size ≡ b.m_used_size)
        × ((x : ℕ) → x < b.m_data.size → (ensure_capacity b n).m_data.byte x ≡ b.m_data.byte x)
        × IsSound (ensure_capacity b n)
  ensure_capacity-keeps s =
      (ensure_capacity-fits, used-ensure_capacity, byte-ensure_capacity, ensure_capacity-IsSound s)
