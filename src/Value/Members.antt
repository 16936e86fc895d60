-- ===== src/Value/Members.antt =====
-- Assignments through a handle of a member of an object of fewer than 4^8 - 1 members.
use lite3_cpp.Base.{ℕ, ◌+◌, ◌*◌, ◌^◌, ◌<◌, ◌≡◌, false, List, [], length}
use lite3_cpp.Outcome.{Outcome, ok, ◌>>=◌}
use lite3_cpp.Hash.{djb2_hash}
use lite3_cpp.Buffer.State.{Buffer}
use lite3_cpp.Buffer.Search.Table.{Entry}
use lite3_cpp.Buffer.Tree.PutIn.{HashFree}
use lite3_cpp.Buffer.Map.{IsMap}
use lite3_cpp.Buffer.Object.{set_str, get_str}
use lite3_cpp.Buffer.Object.Types.{set-get_texts}
use lite3_cpp.Value.{Value, is_empty, to_str, assign_str}
use lite3_cpp.Value.Assign.{caught-ok}

-- A call that returns, and the call on what it returns.
then-ok :
    {A : Type 0} (r : Outcome Buffer) (f : Buffer → Outcome A) (b : Buffer) (x : A)
    → r ≡ ok b
    → f b ≡ ok x
    → (r >>= f) ≡ ok x
then-ok r f b x h k = rw h k

module _ (v : Value) (b : Buffer) (es : List Entry) (h : ℕ)
    (map : IsMap b false v.m_parent_ofs es h) (keyed : is_empty v.m_key ≡ false)
    (no_element : v.m_is_array_element ≡ false) (small : length v.m_key < 63)
    (free : HashFree (djb2_hash v.m_key) es) (few : length es + 1 < 4 ^ 8) (val : List ℕ)
    (space : b.m_used_size + 99 * (h + 2) + length v.m_key + length val + 14 < 2 ^ 32) where
  -- At a handle of a member that is no array element, whose parent is an object of fewer than 4^8 -
  -- 1 members (`IsMap`), none of which has the hash of its key, the key not empty and of fewer than
  -- 63 characters, in a buffer with room for the entry and 99 bytes for every level of the tree and
  -- two more below 2^32: assigning a string returns, and the handle's cast to a string then returns
  -- it.
  pub to_str-assign_str_any : (do b' ← assign_str v b val; to_str v b') ≡ ok val
  unfolding assign_str to_str
  to_str-assign_str_any =
      let (b', returned, there, others) =
        (set-get_texts b v.m_parent_ofs es h map v.m_key small free few val space).0 in
      rw (keyed, no_element)
        (caught-ok (set_str b v.m_parent_ofs v.m_key val) (λ b'. get_str b' v.m_parent_ofs v.m_key)
          val []
          (then-ok (set_str b v.m_parent_ofs v.m_key val) (λ b'. get_str b' v.m_parent_ofs v.m_key)
            b' val returned there))
