-- ===== src/Hash.antt =====
-- src/utils/hash.cpp: `djb2_hash`, and the FNV-1a hash of include/lite3/ring.hpp. A text is the list of
-- its bytes.
use lite3_cpp.Base.{ℕ, ◌+◌, ◌*◌, List, [], ◌∷◌, u32, u64, ◌<<◌, sign_extend, bit_xor}

-- The loop of `djb2_hash` from the hash so far.
unfoldable pub djb2_from : ℕ → List ℕ → ℕ
djb2_from hash [] = hash
djb2_from hash (c ∷ key) = djb2_from (u32 (u32 (u32 (hash << 5) + hash) + sign_extend 32 c)) key

unfoldable pub djb2_hash : List ℕ → ℕ
unfolding djb2_from
djb2_hash key = djb2_from 5381 key

-- The loop of `fnv1a_64` from the hash so far.
unfoldable pub fnv1a_from : ℕ → List ℕ → ℕ
fnv1a_from hash [] = hash
fnv1a_from hash (c ∷ s) = fnv1a_from (u64 (bit_xor hash (sign_extend 64 c) * 1099511628211)) s

unfoldable pub fnv1a_64 : List ℕ → ℕ
unfolding fnv1a_from
fnv1a_64 s = fnv1a_from 14695981039346656037 s
