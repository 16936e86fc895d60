-- ===== src/Hex/RoundTrip.antt =====
-- Printing and decoding are inverse, and what `hex_decode` accepts.
use lite3_cpp.Base.{
  ℕ, ◌+◌, ◌-◌, ◌*◌, ◌/◌, ◌%◌, ◌^◌, ◌<◌, ◌≤◌, ◌≡◌, refl, true, List, [], ◌∷◌, arith, All, length,
  bit_or, u8, ◌==◌, inl, inr, ◌⊎◌,
}
use lite3_cpp.Base.Bits.{bit_or_sum}
use lite3_cpp.Outcome.{ok, >>=-eq-ok}
use lite3_cpp.Hex.{hex_char_to_int, decode_pairs, hex_decode, hex_digit, hex_encode}

-- A hexadecimal digit.
abbrev pub IsHex : ℕ → Type 0
IsHex c = ((b'0' ≤ c) × (c ≤ b'9')) ⊎ (((b'a' ≤ c) × (c ≤ b'f')) ⊎ ((b'A' ≤ c) × (c ≤ b'F')))

digit_back : (n : ℕ) → n < 16 → hex_char_to_int (hex_digit n) ≡ ok n
unfolding hex_char_to_int hex_digit
digit_back n h = ground arith

join_nibbles : (b : ℕ) → b < 256 → u8 (bit_or (b / 16 * 2 ^ 4) (b % 16)) ≡ b
join_nibbles b h = omega (arith, bit_or_sum 4 (b / 16) (b % 16) (omega arith))

decode_pairs-encode :
    (bytes : List ℕ) → All (λ b. b < 256) bytes → decode_pairs (hex_encode bytes) ≡ ok bytes
unfolding decode_pairs hex_encode
decode_pairs-encode [] h = refl
decode_pairs-encode (b ∷ bytes) h = rw (
  digit_back (b / 16) (omega (arith, h.0)),
  digit_back (b % 16) (omega arith),
  decode_pairs-encode bytes h.1,
  join_nibbles b h.0,
)

even_length : (bytes : List ℕ) → length (hex_encode bytes) ≡ 2 * length bytes
unfolding hex_encode
even_length [] = refl
even_length (b ∷ bytes) = omega (arith, even_length bytes)

-- The digits that `to_json` prints for a list of bytes decode to these bytes.
pub hex_decode-hex_encode :
    (bytes : List ℕ) → All (λ b. b < 256) bytes → hex_decode (hex_encode bytes) ≡ ok bytes
unfolding hex_decode
hex_decode-hex_encode bytes h =
    let even : (length (hex_encode bytes) % 2 == 0) ≡ true = ground (arith, even_length bytes) in
    rw even (decode_pairs-encode bytes h)

-- A character is decoded exactly when it is a hexadecimal digit, and then to a nibble.
char_decoded : (c n : ℕ) → hex_char_to_int c ≡ ok n → IsHex c × (n < 16)
unfolding hex_char_to_int
char_decoded c n h = ground arith

-- The two characters of a byte, and the rest.
pair_decoded :
    (c d : ℕ) (s bytes : List ℕ)
    → decode_pairs (c ∷ d ∷ s) ≡ ok bytes
    → IsHex c
      × IsHex d
      × ((rest : List ℕ) × (decode_pairs s ≡ ok rest) × ((b : ℕ) × (b < 256) × (bytes ≡ b ∷ rest)))
unfolding decode_pairs
pair_decoded c d s bytes h =
    let (x, hx, h₁) = >>=-eq-ok _ bytes (hex_char_to_int c) h in
    let (y, hy, h₂) = >>=-eq-ok _ bytes (hex_char_to_int d) h₁ in
    let (rest, hr, h₃) = >>=-eq-ok _ bytes (decode_pairs s) h₂ in
    (
      (char_decoded c x hx).0,
      (char_decoded d y hy).0,
      (rest, hr, (u8 (bit_or (x * 2 ^ 4) y), omega arith, cc)),
    )

decoded :
    (s bytes : List ℕ)
    → decode_pairs s ≡ ok bytes
    → (length s ≡ 2 * length bytes) × All IsHex s × All (λ b. b < 256) bytes
decoded [] bytes h = let e : bytes ≡ [] = unfold decode_pairs in cc in rw e (refl, tt, tt)
decoded (c ∷ []) bytes h = absurd (unfold decode_pairs in cc)
decoded (c ∷ d ∷ s) bytes h =
    let (hc, hd, (rest, hr, (b, fits, e))) = pair_decoded c d s bytes h in
    let (len, digits, bytes_fit) = decoded s rest hr in
    rw e (omega arith, (hc, (hd, digits)), (fits, bytes_fit))

-- A text that `hex_decode` decodes has two characters for each byte, all of them hexadecimal
-- digits, and what it decodes to are bytes.
pub hex_decode-IsHex :
    (s bytes : List ℕ)
    → hex_decode s ≡ ok bytes
    → (length s ≡ 2 * length bytes) × All IsHex s × All (λ b. b < 256) bytes
hex_decode-IsHex s bytes h = decoded s bytes (unfold hex_decode in ground arith)

char_total : (c : ℕ) → IsHex c → (n : ℕ) × (hex_char_to_int c ≡ ok n)
unfolding hex_char_to_int
char_total c (inl h) = (c - b'0', ground arith)
char_total c (inr (inl h)) = (c - b'a' + 10, ground arith)
char_total c (inr (inr h)) = (c - b'A' + 10, ground arith)

pairs_total :
    (n : ℕ) (s : List ℕ)
    → length s ≡ 2 * n
    → All IsHex s
    → (bytes : List ℕ) × (decode_pairs s ≡ ok bytes)
unfolding decode_pairs
pairs_total n [] e h = ([], refl)
pairs_total n (c ∷ []) e h = absurd (omega arith)
pairs_total n (c ∷ d ∷ s) e h =
    let (x, hx) = char_total c h.0 in
    let (y, hy) = char_total d h.1.0 in
    let (rest, hr) = pairs_total (n - 1) s (omega arith) h.1.1 in
    (u8 (bit_or (x * 2 ^ 4) y) ∷ rest, rw (hx, hy, hr))

-- `hex_decode` decodes every text of an even number of hexadecimal digits.
pub hex_decode_total :
    (n : ℕ) (s : List ℕ)
    → length s ≡ 2 * n
    → All IsHex s
    → (bytes : List ℕ) × (hex_decode s ≡ ok bytes)
hex_decode_total n s e h =
    let (bytes, hb) = pairs_total n s e h in
    (
      bytes,
      unfold hex_decode in (let even : (length s % 2 == 0) ≡ true = ground arith in rw even hb),
    )
