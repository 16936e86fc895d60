-- ===== src/Hex.antt =====
-- src/utils/hex.cpp: `hex_decode`, and the loops of src/json.cpp that print bytes by `%02x`. A text is
-- the list of its bytes.
pub mod RoundTrip
use Prim.Native.String.{String}
use lite3_cpp.Base.{
  ℕ, ◌+◌, ◌-◌, ◌/◌, ◌%◌, ◌&&◌, Bool, true, false, List, [], ◌∷◌, leb, ltb, ◌==◌, if◌then◌else◌,
  length, bit_or, u8, ◌<<◌,
}
use lite3_cpp.Outcome.{Outcome, ok, throws, ◌>>=◌}

unfoldable pub hex_char_to_int : ℕ → Outcome ℕ
hex_char_to_int c =
    if leb b'0' c && leb c b'9'
    then ok (c - b'0')
    else if leb b'a' c && leb c b'f'
    then ok (c - b'a' + 10)
    else if leb b'A' c && leb c b'F'
    then ok (c - b'A' + 10)
    else throws "Invalid hex character"

-- The loop: two characters make a byte. A single one at the end would be read past the text; the
-- test of the length rules it out.
unfoldable pub decode_pairs : List ℕ → Outcome (List ℕ)
decode_pairs [] = ok []
decode_pairs (c ∷ []) = Outcome.undefined
decode_pairs (c ∷ d ∷ s) = do
  high_nibble ← hex_char_to_int c
  low_nibble ← hex_char_to_int d
  bytes ← decode_pairs s
  ok (u8 (bit_or (high_nibble << 4) low_nibble) ∷ bytes)

unfoldable pub hex_decode : List ℕ → Outcome (List ℕ)
unfolding decode_pairs hex_char_to_int
hex_decode s =
    if length s % 2 == 0 then decode_pairs s else throws "Hex string length must be even."

-- A digit of `%02x`.
unfoldable pub hex_digit : ℕ → ℕ
hex_digit n = if ltb n 10 then b'0' + n else b'a' + (n - 10)

-- src/json.cpp, lines 257 to 262: two digits a byte.
unfoldable pub hex_encode : List ℕ → List ℕ
unfolding hex_digit
hex_encode [] = []
hex_encode (b ∷ bytes) = hex_digit (b / 16) ∷ hex_digit (b % 16) ∷ hex_encode bytes
