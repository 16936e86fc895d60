-- ===== src/Buffer/Entry/RoundTrip.antt =====
-- What `write_key` and `write_value` leave in memory, and that it is read back.
use lite3_cpp.Base.{
  ℕ, ◌+◌, ◌*◌, ◌^◌, ◌<◌, ◌≡◌, refl, ◌∙◌, inl, List, arith, length, u8, u32, Bool, true, false,
  if◌then◌else◌,
}
use lite3_cpp.Memory.{Memory, store8, store32, store_bytes, load32}
use lite3_cpp.Memory.Laws.{SameOutside, load32-store32}
use lite3_cpp.Memory.Frame.{
  load32-outside, store8-outside, store32-outside, store_bytes-outside, byte-store8, TextAt,
  TextAt-same, store_bytes-text,
}
use lite3_cpp.Node.{Tag, bytes, string, code}
use lite3_cpp.Buffer.Entry.{has_length, value_len, write_key, write_value}

-- A key is stored at `kv`: the length with the null in the upper six bits of a byte, and the text.
pub record KeyAt (m : Memory) (kv : ℕ) (key : List ℕ) : Type 0 where
  pub length_byte : m.byte kv ≡ (length key + 1) * 4
  pub text : TextAt m (kv + 1) key

-- A value is stored at `vo`: its type, its length if the type has one, and its data.
pub record ValueAt (m : Memory) (vo : ℕ) (t : Tag) (val : List ℕ) : Type 0 where
  pub type_byte : m.byte vo ≡ code t
  pub length_word : has_length t ≡ true → load32 m (vo + 1) ≡ length val
  pub text : TextAt m (if has_length t then vo + 1 + 4 else vo + 1) val

module _ (m : Memory) (start : ℕ) (key : List ℕ) where
  pub write_key-outside :
      (is_append : Bool) → SameOutside start (length key + 2) m (write_key m start key is_append)
  unfolding write_key
  write_key-outside true x h = refl
  write_key-outside false x h =
      let m₁ = store8 m start (u8 ((length key + 1) * 2 ^ 2)) in
      let m₂ = store_bytes m₁ (start + 1) key in
      store8-outside m₂ (start + 1 + length key) 0 x (omega arith)
      ∙ store_bytes-outside m₁ (start + 1) key x (omega arith)
      ∙ store8-outside m start _ x (omega arith)

  -- A key of fewer than 63 characters that `write_key` writes lies at its address: the length with
  -- the null in the upper six bits of the tag, and the text behind it.
  pub write_key-KeyAt : length key < 63 → KeyAt (write_key m start key false) start key
  unfolding write_key
  write_key-KeyAt h =
      let m₁ = store8 m start (u8 ((length key + 1) * 2 ^ 2)) in
      let m₂ = store_bytes m₁ (start + 1) key in
      let m₃ = store8 m₂ (start + 1 + length key) 0 in
      let last = store8-outside m₂ (start + 1 + length key) 0 in
      record {
        length_byte =
            last start (omega arith)
            ∙ store_bytes-outside m₁ (start + 1) key start (omega arith)
            ∙ byte-store8 m start _
            ∙ omega arith;
        text =
            TextAt-same m₂ m₃ (start + 1) key (λ x p q. last x (omega arith))
              (store_bytes-text m₁ (start + 1) key);
      }

module _ (m : Memory) (vo : ℕ) (val : List ℕ) where
  -- A value whose type has a length: the word, the data and what may follow.
  sized : Memory
  sized = store_bytes (store32 m vo (u32 (length val))) (vo + 4) val

  sized-outside : SameOutside vo (4 + length val) m sized
  unfolding sized
  sized-outside x h =
      store_bytes-outside (store32 m vo (u32 (length val))) (vo + 4) val x (omega arith)
      ∙ store32-outside m vo _ x (omega arith)

  sized-length : length val < 2 ^ 32 → load32 sized vo ≡ length val
  unfolding sized
  sized-length h =
      let m₁ = store32 m vo (u32 (length val)) in
      load32-outside (vo + 4) (length val) vo m₁ sized (inl (omega arith))
        (store_bytes-outside m₁ (vo + 4) val)
      ∙ load32-store32 m vo _
      ∙ omega arith

  sized-text : TextAt sized (vo + 4) val
  unfolding sized
  sized-text = store_bytes-text (store32 m vo (u32 (length val))) (vo + 4) val

  -- The same behind a null.
  null_after : Memory
  null_after = store8 sized (vo + 4 + length val) 0

  null_after-outside : SameOutside vo (5 + length val) m null_after
  unfolding null_after
  null_after-outside x h =
      store8-outside sized (vo + 4 + length val) 0 x (omega arith) ∙ sized-outside x (omega arith)

  null_after-length : length val < 2 ^ 32 → load32 null_after vo ≡ length val
  unfolding null_after
  null_after-length h =
      load32-outside (vo + 4 + length val) 1 vo sized null_after (inl (omega arith))
        (store8-outside sized (vo + 4 + length val) 0)
      ∙ sized-length h

  null_after-text : TextAt null_after (vo + 4) val
  unfolding null_after
  null_after-text =
      TextAt-same sized null_after (vo + 4) val
        (λ x p q. store8-outside sized (vo + 4 + length val) 0 x (omega arith)) sized-text

  plain-outside : SameOutside vo (length val) m (store_bytes m vo val)
  plain-outside = store_bytes-outside m vo val

-- The type byte and what follows it.
module _ (m : Memory) (vo c n : ℕ) (f : Memory → Memory)
    (out : (m' : Memory) → SameOutside (vo + 1) n m' (f m')) where
  typed-outside : (len : ℕ) → len ≡ n + 1 → SameOutside vo len m (f (store8 m vo c))
  typed-outside len e x h =
      out (store8 m vo c) x (omega arith) ∙ store8-outside m vo c x (omega arith)

  typed-byte : c < 256 → (f (store8 m vo c)).byte vo ≡ c
  typed-byte h = out (store8 m vo c) vo (omega arith) ∙ byte-store8 m vo c ∙ omega arith

-- `write_value` writes no more than the length that was reckoned for it.
pub write_value-outside :
    (m : Memory) (vo : ℕ) (t : Tag) (val : List ℕ)
    → SameOutside vo (value_len t (length val)) m (write_value m vo t val)
unfolding write_value value_len null_after sized code
write_value-outside m vo string val =
    typed-outside m vo 5 (5 + length val) (λ m'. null_after m' (vo + 1) val)
      (λ m'. null_after-outside m' (vo + 1) val) _ (omega arith)
write_value-outside m vo bytes val =
    typed-outside m vo 4 (4 + length val) (λ m'. sized m' (vo + 1) val)
      (λ m'. sized-outside m' (vo + 1) val) _ (omega arith)
write_value-outside m vo t val =
    typed-outside m vo (code t) (length val) (λ m'. store_bytes m' (vo + 1) val)
      (λ m'. plain-outside m' (vo + 1) val) _ (omega arith)

-- A value of a type whose number fits a byte and of fewer than 2^32 bytes that `write_value` writes
-- lies at its address: the type's byte, the length as a word for strings and byte strings, and the
-- data.
pub write_value-ValueAt :
    (m : Memory) (vo : ℕ) (t : Tag) (val : List ℕ)
    → code t < 256
    → length val < 2 ^ 32
    → ValueAt (write_value m vo t val) vo t val
unfolding write_value null_after sized code
write_value-ValueAt m vo string val h small = record {
  type_byte =
      typed-byte m vo 5 (5 + length val) (λ m'. null_after m' (vo + 1) val)
        (λ m'. null_after-outside m' (vo + 1) val) h;
  length_word = λ _. null_after-length (store8 m vo 5) (vo + 1) val small;
  text = null_after-text (store8 m vo 5) (vo + 1) val;
}
write_value-ValueAt m vo bytes val h small = record {
  type_byte =
      typed-byte m vo 4 (4 + length val) (λ m'. sized m' (vo + 1) val)
        (λ m'. sized-outside m' (vo + 1) val) h;
  length_word = λ _. sized-length (store8 m vo 4) (vo + 1) val small;
  text = sized-text (store8 m vo 4) (vo + 1) val;
}
write_value-ValueAt m vo t val h small = record {
  type_byte =
      typed-byte m vo (code t) (length val) (λ m'. store_bytes m' (vo + 1) val)
        (λ m'. plain-outside m' (vo + 1) val) h;
  length_word = λ e. cc;
  text = store_bytes-text (store8 m vo (code t)) (vo + 1) val;
}
