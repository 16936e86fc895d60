-- ===== src/Tests/Filled.antt =====
-- The theorems on objects of many nodes, at a new object.
use lite3_cpp.Base.{ℕ, ◌≡◌, ◌≢◌, refl, true, false, List, [], ◌∷◌, arith}
use lite3_cpp.Node.{object}
use lite3_cpp.Outcome.{ok, ◌>>=◌}
use lite3_cpp.Hash.{djb2_hash, djb2_from}
use lite3_cpp.Buffer.State.{Buffer, new, init_object, init_structure}
use lite3_cpp.Buffer.Entry.{value_len}
use lite3_cpp.Buffer.Compare.Order.{compare_lists}
use lite3_cpp.Buffer.Map.{IsMap, init_structure-IsMap}
use lite3_cpp.Buffer.Object.{
  set_i64, set_f64, set_str, set_bool, set_bytes, get_i64, get_f64, get_str, get_bool, get_bytes,
}
use lite3_cpp.Buffer.Object.Many.{Members, put_all, value_of, Short}
use lite3_cpp.Buffer.Object.Sized.{SameReads}
use lite3_cpp.Buffer.Object.Fill.{DistinctHashes, room_for, get_str-put_all_any}
use lite3_cpp.Buffer.Object.Types.{set-get_words, set-get_texts, set-get_bool}

abbrev pub eight_members : Members
eight_members =
    (b'a' ∷ [], 1 ∷ [])
    ∷ (b'b' ∷ [], 2 ∷ [])
    ∷ (b'c' ∷ [], 3 ∷ [])
    ∷ (b'd' ∷ [], 4 ∷ [])
    ∷ (b'e' ∷ [], 5 ∷ [])
    ∷ (b'f' ∷ [], 6 ∷ [])
    ∷ (b'g' ∷ [], 7 ∷ [])
    ∷ (b'h' ∷ [], 8 ∷ [])
    ∷ []

hashes :
    (djb2_hash (b'a' ∷ []) ≡ 177670)
    × (djb2_hash (b'b' ∷ []) ≡ 177671)
    × (djb2_hash (b'c' ∷ []) ≡ 177672)
    × (djb2_hash (b'd' ∷ []) ≡ 177673)
    × (djb2_hash (b'e' ∷ []) ≡ 177674)
    × (djb2_hash (b'f' ∷ []) ≡ 177675)
    × (djb2_hash (b'g' ∷ []) ≡ 177676)
    × (djb2_hash (b'h' ∷ []) ≡ 177677)
unfolding djb2_hash djb2_from
hashes = (refl, refl, refl, refl, refl, refl, refl, refl)

differ : (k l m n : ℕ) → k ≡ m → l ≡ n → m ≢ n → k ≢ l
differ k l m n h h' ne e = omega (arith, h, h', e)

pub eight-DistinctHashes : DistinctHashes eight_members
eight-DistinctHashes =
    let (a, b, c, d, e, f, g, h) = hashes in
    (
      (
        differ _ _ 177671 177670 b a (omega arith),
        (
          differ _ _ 177672 177670 c a (omega arith),
          (
            differ _ _ 177673 177670 d a (omega arith),
            (
              differ _ _ 177674 177670 e a (omega arith),
              (
                differ _ _ 177675 177670 f a (omega arith),
                (
                  differ _ _ 177676 177670 g a (omega arith),
                  (differ _ _ 177677 177670 h a (omega arith), tt),
                ),
              ),
            ),
          ),
        ),
      ),
      (
        (
          differ _ _ 177672 177671 c b (omega arith),
          (
            differ _ _ 177673 177671 d b (omega arith),
            (
              differ _ _ 177674 177671 e b (omega arith),
              (
                differ _ _ 177675 177671 f b (omega arith),
                (
                  differ _ _ 177676 177671 g b (omega arith),
                  (differ _ _ 177677 177671 h b (omega arith), tt),
                ),
              ),
            ),
          ),
        ),
        (
          (
            differ _ _ 177673 177672 d c (omega arith),
            (
              differ _ _ 177674 177672 e c (omega arith),
              (
                differ _ _ 177675 177672 f c (omega arith),
                (
                  differ _ _ 177676 177672 g c (omega arith),
                  (differ _ _ 177677 177672 h c (omega arith), tt),
                ),
              ),
            ),
          ),
          (
            (
              differ _ _ 177674 177673 e d (omega arith),
              (
                differ _ _ 177675 177673 f d (omega arith),
                (
                  differ _ _ 177676 177673 g d (omega arith),
                  (differ _ _ 177677 177673 h d (omega arith), tt),
                ),
              ),
            ),
            (
              (
                differ _ _ 177675 177674 f e (omega arith),
                (
                  differ _ _ 177676 177674 g e (omega arith),
                  (differ _ _ 177677 177674 h e (omega arith), tt),
                ),
              ),
              (
                (
                  differ _ _ 177676 177675 g f (omega arith),
                  (differ _ _ 177677 177675 h f (omega arith), tt),
                ),
                ((differ _ _ 177677 177676 h g (omega arith), tt), (tt, tt)),
              ),
            ),
          ),
        ),
      ),
    )

pub eight-Short : Short eight_members
eight-Short = (
  (omega arith, omega arith),
  (
    (omega arith, omega arith),
    (
      (omega arith, omega arith),
      (
        (omega arith, omega arith),
        (
          (omega arith, omega arith),
          (
            (omega arith, omega arith),
            ((omega arith, omega arith), ((omega arith, omega arith), tt)),
          ),
        ),
      ),
    ),
  ),
)

pub eight_room : room_for 1 eight_members ≡ 5228
unfolding room_for value_len
eight_room = refl

pub new_used : new.m_used_size ≡ 0
unfolding new
new_used = refl

get_str-put_all_any_example :
    (do
      b ← put_all (init_object new) new.m_used_size eight_members
      get_str b new.m_used_size (b'h' ∷ []))
    ≡ ok (8 ∷ [])
unfolding value_of compare_lists
get_str-put_all_any_example =
    get_str-put_all_any new eight_members eight-DistinctHashes eight-Short
      (omega (arith, eight_room, new_used)) (b'h' ∷ [])

abbrev pub made : Buffer
made = init_structure new object

pub made_used : made.m_used_size ≡ 96
unfolding new init_structure
made_used = refl

pub map₀ : IsMap made false new.m_used_size [] 1
map₀ = init_structure-IsMap new object false

abbrev word : List ℕ
word = 1 ∷ 2 ∷ 3 ∷ 4 ∷ 5 ∷ 6 ∷ 7 ∷ 8 ∷ []

set-get_words_example :
    ((b : Buffer) × (set_i64 made new.m_used_size (b'a' ∷ []) word ≡ ok b)
      × (get_i64 b new.m_used_size (b'a' ∷ []) ≡ ok word)
      × ((other : List ℕ) → other ≢ b'a' ∷ [] → SameReads made b new.m_used_size other))
    × ((b : Buffer) × (set_f64 made new.m_used_size (b'a' ∷ []) word ≡ ok b)
        × (get_f64 b new.m_used_size (b'a' ∷ []) ≡ ok word)
        × ((other : List ℕ) → other ≢ b'a' ∷ [] → SameReads made b new.m_used_size other))
set-get_words_example =
    set-get_words made new.m_used_size [] 1 map₀ (b'a' ∷ []) (omega arith) tt (omega arith) word
      (omega (arith, made_used)) refl

set-get_texts_example :
    ((b : Buffer) × (set_str made new.m_used_size (b'a' ∷ []) word ≡ ok b)
      × (get_str b new.m_used_size (b'a' ∷ []) ≡ ok word)
      × ((other : List ℕ) → other ≢ b'a' ∷ [] → SameReads made b new.m_used_size other))
    × ((b : Buffer) × (set_bytes made new.m_used_size (b'a' ∷ []) word ≡ ok b)
        × (get_bytes b new.m_used_size (b'a' ∷ []) ≡ ok word)
        × ((other : List ℕ) → other ≢ b'a' ∷ [] → SameReads made b new.m_used_size other))
set-get_texts_example =
    set-get_texts made new.m_used_size [] 1 map₀ (b'a' ∷ []) (omega arith) tt (omega arith) word
      (omega (arith, made_used))

set-get_bool_example :
    (b : Buffer) × (set_bool made new.m_used_size (b'a' ∷ []) true ≡ ok b)
    × (get_bool b new.m_used_size (b'a' ∷ []) ≡ ok true)
    × ((other : List ℕ) → other ≢ b'a' ∷ [] → SameReads made b new.m_used_size other)
set-get_bool_example =
    set-get_bool made new.m_used_size [] 1 map₀ (b'a' ∷ []) (omega arith) tt (omega arith) true
      (omega (arith, made_used))
