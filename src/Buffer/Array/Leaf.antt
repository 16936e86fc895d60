-- ===== src/Buffer/Array/Leaf.antt =====
-- Arrays that are one leaf: an append, and the getters after it.
use lite3_cpp.Base.{
  ℕ, ◌+◌, ◌*◌, ◌%◌, ◌^◌, ◌<◌, ◌≡◌, refl, ◌∙◌, ap, Bool, true, List, [], arith, ◌==◌, Bool-cases,
  inl, inr, Option-cases, u32,
}
use lite3_cpp.Memory.{Memory, store32}
use lite3_cpp.Memory.Laws.{load32-store32_outside}
use lite3_cpp.Memory.Frame.{SameOn-outside}
use lite3_cpp.Node.{
  string, node_size, size, key_count, get_hash, get_kv_offset, get_child_offset, set_size,
}
use lite3_cpp.Node.Laws.{key_count_lem, size_lem, set_size_word}
use lite3_cpp.Node.Frame.{set_size-outside}
use lite3_cpp.Outcome.{ok}
use lite3_cpp.Buffer.State.{Buffer}
use lite3_cpp.Buffer.Entry.{has_length}
use lite3_cpp.Buffer.Compare.Order.{Key, compare_keys, compare_lists_refl}
use lite3_cpp.Buffer.Search.{is_eq}
use lite3_cpp.Buffer.Search.Table.{Entry, nth, lookup}
use lite3_cpp.Buffer.Search.Held.{Held, entry_size}
use lite3_cpp.Buffer.Search.Frame.{Held-same}
use lite3_cpp.Buffer.Insert.Leaf.{LeafIn}
use lite3_cpp.Buffer.Shows.{Shows}
use lite3_cpp.Buffer.Object.Leaf.{read_entry, sized_value, eq_of_same_tag, of_code-string}
use lite3_cpp.Buffer.Object.{same_tag}
use lite3_cpp.Buffer.Array.{resize_array, arr_get_impl, arr_get_str}

-- The key of element `i`.
abbrev pub index : ℕ → Key
index i = record { hash = i; text = [] }

pub is_eq-index : (i j : ℕ) → is_eq (compare_keys (index i) (index j)) ≡ (i == j)
unfolding compare_keys
is_eq-index i j = ground (arith, compare_lists_refl [])

-- The size word of a node is none of those that the search reads.
module _ (m : Memory) (a n : ℕ) where
  pub size-set_size : size (set_size m a n) a ≡ n % 2 ^ 26
  size-set_size = size_lem (set_size m a n) a ∙ omega (arith, set_size_word m a n)

  pub key_count-set_size : key_count (set_size m a n) a ≡ key_count m a
  key_count-set_size =
      key_count_lem (set_size m a n) a ∙ omega (arith, set_size_word m a n, key_count_lem m a)

  pub get_hash-set_size : (j : ℕ) → j < 7 → get_hash (set_size m a n) a j ≡ get_hash m a j
  unfolding get_hash set_size
  get_hash-set_size j h = load32-store32_outside m (a + 32) _ (a + 4 + 4 * j) (inl (omega arith))

  pub get_kv_offset-set_size : (j : ℕ) → get_kv_offset (set_size m a n) a j ≡ get_kv_offset m a j
  unfolding get_kv_offset set_size
  get_kv_offset-set_size j =
      load32-store32_outside m (a + 32) _ (a + 36 + 4 * j) (inr (omega arith))

  pub get_child_offset-set_size :
      (j : ℕ) → get_child_offset (set_size m a n) a j ≡ get_child_offset m a j
  unfolding get_child_offset set_size
  get_child_offset-set_size j =
      load32-store32_outside m (a + 32) _ (a + 64 + 4 * j) (inr (omega arith))

  pub storage-set_size : (set_size m a n).size ≡ m.size
  unfolding set_size store32
  storage-set_size = refl

pub resize_array-LeafIn :
    (b : Buffer) (arr : Bool) (a n : ℕ) (es : List Entry)
    → LeafIn b arr a es
    → LeafIn (resize_array b a n) arr a es
resize_array-LeafIn b arr a n es inv =
    let m = b.m_data in
    let k = u32 n in
    record {
      leaf = record {
        keys = record {
          count = key_count-set_size m a k ∙ inv.leaf.keys.count;
          hashes = λ j h.
              get_hash-set_size m a k j (omega (arith, inv.leaf.room)) ∙ inv.leaf.keys.hashes j h;
          addresses = λ j h. get_kv_offset-set_size m a k j ∙ inv.leaf.keys.addresses j h;
          held = λ j h.
              let d = nth es j in
              Held-same m (set_size m a k) arr d
                (SameOn-outside a node_size d.address (entry_size arr d) m (set_size m a k)
                  (inv.apart j h) (set_size-outside m a k))
                (inv.leaf.keys.held j h);
        };
        room = inv.leaf.room;
        bottom = λ j h. get_child_offset-set_size m a k j ∙ inv.leaf.bottom j h;
      };
      fits = rw (storage-set_size m a k) inv.fits;
      node_in = inv.node_in;
      apart = inv.apart;
      below = inv.below;
    }

-- `arr_get_str` returns the string of the element, and throws if there is none or it is no string.
pub arr_get_str-lookup :
    (b : Buffer) (a : ℕ) (es : List Entry) (i : ℕ)
    → Shows b true a es
    → arr_get_str b a i ≡ read_entry "Type mismatch" "Type mismatch" string (lookup (index i) es)
unfolding arr_get_str arr_get_impl
arr_get_str-lookup b a es i shows =
    let searched = shows.answers (index i) (λ e. refl) in
    elim (Option-cases (lookup (index i) es)) [
      | inl out ↦ rw (searched, out)
      | inr (e, h) ↦
          rw (searched, h)
            (elim (Bool-cases (same_tag e.type string)) [
              | inl is ↦
                  let held : Held b.m_data true e = shows.lies (index i) e (λ x. refl) h in
                  let t : e.type ≡ string =
                    eq_of_same_tag e.type string held.known of_code-string is in
                  rw is (ap ok (sized_value b.m_data true e held (ap has_length t)))
              | inr other ↦ rw other
            ])
    ]
