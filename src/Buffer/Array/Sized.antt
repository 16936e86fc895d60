-- ===== src/Buffer/Array/Sized.antt =====
-- An append to an array of fewer than 4^8 - 1 elements, and the getter after it.
use lite3_cpp.Base.{
  ℕ, ◌+◌, ◌*◌, ◌^◌, ◌<◌, ◌≤◌, ◌≡◌, refl, sym, ◌∙◌, ap, subst, Bool, true, false, List, [], ◌∷◌, All,
  none, length, arith, if◌then◌else◌, ◌==◌, Bool-cases, inl, inr, u32,
}
use lite3_cpp.Memory.Laws.{SameOn}
use lite3_cpp.Memory.Frame.{SameOn-outside}
use lite3_cpp.Node.{node_size, size, string, code, set_size}
use lite3_cpp.Node.Frame.{set_size-outside}
use lite3_cpp.Outcome.{ok}
use lite3_cpp.Buffer.State.{Buffer}
use lite3_cpp.Buffer.Entry.{value_len}
use lite3_cpp.Buffer.Search.Table.{position, length-insert_at, Entry, nth, lookup, lookup-insert_at}
use lite3_cpp.Buffer.Search.Held.{Keys}
use lite3_cpp.Buffer.Search.Frame.{Held-same}
use lite3_cpp.Buffer.Insert.Leaf.{Apart, IsNew}
use lite3_cpp.Buffer.Tree.{Trees, node, address}
use lite3_cpp.Buffer.Tree.Held.{TreeAt}
use lite3_cpp.Buffer.Tree.Frame.{SpansOf-map, Kept, TreesAt-same}
use lite3_cpp.Buffer.Tree.Tidy.{Tidy}
use lite3_cpp.Buffer.Tree.Grows.{Stored}
use lite3_cpp.Buffer.Tree.PutIn.{put_in, HashFree, lookup-HashFree, All-insert_at}
use lite3_cpp.Buffer.Tree.Portion.{Tree-parts}
use lite3_cpp.Buffer.Set.Touched.{Links-rows}
use lite3_cpp.Buffer.Set.Puts.{placed}
use lite3_cpp.Buffer.Map.{IsMap, IsMap-Shows, set_impl-IsMap}
use lite3_cpp.Buffer.Object.Leaf.{of_code-string}
use lite3_cpp.Buffer.Array.{resize_array, arr_append_impl, arr_append_str, arr_get_str}
use lite3_cpp.Buffer.Array.Leaf.{
  index, is_eq-index, size-set_size, key_count-set_size, get_hash-set_size, get_kv_offset-set_size,
  get_child_offset-set_size, storage-set_size, arr_get_str-lookup,
}

-- The size word of the root is no part of the tree.
Stored-resized :
    (b : Buffer) (arr : Bool) (a n : ℕ) (es : List Entry) (ts : Trees)
    → Stored b arr (node a es ts)
    → Stored (resize_array b a n) arr (node a es ts)
unfolding TreeAt Tidy
Stored-resized b arr a n es ts stored =
    let m = b.m_data in
    let k = u32 n in
    let keys = stored.held.0 in
    let outside : (x j : ℕ) → Apart x j a node_size → SameOn x j m (set_size m a k) = λ x j apart.
      SameOn-outside a node_size x j m (set_size m a k) apart (set_size-outside m a k) in
    let row : Keys (set_size m a k) arr a es = record {
      count = key_count-set_size m a k ∙ keys.count;
      hashes = λ j h. get_hash-set_size m a k j (omega (arith, stored.held.1)) ∙ keys.hashes j h;
      addresses = λ j h. get_kv_offset-set_size m a k j ∙ keys.addresses j h;
      held = λ j h.
          Held-same m (set_size m a k) arr (nth es j) (outside _ _ (stored.tidy.0 j h).0)
            (keys.held j h);
    } in
    record {
      fits = omega (arith, stored.fits, storage-set_size m a k);
      held = (
        row,
        stored.held.1,
        Links-rows m (set_size m a k) a es ts (get_child_offset-set_size m a k) stored.held.2,
        TreesAt-same m (set_size m a k) arr ts
            (SpansOf-map (λ x j. Apart x j a node_size) (Kept m (set_size m a k) arr) arr outside ts
              stored.tidy.1)
            stored.held.3,
      );
      tidy = stored.tidy;
      inside = stored.inside;
    }

IsMap-resized :
    (b : Buffer) (arr : Bool) (a n : ℕ) (es : List Entry) (h : ℕ)
    → IsMap b arr a es h
    → IsMap (resize_array b a n) arr a es h
IsMap-resized b arr a n es h map =
    let (c, ces, cts, is) = Tree-parts map.tree in
    let root : c ≡ a = sym (ap address is) ∙ map.at in
    let stored : Stored (resize_array b c n) arr map.tree =
      subst (Stored (resize_array b c n) arr) (sym is)
        (Stored-resized b arr c n ces cts (subst (Stored b arr) is map.stored)) in
    record {
      tree = map.tree;
      stored = subst (λ x. Stored (resize_array b x n) arr map.tree) root stored;
      at = map.at;
      listed = map.listed;
      sorted = map.sorted;
      low = map.low;
      levels = map.levels;
      depth = map.depth;
      even = map.even;
    }

-- An array of `n` elements below a root at `a`, in a tree of at most `h` levels.
pub record IsSeq (b : Buffer) (a : ℕ) (es : List Entry) (h n : ℕ) : Type 0 where
  pub map : IsMap b true a es h
  pub counted : size b.m_data a ≡ n
  pub many : length es ≡ n
  pub below : All (λ (d : Entry). d.key.hash < n) es

pub free_above :
    (es : List Entry) (n j : ℕ) → n ≤ j → All (λ (d : Entry). d.key.hash < n) es → HashFree j es
free_above [] n j h below = tt
free_above (e ∷ es) n j h below =
    ((λ same. omega (arith, below.0, same)), free_above es n j h below.1)

All-more :
    (es : List Entry) (n : ℕ)
    → All (λ (d : Entry). d.key.hash < n) es
    → All (λ (d : Entry). d.key.hash < n + 1) es
All-more [] n below = tt
All-more (e ∷ es) n below = (omega (arith, below.0), All-more es n below.1)

pub IsSeq-past :
    (b : Buffer) (a i : ℕ) (es : List Entry) (h n : ℕ)
    → IsSeq b a es h n
    → n ≤ i
    → lookup (index i) es ≡ none
IsSeq-past b a i es h n seq le = lookup-HashFree (index i) es (free_above es n i le seq.below)

module _ (b : Buffer) (a : ℕ) (es : List Entry) (h n : ℕ) (seq : IsSeq b a es h n) (val : List ℕ)
    (val_fits : length val < 2 ^ 32) (few : n + 1 < 4 ^ 8)
    (space : b.m_used_size + 99 * (h + 2) + value_len string (length val) + 3 < 2 ^ 32) where
  abbrev element : Entry
  element = record { key = index n; address = 0; type = string; val = val }

  element-IsNew : IsNew true element
  unfolding code
  element-IsNew = record {
    hash_fits = omega arith;
    small = omega arith;
    array = λ x. refl;
    known = of_code-string;
    sized = λ x. cc;
    type_fits = omega arith;
    val_fits = val_fits;
  }

  -- A string more.
  pub arr_append_str-IsSeq :
      (b' : Buffer) × (es' : List Entry) × (arr_append_str b a val ≡ ok b')
      × IsSeq b' a es' (h + 1) (n + 1)
      × (b'.m_used_size ≤ b.m_used_size + 99 * (h + 2) + value_len string (length val))
      × ((i : ℕ) → arr_get_str b' a i ≡ (if i == n then ok val else arr_get_str b a i))
  unfolding arr_append_str arr_append_impl code
  arr_append_str-IsSeq =
      let out = free_above es n n (omega arith) seq.below in
      let (b₁, at, returned, map₁, spent, head) =
        set_impl-IsMap b true a es h seq.map element element-IsNew out (omega (arith, seq.many))
          (omega arith) in
      let e = placed element at in
      let es' = put_in e es in
      let b' = resize_array b₁ a (n + 1) in
      let map' = IsMap-resized b₁ true a (n + 1) es' (h + 1) map₁ in
      let index_fits : u32 n ≡ n = omega arith in
      (
        b',
        es',
        rw (seq.counted, index_fits, returned) refl,
        record {
          map = map';
          counted = size-set_size b₁.m_data a (u32 (n + 1)) ∙ omega arith;
          many = omega (arith, seq.many, length-insert_at (position (index n) es) e es);
          below =
              All-insert_at (λ (d : Entry). d.key.hash < n + 1) _ e es (omega arith)
                (All-more es n seq.below);
        },
        omega (arith, spent),
        λ i.
            arr_get_str-lookup b' a es' i (IsMap-Shows b' true a es' (h + 1) map')
            ∙ rw
                (
                  lookup-insert_at (index i) e es (lookup-HashFree (index n) es out),
                  is_eq-index n i,
                  arr_get_str-lookup b a es i (IsMap-Shows b true a es h seq.map),
                )
                (elim (Bool-cases (n == i)) [
                  | inl here ↦ let back : (i == n) ≡ true = ground arith in rw (here, back) refl
                  | inr other ↦ let back : (i == n) ≡ false = ground arith in rw (other, back) refl
                ]),
      )
