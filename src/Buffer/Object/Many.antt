-- ===== src/Buffer/Object/Many.antt =====
-- Up to seven members put into a new object one after the other, and what is then read.
use lite3_cpp.Base.{
  ℕ, ◌+◌, ◌^◌, ◌<◌, ◌≤◌, ◌≡◌, ◌≢◌, refl, ◌∙◌, sym, ap, subst, true, false, List, [], ◌∷◌, none, All,
  arith, if◌then◌else◌, length, Bool-cases, inl, inr,
}
use lite3_cpp.Node.{string, object, node_size}
use lite3_cpp.Outcome.{Outcome, ok, throws, ◌>>=◌}
use lite3_cpp.Buffer.State.{Buffer, init_structure, init_object}
use lite3_cpp.Buffer.Entry.{value_len}
use lite3_cpp.Buffer.Compare.Order.{compare_lists, compare_lists_refl, eq_of_compare_lists}
use lite3_cpp.Buffer.Search.{is_eq}
use lite3_cpp.Buffer.Search.Table.{Entry, position, lookup, insert_at, length-insert_at}
use lite3_cpp.Buffer.Insert.Leaf.{LeafIn}
use lite3_cpp.Buffer.Shows.{LeafIn-Shows}
use lite3_cpp.Buffer.Object.{set_str, get_str}
use lite3_cpp.Buffer.Object.Leaf.{member, get_str-lookup}
use lite3_cpp.Buffer.Object.New.{init_structure-LeafIn}
use lite3_cpp.Buffer.Object.Put.{new_entry, eq_of_is_eq, get_str-set_str, set_str-leaf}

-- Keys with the strings that they are given.
abbrev pub Members : Type 0
Members = List (List ℕ × List ℕ)

-- A client's calls of `set_str`, one for each member.
unfoldable pub put_all : Buffer → ℕ → Members → Outcome Buffer
put_all b a [] = ok b
put_all b a ((key, val) ∷ kvs) = do b' ← set_str b a key val; put_all b' a kvs

-- What is to be read under a key: its string, or what was read before.
unfoldable pub value_of : List ℕ → Outcome (List ℕ) → Members → Outcome (List ℕ)
value_of key before [] = before
value_of key before ((k, val) ∷ kvs) =
    if is_eq (compare_lists k key) then ok val else value_of key before kvs

abbrev pub NotIn : List ℕ → Members → Type 0
NotIn key [] = Unit
NotIn key ((k, val) ∷ kvs) = (k ≢ key) × NotIn key kvs

abbrev pub Distinct : Members → Type 0
Distinct [] = Unit
Distinct ((k, val) ∷ kvs) = NotIn k kvs × Distinct kvs

-- Keys and strings of lengths that the entries can hold.
abbrev pub Short : Members → Type 0
Short kvs = All (λ (kv : List ℕ × List ℕ). (length kv.0 < 63) × (length kv.1 < 2 ^ 32)) kvs

-- The bytes of the members' entries.
unfoldable pub total_len : Members → ℕ
total_len [] = 0
total_len ((k, val) ∷ kvs) = length k + 2 + value_len string (length val) + total_len kvs

-- The keys are not found among the entries.
abbrev Fresh : List Entry → Members → Type 0
Fresh es kvs = All (λ (kv : List ℕ × List ℕ). lookup (member kv.0) es ≡ none) kvs

is_eq-compare_lists : (s t : List ℕ) → s ≢ t → is_eq (compare_lists s t) ≡ false
is_eq-compare_lists s t h = elim (Bool-cases (is_eq (compare_lists s t))) [
  | inl same ↦ absurd (h (eq_of_compare_lists s t (eq_of_is_eq _ same)))
  | inr other ↦ other
]

value_of-NotIn :
    (key : List ℕ) (before : Outcome (List ℕ)) (kvs : Members)
    → NotIn key kvs
    → value_of key before kvs ≡ before
unfolding value_of
value_of-NotIn key before [] h = refl
value_of-NotIn key before ((k, val) ∷ kvs) h =
    rw (is_eq-compare_lists k key h.0) (value_of-NotIn key before kvs h.1)

Fresh-keeps :
    (es es' : List Entry) (key : List ℕ) (kvs : Members)
    → ((other : List ℕ) → other ≢ key → lookup (member other) es' ≡ lookup (member other) es)
    → NotIn key kvs
    → Fresh es kvs
    → Fresh es' kvs
Fresh-keeps es es' key [] same out h = tt
Fresh-keeps es es' key ((k, val) ∷ kvs) same out h =
    (same k (out.0) ∙ h.0, Fresh-keeps es es' key kvs same out.1 h.1)

-- What is read after one member and then the others.
pub value_of-step :
    (key k val : List ℕ) (before after : Outcome (List ℕ)) (kvs : Members)
    → NotIn k kvs
    → (k ≡ key → after ≡ ok val)
    → (key ≢ k → after ≡ before)
    → value_of key after kvs
      ≡ (if is_eq (compare_lists k key) then ok val else value_of key before kvs)
value_of-step key k val before after kvs out here elsewhere =
    elim (Bool-cases (is_eq (compare_lists k key))) [
      | inl same ↦
          let e : k ≡ key = eq_of_compare_lists k key (eq_of_is_eq _ same) in
          rw same (value_of-NotIn key after kvs (subst (λ x. NotIn x kvs) e out) ∙ here e)
      | inr other ↦
          let ne : key ≢ k = λ e. differ (rw e (ap is_eq (compare_lists_refl k))) other in
          rw other (ap (λ r. value_of key r kvs) (elsewhere ne))
    ]
  where
    differ : is_eq (compare_lists k key) ≡ true → is_eq (compare_lists k key) ≡ false → ⊥
    differ p q = cc

-- One member more, at a leaf.
module _ (a : ℕ) (key : List ℕ) where
  put_all-LeafIn :
      (kvs : Members) (b : Buffer) (es : List Entry)
      → LeafIn b false a es
      → length es + length kvs ≤ 7
      → Distinct kvs
      → Short kvs
      → Fresh es kvs
      → b.m_used_size + total_len kvs < 2 ^ 32
      → (do b' ← put_all b a kvs; get_str b' a key) ≡ value_of key (get_str b a key) kvs
  unfolding put_all value_of total_len
  put_all-LeafIn [] b es inv room apart short fresh fits = refl
  put_all-LeafIn ((k, val) ∷ kvs) b es inv room apart short fresh fits =
      let (b', returned, leaf, used, others) =
        set_str-leaf b a es k val inv (omega arith) short.0.0 fresh.0 (omega arith) short.0.1 in
      let (here, wrong_type, elsewhere) =
        get_str-set_str b a es k val inv (omega arith) short.0.0 fresh.0 (omega arith) short.0.1 in
      let es' = insert_at (position (member k) es) (new_entry b k val string) es in
      let rest : (do b₁ ← put_all b' a kvs; get_str b₁ a key)
          ≡ value_of key (get_str b' a key) kvs =
        put_all-LeafIn kvs b' es' leaf
          (omega (arith, length-insert_at (position (member k) es) (new_entry b k val string) es))
          apart.1 short.1 (Fresh-keeps es es' k kvs others apart.0 fresh.1) (omega arith) in
      let read : (other : List ℕ)
          → get_str b' a other ≡ (do b₁ ← set_str b a k val; get_str b₁ a other) =
        λ other. ap (λ r. r >>= λ b₁. get_str b₁ a other) (sym returned) in
      rw returned (
        rest
        ∙ value_of-step key k val (get_str b a key) (get_str b' a key) kvs apart.0
            (λ e. subst (λ x. get_str b' a x ≡ ok val) e (read k ∙ here))
            (λ ne. read key ∙ (elsewhere key ne).0))

-- The calls return, and the object is a leaf with an entry for each member.
pub put_all-leaf :
    (a : ℕ) (kvs : Members) (b : Buffer) (es : List Entry)
    → LeafIn b false a es
    → length es + length kvs ≤ 7
    → Distinct kvs
    → Short kvs
    → Fresh es kvs
    → b.m_used_size + total_len kvs < 2 ^ 32
    → (b' : Buffer) × (es' : List Entry) × (put_all b a kvs ≡ ok b')
      × LeafIn b' false a es'
      × (length es' ≡ length es + length kvs)
      × (b'.m_used_size ≡ b.m_used_size + total_len kvs)
unfolding put_all total_len
put_all-leaf a [] b es inv room apart short fresh fits =
    (b, es, refl, inv, omega arith, omega arith)
put_all-leaf a ((k, val) ∷ kvs) b es inv room apart short fresh fits =
    let (b₁, returned, leaf, used, others) =
      set_str-leaf b a es k val inv (omega arith) short.0.0 fresh.0 (omega arith) short.0.1 in
    let longer = length-insert_at (position (member k) es) (new_entry b k val string) es in
    let (b', es', all, leaf', counted, used') =
      put_all-leaf a kvs b₁ (insert_at (position (member k) es) (new_entry b k val string) es) leaf
        (omega (arith, longer)) apart.1 short.1 (Fresh-keeps es _ k kvs others apart.0 fresh.1)
        (omega arith) in
    (b', es', rw returned all, leaf', omega (arith, longer, counted), omega (arith, used, used'))

pub nothing-Fresh : (kvs : Members) → Fresh [] kvs
unfolding lookup
nothing-Fresh [] = tt
nothing-Fresh (kv ∷ kvs) = (refl, nothing-Fresh kvs)

module _ (b : Buffer) (kvs : Members) (few : length kvs ≤ 7) (apart : Distinct kvs)
    (short : Short kvs) (fits : b.m_used_size + node_size + total_len kvs < 2 ^ 32) where
  -- At most seven members with distinct keys of fewer than 63 characters and strings shorter than
  -- 2^32 are put by `set_str` into the object that `init_object` makes in any buffer, all of it
  -- ending below 2^32: every call returns, and then `get_str` returns for each key its string, and
  -- throws `Key not found` for every other key.
  pub get_str-put_all :
      (key : List ℕ)
      → (do b' ← put_all (init_object b) b.m_used_size kvs; get_str b' b.m_used_size key)
        ≡ value_of key (throws "Key not found") kvs
  unfolding init_object
  get_str-put_all key =
      let (leaf, first_generation, object_tag, first_size, used) =
        init_structure-LeafIn b object false in
      put_all-LeafIn b.m_used_size key kvs (init_structure b object) [] leaf (omega arith) apart
        short (nothing-Fresh kvs) (omega (arith, used))
      ∙ ap (λ r. value_of key r kvs)
          (get_str-lookup (init_structure b object) b.m_used_size []
              (LeafIn-Shows (init_structure b object) false b.m_used_size [] leaf) key
            ∙ (unfold lookup in refl))
