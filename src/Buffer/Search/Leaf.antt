-- ===== src/Buffer/Search/Leaf.antt =====
-- A node without children, and `get_impl` at it.
use lite3_cpp.Base.{
  ℕ, suc, ◌+◌, ◌*◌, ◌<◌, ◌≤◌, ◌≡◌, ◌∙◌, ap, subst, Bool, true, List, [], Option, none, some, arith,
  ◌==◌, if◌then◌else◌, length, inl, inr, Option-cases,
}
use lite3_cpp.Memory.{Memory}
use lite3_cpp.Node.{Tag, get_kv_offset, get_child_offset}
use lite3_cpp.Outcome.{ok}
use lite3_cpp.Buffer.State.{Buffer}
use lite3_cpp.Buffer.Compare.Order.{Key}
use lite3_cpp.Buffer.Entry.{value_offset}
use lite3_cpp.Buffer.Search.{get_loop, get_impl}
use lite3_cpp.Buffer.Search.Table.{Entry, position, position-le, lookup}
use lite3_cpp.Buffer.Search.Held.{
  Held, Keys, value_at, value_offset-Held, scan-position, matches-lookup, lookup-nth,
}

pub record Leaf (m : Memory) (arr : Bool) (a : ℕ) (es : List Entry) : Type 0 where
  pub keys : Keys m arr a es
  pub room : length es ≤ 7
  pub bottom : (j : ℕ) → j < 8 → get_child_offset m a j ≡ 0

-- What `get_impl` returns for an entry: the address of the data and the type.
abbrev pub found : Bool → Option Entry → Option (ℕ × Tag)
found arr none = none
found arr (some e) = some (value_at arr e + 1, e.type)

module _ (m : Memory) (arr : Bool) (a : ℕ) (k : Key) (array : arr ≡ true → k.text ≡ [])
    (es : List Entry) (keys : Keys m arr a es) where
  -- A round of the loop at a node that has the key.
  pub get_loop-some :
      (fuel : ℕ) (e : Entry)
      → lookup k es ≡ some e
      → get_loop k.hash k.text arr (suc fuel) m a ≡ ok (some (value_at arr e + 1, e.type))
  unfolding get_loop
  get_loop-some fuel e h =
      let i = position k es in
      let there = lookup-nth m arr a k array es keys e h in
      let held : Held m arr e = subst (Held m arr) there.1 (keys.held i there.0) in
      let at : value_offset m (get_kv_offset m a i) arr ≡ value_at arr e =
        ap (λ x. value_offset m x arr)
          (keys.addresses i there.0 ∙ ap (λ (d : Entry). d.address) there.1)
        ∙ value_offset-Held m arr e held.key in
      rw (
        scan-position m arr a k array es keys,
        matches-lookup m arr a k array es keys,
        h,
        at,
        held.value.type_byte,
        held.known,
      )

  -- A round at a node that does not have the key: the child at its position is next, if there is one.
  pub get_loop-none :
      (fuel : ℕ)
      → lookup k es ≡ none
      → get_loop k.hash k.text arr (suc fuel) m a ≡ (
          if get_child_offset m a (position k es) == 0
          then ok none
          else get_loop k.hash k.text arr fuel m (get_child_offset m a (position k es)))
  unfolding get_loop
  get_loop-none fuel h =
      rw (scan-position m arr a k array es keys, matches-lookup m arr a k array es keys, h)

module _ (m : Memory) (arr : Bool) (a : ℕ) (k : Key) (array : arr ≡ true → k.text ≡ [])
    (es : List Entry) (leaf : Leaf m arr a es) where
  -- At a leaf the loop returns in its first round.
  pub get_loop-Leaf :
      (fuel : ℕ) → get_loop k.hash k.text arr (suc fuel) m a ≡ ok (found arr (lookup k es))
  get_loop-Leaf fuel = elim (Option-cases (lookup k es)) [
    | inl out ↦
        get_loop-none m arr a k array es leaf.keys fuel out
        ∙ rw (leaf.bottom (position k es) (omega (arith, position-le k es, leaf.room)), out)
    | inr (e, h) ↦ get_loop-some m arr a k array es leaf.keys fuel e h ∙ rw h
  ]

-- At a leaf `get_impl` returns, within its rounds, and finds what the search in the list of the
-- leaf's entries finds: the address of the data and the type of the first entry not below the key
-- if it has that key, and else nothing; in an array the key has no text.
pub get_impl-Leaf :
    (b : Buffer) (arr : Bool) (a : ℕ) (k : Key) (es : List Entry)
    → (arr ≡ true → k.text ≡ [])
    → Leaf b.m_data arr a es
    → get_impl b a k.text k.hash arr ≡ ok (found arr (lookup k es))
unfolding get_impl
get_impl-Leaf b arr a k es array leaf =
    ap (λ n. get_loop k.hash k.text arr n b.m_data a) {y = suc (2 * b.m_used_size + 3)}
      (omega arith)
    ∙ get_loop-Leaf b.m_data arr a k array es leaf (2 * b.m_used_size + 3)
