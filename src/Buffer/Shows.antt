-- ===== src/Buffer/Shows.antt =====
-- What the getters need of an object or an array: a list of entries that its searches answer from.
use lite3_cpp.Base.{ℕ, ◌≡◌, subst, Bool, true, List, [], some}
use lite3_cpp.Outcome.{ok}
use lite3_cpp.Buffer.State.{Buffer}
use lite3_cpp.Buffer.Compare.Order.{Key}
use lite3_cpp.Buffer.Search.{get_impl}
use lite3_cpp.Buffer.Search.Table.{Entry, lookup}
use lite3_cpp.Buffer.Search.Held.{Held, lookup-nth}
use lite3_cpp.Buffer.Search.Leaf.{found, get_impl-Leaf}
use lite3_cpp.Buffer.Insert.Leaf.{LeafIn}

-- The node at `a` answers as the list does, and what it finds lies in memory.
pub record Shows (b : Buffer) (arr : Bool) (a : ℕ) (es : List Entry) : Type 0 where
  pub answers :
      (k : Key)
      → (arr ≡ true → k.text ≡ [])
      → get_impl b a k.text k.hash arr ≡ ok (found arr (lookup k es))
  pub lies :
      (k : Key) (e : Entry)
      → (arr ≡ true → k.text ≡ [])
      → lookup k es ≡ some e
      → Held b.m_data arr e

pub LeafIn-Shows :
    (b : Buffer) (arr : Bool) (a : ℕ) (es : List Entry) → LeafIn b arr a es → Shows b arr a es
LeafIn-Shows b arr a es inv = record {
  answers = λ k array. get_impl-Leaf b arr a k es array inv.leaf;
  lies = λ k e array h.
      let there = lookup-nth b.m_data arr a k array es inv.leaf.keys e h in
      subst (Held b.m_data arr) there.1 (inv.leaf.keys.held _ there.0);
}
