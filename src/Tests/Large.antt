-- ===== src/Tests/Large.antt =====
-- The theorems on trees, objects and arrays of many nodes, at ones of more than seven entries.
use lite3_cpp.Base.{
  ℕ, ◌+◌, ◌≤◌, ◌≡◌, refl, sym, ◌∙◌, ap, subst, true, List, [], ◌∷◌, some, arith, if◌then◌else◌,
}
use lite3_cpp.Node.{string, array, code, of_code}
use lite3_cpp.Outcome.{ok, ◌>>=◌}
use lite3_cpp.Buffer.State.{Buffer, new, init_array, init_structure}
use lite3_cpp.Buffer.Entry.{value_len}
use lite3_cpp.Buffer.Compare.Order.{Key, compare_keys}
use lite3_cpp.Buffer.Search.{is_eq, get_impl}
use lite3_cpp.Buffer.Search.Table.{Entry}
use lite3_cpp.Buffer.Search.Held.{value_at}
use lite3_cpp.Buffer.Insert.Leaf.{IsNew}
use lite3_cpp.Buffer.Tree.{Tree, Trees, node, height, entries}
use lite3_cpp.Buffer.Tree.Order.{IsSorted}
use lite3_cpp.Buffer.Tree.Grows.{Stored}
use lite3_cpp.Buffer.Tree.PutIn.{HashFree}
use lite3_cpp.Buffer.Tree.Portion.{Tree-parts}
use lite3_cpp.Buffer.Set.{set_impl}
use lite3_cpp.Buffer.Set.Puts.{placed}
use lite3_cpp.Buffer.Set.Visit.{Ready}
use lite3_cpp.Buffer.Set.Raised.{Sets}
use lite3_cpp.Buffer.Set.Refines.{set_impl-Tree, get_impl-set_impl_tree}
use lite3_cpp.Buffer.Map.{IsMap}
use lite3_cpp.Buffer.Array.{arr_get_str}
use lite3_cpp.Buffer.Array.Leaf.{index}
use lite3_cpp.Buffer.Array.Many.{append_all, element_of, Short}
use lite3_cpp.Buffer.Map.{IsMap-eight}
use lite3_cpp.Buffer.Array.Sized.{IsSeq, free_above}
use lite3_cpp.Buffer.Array.Fill.{
  room_for, append_all-returns, init_structure-IsSeq, arr_get_str-append_all_any,
}

abbrev nine : List (List ℕ)
nine =
    (1 ∷ [])
    ∷ (2 ∷ [])
    ∷ (3 ∷ [])
    ∷ (4 ∷ [])
    ∷ (5 ∷ [])
    ∷ (6 ∷ [])
    ∷ (7 ∷ [])
    ∷ (8 ∷ [])
    ∷ (9 ∷ [])
    ∷ []

nine-Short : Short nine
nine-Short = (
  omega arith,
  (
    omega arith,
    (
      omega arith,
      (omega arith, (omega arith, (omega arith, (omega arith, (omega arith, (omega arith, tt)))))),
    ),
  ),
)

nine_room : room_for 1 nine ≡ 6300
unfolding room_for value_len
nine_room = refl

new_used : new.m_used_size ≡ 0
unfolding new
new_used = refl

made_used : (init_structure new array).m_used_size ≡ 96
unfolding new init_structure
made_used = refl

arr_get_str-append_all_any_example :
    (do b ← append_all (init_array new) new.m_used_size nine; arr_get_str b new.m_used_size 8)
    ≡ ok (9 ∷ [])
unfolding element_of
arr_get_str-append_all_any_example =
    arr_get_str-append_all_any new nine nine-Short (omega (arith, nine_room, new_used)) 8

-- The array of the nine strings.
appended :
    (b' : Buffer) × (es' : List Entry) × (append_all (init_structure new array) new.m_used_size nine
      ≡ ok b')
    × IsSeq b' new.m_used_size es' (1 + 9) (0 + 9)
    × (b'.m_used_size ≤ (init_structure new array).m_used_size + room_for 1 nine)
appended =
    append_all-returns new.m_used_size nine (init_structure new array) [] 1 0
      (init_structure-IsSeq new) (omega arith) nine-Short (omega (arith, nine_room, made_used))

abbrev b₉ : Buffer
b₉ = appended.0

map₉ : IsMap b₉ true new.m_used_size appended.1 10
map₉ = appended.3.map

tenth : Entry
tenth = record { key = index 9; address = 0; type = string; val = 10 ∷ [] }

tenth-IsNew : IsNew true tenth
unfolding tenth code of_code
tenth-IsNew = record {
  hash_fits = omega arith;
  small = omega arith;
  array = λ x. refl;
  known = refl;
  sized = λ x. cc;
  type_fits = omega arith;
  val_fits = omega arith;
}

abbrev root : ℕ × List Entry × Trees
root = ((Tree-parts map₉.tree).0, (Tree-parts map₉.tree).1, (Tree-parts map₉.tree).2)

abbrev t₉ : Tree
t₉ = node root.0 root.1 root.2

is₉ : map₉.tree ≡ t₉
is₉ = (Tree-parts map₉.tree).3

low₉ : height t₉ ≤ 10
low₉ = subst (λ t. height t ≤ 10) is₉ map₉.low

levels₉ : height t₉ ≤ b₉.m_used_size
levels₉ = subst (λ t. height t ≤ b₉.m_used_size) is₉ map₉.levels

eight₉ : height t₉ ≤ 8
eight₉ =
    subst (λ t. height t ≤ 8) is₉
      (IsMap-eight b₉ true new.m_used_size appended.1 10 map₉ (omega (arith, appended.3.many)))

used₉ : b₉.m_used_size ≤ 6396
used₉ = omega (arith, appended.4, made_used, nine_room)

ready₉ : Ready true tenth b₉ t₉ (height t₉ + 2)
unfolding tenth value_len
ready₉ =
    let same : entries t₉ ≡ appended.1 = ap entries (sym is₉) ∙ map₉.listed in
    record {
      stored = subst (Stored b₉ true) is₉ map₉.stored;
      sorted = subst IsSorted (sym same) map₉.sorted;
      free =
          subst (HashFree 9) (sym same) (free_above appended.1 9 9 (omega arith) appended.3.below);
      space = omega (arith, low₉, used₉);
    }

set_impl-Tree_example :
    (b' : Buffer) × (t' : Tree) × (at : ℕ) × (set_impl b₉ root.0 [] 9 (10 ∷ []) string true
      ≡ ok (value_at true (placed tenth at), b'))
    × Sets b₉ b' true t₉ t' (placed tenth at)
unfolding tenth
set_impl-Tree_example =
    set_impl-Tree b₉ true root.0 root.1 root.2 tenth tenth-IsNew ready₉ levels₉ eight₉

get_impl-set_impl_tree_example :
    (b' : Buffer) × (at : ℕ) × (set_impl b₉ root.0 [] 9 (10 ∷ []) string true
      ≡ ok (value_at true (placed tenth at), b'))
    × ((k : Key)
        → (true ≡ true → k.text ≡ [])
        → get_impl b' root.0 k.text k.hash true ≡ (
            if is_eq (compare_keys (index 9) k)
            then ok (some (value_at true (placed tenth at) + 1, string))
            else get_impl b₉ root.0 k.text k.hash true))
unfolding tenth
get_impl-set_impl_tree_example =
    get_impl-set_impl_tree b₉ true root.0 root.1 root.2 tenth tenth-IsNew ready₉ levels₉ eight₉
