-- ===== src/Tests/Trees.antt =====
-- The theorems on trees, at a root with one member that is raised to two levels.
use lite3_cpp.Base.{
  ℕ, zero, suc, if◌then◌else◌, ◌+◌, ◌≤◌, ◌<◌, ◌≡◌, refl, true, false, List, [], ◌∷◌, ◌++◌, none,
  some, arith, size_max,
}
use lite3_cpp.Hash.{djb2_hash, djb2_from}
use lite3_cpp.Outcome.{ok, throws}
use lite3_cpp.Memory.{write}
use lite3_cpp.Buffer.Set.{touch}
use lite3_cpp.Node.{generation}
use lite3_cpp.Node.{string, tag, size, node_size}
use lite3_cpp.Buffer.State.{Buffer}
use lite3_cpp.Buffer.Compare.Order.{Key, compare_keys, compare_lists}
use lite3_cpp.Buffer.Entry.{value_len}
use lite3_cpp.Buffer.Search.{get_impl}
use lite3_cpp.Buffer.Search.Table.{lookup, nth}
use lite3_cpp.Buffer.Search.Held.{value_at}
use lite3_cpp.Buffer.Object.Leaf.{member}
use lite3_cpp.Buffer.Tree.{Tree, node, nil, entries, height}
use lite3_cpp.Buffer.Tree.Held.{TreeAt, ValuesBelow}
use lite3_cpp.Buffer.Tree.Frame.{SpansOf}
use lite3_cpp.Buffer.Tree.Order.{IsSorted, get_impl-entries}
use lite3_cpp.Buffer.Split.{align_up}
use lite3_cpp.Buffer.Set.{replace, split_round, touch, set_impl}
use lite3_cpp.Buffer.Set.Root.{InUsed, raised, raised_buffer, split_round-root}
use lite3_cpp.Iterator.{Iterator, no_iterator, begin, items, deref, find_next, equals}
use lite3_cpp.Iterator.Stale.{deref-set_impl}
use lite3_cpp.Iterator.Walk.{items-begin}
use lite3_cpp.Iterator.Step.{item}
use lite3_cpp.Json.{Yyjson, ValType}
use lite3_cpp.Tests.Objects.{
  a_text, a_entry, one, one_leaf, empty, empty_leaf, a_entry-IsNew, nothing, at_end,
}

root_held : TreeAt one.m_data false (node 0 (a_entry ∷ []) nil)
unfolding TreeAt
root_held = (one_leaf.leaf.keys, one_leaf.leaf.room, one_leaf.leaf.bottom, tt)

one_used : one.m_used_size ≡ 106
unfolding value_len
one_used = refl

low : height (node 0 (a_entry ∷ []) nil) < 216
unfolding height
low = omega arith

-- Two levels: the member below an empty root.
abbrev two : Buffer
two = raised_buffer one 0

abbrev two_levels : Tree
two_levels = raised one 0 (a_entry ∷ []) nil

no_children : SpansOf (InUsed one 0) false nil
unfolding SpansOf
no_children = tt

split_round-root_example :
    (split_round [] 0 [] string false one size_max 0 ≡ replace 0 (align_up one.m_used_size) two)
    × TreeAt two.m_data false two_levels
    × (generation two.m_data 0 ≡ 1)
    × (tag two.m_data 0 ≡ tag one.m_data 0)
    × (size two.m_data 0 ≡ size one.m_data 0)
    × (two.m_used_size ≡ align_up one.m_used_size + node_size)
    × (two.m_used_size ≤ two.m_data.size)
    × ((k : Key)
        → (false ≡ true → k.text ≡ [])
        → get_impl two 0 k.text k.hash false ≡ get_impl one 0 k.text k.hash false)
split_round-root_example =
    split_round-root one false 0 (a_entry ∷ []) nil one_leaf.fits one_leaf.node_in
      (omega (arith, one_used)) root_held (λ j p. (one_leaf.apart j p, one_leaf.below j p))
      no_children [] 0 [] string (omega (arith, one_used, low))

-- What the theorem says of the two levels.
two_held : TreeAt two.m_data false two_levels × (204 ≤ two.m_data.size)
two_held =
    let all =
      split_round-root one false 0 (a_entry ∷ []) nil one_leaf.fits one_leaf.node_in
        (omega (arith, one_used)) root_held (λ j p. (one_leaf.apart j p, one_leaf.below j p))
        no_children [] 0 [] string (omega (arith, one_used, low)) in
    (all.1, omega (arith, all.5, all.6, one_used))

two_flat : height two_levels ≤ 2
unfolding height
two_flat = omega arith

sorted : IsSorted (entries two_levels)
unfolding entries IsSorted
sorted = (tt, tt)

get_impl-entries_example : get_impl two 0 a_text (djb2_hash a_text) false ≡ ok (some (100, string))
unfolding entries lookup compare_keys compare_lists djb2_hash djb2_from
get_impl-entries_example =
    get_impl-entries two false two_levels (member a_text) (λ h. cc) two_held.0 sorted
      (omega (arith, two_flat))

inside : ValuesBelow two.m_data.size two_levels
unfolding ValuesBelow
inside = (λ j p. absurd (omega arith), ((value_inside, tt), tt))
  where
    value_inside : (j : ℕ) → j < 1 → value_at false (nth (a_entry ∷ []) j) < two.m_data.size
    value_inside zero p = omega (arith, two_held.1)
    value_inside (suc j) p = absurd (omega arith)

items-begin_example : items two 2 (begin two 0) ≡ ok (item a_entry ∷ [])
unfolding entries
items-begin_example =
    items-begin two (omega (arith, two_held.1)) two_levels 2 two_held.0 inside
      (omega (arith, two_flat)) (omega arith)

-- A library that writes its values as they are given, without signs between them.
abbrev pub plain : Yyjson
plain = record {
  Val = Unit;
  read = λ s. none;
  get_type = λ v. ValType.type_null;
  get_bool = λ v. false;
  is_int = λ v. false;
  get_int = λ v. [];
  get_real = λ v. [];
  get_str = λ v. [];
  arr_items = λ v. [];
  obj_members = λ v. [];
  MutVal = List ℕ;
  mut_null = b'n' ∷ [];
  mut_bool = λ v. if v then b't' ∷ [] else b'f' ∷ [];
  mut_int = λ v. v;
  mut_real = λ v. v;
  mut_str = λ v. v;
  mut_obj = [];
  mut_arr = [];
  obj_add = λ obj key val. obj ++ (key ++ val);
  arr_add = λ arr val. arr ++ val;
  write = λ v. some v;
}

-- An iterator that is made before the member is put.
abbrev early : Iterator
early = record no_iterator {
  m_buffer = true;
  m_initial_buffer_generation = generation empty.m_data 0;
  m_stack = (0, 0) ∷ [];
}

deref-set_impl_example :
    (set_impl empty 0 a_text (djb2_hash a_text) (7 ∷ []) string false ≡ ok (99, one))
    × (deref one early ≡ throws "Iterator invalidated: Buffer modified during iteration.")
    × ((find_next one early).m_buffer ≡ false)
    × (equals one (find_next one early) no_iterator ≡ true)
deref-set_impl_example =
    deref-set_impl empty [] a_entry empty_leaf (omega arith) a_entry-IsNew (nothing (member a_text))
      at_end (omega arith) early refl refl
