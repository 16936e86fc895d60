-- ===== src/Tests/Whole.antt =====
-- The theorems on the walk and the text of an object that was filled, at one of eight members.
use lite3_cpp.Base.{◌+◌, ◌≡◌, false, List, [], ◌∷◌, length, arith}
use mathlib.Core.List.{map}
use lite3_cpp.Node.Head.{SameHead}
use lite3_cpp.Outcome.{ok, ◌>>=◌}
use lite3_cpp.Buffer.State.{Buffer, new, init_object}
use lite3_cpp.Buffer.Compare.Order.{compare_keys}
use lite3_cpp.Buffer.Search.Table.{Entry}
use lite3_cpp.Buffer.Map.{IsMap}
use lite3_cpp.Buffer.Object.Many.{put_all}
use lite3_cpp.Buffer.Object.Fill.{NewHashes-nothing}
use lite3_cpp.Buffer.Object.Arranged.{arrange, put_member, Lists, put_all-Lists}
use lite3_cpp.Iterator.{begin, items}
use lite3_cpp.Iterator.Step.{item}
use lite3_cpp.Iterator.Maps.{items-IsMap}
use lite3_cpp.Json.Print.{until_null, to_json_string}
use lite3_cpp.Json.Filled.{to_json_string-put_all}
use lite3_cpp.Hash.{djb2_hash, djb2_from}
use lite3_cpp.Tests.Trees.{plain}
use lite3_cpp.Tests.Filled.{
  eight_members, eight-DistinctHashes, eight-Short, eight_room, made, made_used, map₀,
}

to_json_string-put_all_example :
    (do b ← put_all (init_object new) 0 eight_members; to_json_string plain 9 b 0)
    ≡ ok
        (b'a' ∷ 1 ∷ b'b' ∷ 2 ∷ b'c' ∷ 3 ∷ b'd' ∷ 4 ∷ b'e' ∷ 5 ∷ b'f' ∷ 6 ∷ b'g' ∷ 7 ∷ b'h' ∷ 8 ∷ [])
unfolding arrange put_member compare_keys djb2_hash djb2_from until_null
to_json_string-put_all_example =
    to_json_string-put_all plain eight_members eight-DistinctHashes eight-Short
      (omega (arith, eight_room)) 9 (omega arith)

filled :
    (b' : Buffer) × (es' : List Entry) × (put_all made new.m_used_size eight_members ≡ ok b')
    × IsMap b' false new.m_used_size es' (1 + length eight_members)
    × Lists es' (arrange eight_members [])
    × (length es' ≡ 0 + length eight_members)
    × SameHead made.m_data b'.m_data new.m_used_size
filled =
    put_all-Lists new.m_used_size eight_members made [] 1 [] map₀ eight-DistinctHashes eight-Short
      (NewHashes-nothing eight_members) (omega arith) (omega (arith, eight_room, made_used)) tt

items-IsMap_example : items filled.0 9 (begin filled.0 new.m_used_size) ≡ ok (map item filled.1)
items-IsMap_example =
    items-IsMap filled.0 new.m_used_size filled.1 9 filled.3 (omega (arith, filled.5)) 9
      (omega (arith, filled.5))
