-- ===== src/Tests/Runs.antt =====
-- Runs of the setters and getters that end in a split of the root.
use lite3_cpp.Base.{ℕ, List, [], ◌∷◌, ◌≡◌, refl}
use lite3_cpp.Outcome.{Outcome, ok, ◌>>=◌}
use lite3_cpp.Buffer.State.{Buffer, new, init_object, ensure_capacity, grown_size, init_structure}
use lite3_cpp.Buffer.Object.{set_str, get_str, find_key, set_value}
use lite3_cpp.Buffer.Compare.{compare_node_key, compare_text}
use lite3_cpp.Buffer.Entry.{
  existing_len, key_len, key_tag_size, value_len, value_offset, write_data, write_key, write_value,
}
use lite3_cpp.Buffer.Insert.{append_entry, insert_leaf, insert_slot, move_key, shift_keys}
use lite3_cpp.Buffer.Search.{get_impl, get_loop, matches, scan}
use lite3_cpp.Buffer.Set.{
  search_round, set_impl, set_loop, set_round, split_inner, split_round, touch,
}
use lite3_cpp.Buffer.Split.{find_child, make_room, move_keys, shift_up, split_child, split_root}
use lite3_cpp.Buffer.Update.{overwrite, replace_entry, update_key}
use lite3_cpp.Hash.{djb2_from, djb2_hash}
use lite3_cpp.Memory.{
  clear, copy, load32, read_bytes, resize, store32, store8, store_bytes, write, zeros,
}
use lite3_cpp.Node.{
  code, generation, get_child_offset, get_hash, get_kv_offset, key_count, of_code, set_child_offset,
  set_gen_type, set_hash, set_key_count, set_kv_offset, set_size_kc, size, tag,
}

abbrev put : ℕ → ℕ → Buffer → Outcome Buffer
put c v b = set_str b 0 (c ∷ []) (v ∷ [])

abbrev get : ℕ → Buffer → Outcome (List ℕ)
get c b = get_str b 0 (c ∷ [])

-- Seven members fill the root.
abbrev seven : Outcome Buffer
seven = do
  b₁ ← put b'a' 1 (init_object new)
  b₂ ← put b'b' 2 b₁
  b₃ ← put b'c' 3 b₂
  b₄ ← put b'd' 4 b₃
  b₅ ← put b'e' 5 b₄
  b₆ ← put b'f' 6 b₅
  put b'g' 7 b₆

-- An eighth member splits the root, and the members are found in both halves and between them.
split_run : Outcome (List ℕ)
split_run = do b ← seven; b' ← put b'h' 8 b; x ← get b'a' b'; y ← get b'd' b'; get b'h' b'

-- A value for the middle member of a full root is written below it, and the old value is read.
lost_update : Outcome (List ℕ)
lost_update = do b ← seven; b' ← put b'd' 9 b; get b'd' b'

runs : (split_run ≡ ok (8 ∷ [])) × (lost_update ≡ ok (4 ∷ []))
unfolding split_run lost_update set_str get_str new init_object set_impl key_count load32
    set_gen_type store32 clear matches scan get_child_offset insert_leaf resize key_len value_len
    compare_node_key compare_text existing_len key_tag_size value_offset write_data write_key
    write_value append_entry insert_slot move_key shift_keys find_key set_value get_impl get_loop
    search_round set_loop set_round split_inner split_round touch find_child make_room move_keys
    shift_up split_child split_root ensure_capacity grown_size init_structure overwrite
    replace_entry update_key djb2_from djb2_hash copy read_bytes store8 store_bytes write zeros code
    generation get_hash get_kv_offset of_code set_child_offset set_hash set_key_count set_kv_offset
    set_size_kc size tag
runs = (refl, refl)
