-- ===== src/Buffer/Object/New.antt =====
-- The object or array that `init_structure` makes: a leaf without keys.
use lite3_cpp.Base.{ℕ, ◌+◌, ◌*◌, ◌%◌, ◌^◌, ◌≤◌, ◌<◌, ◌≡◌, refl, ◌∙◌, subst, Bool, [], arith}
use lite3_cpp.Memory.{Memory, clear, store32, write}
use lite3_cpp.Memory.Frame.{load32-clear}
use lite3_cpp.Node.{
  Tag, code, of_code, node_size, generation, tag, size, key_count, get_child_offset, set_gen_type,
}
use lite3_cpp.Node.Laws.{key_count_lem, size_lem}
use lite3_cpp.Node.Fields.{
  key_count-set_gen_type, get_child_offset-set_gen_type, generation-set_gen_type, tag-set_gen_type,
  size-set_gen_type,
}
use lite3_cpp.Buffer.State.{Buffer, ensure_capacity, init_structure}
use lite3_cpp.Buffer.State.Capacity.{used-ensure_capacity, ensure_capacity-fits}
use lite3_cpp.Buffer.Insert.Leaf.{LeafIn}

module _ (b : Buffer) (t : Tag) where
  abbrev grown : Buffer
  grown = ensure_capacity b node_size

  abbrev cleared : Memory
  cleared = clear grown.m_data grown.m_used_size node_size

  abbrev root : ℕ
  root = grown.m_used_size

  count_zero : key_count (set_gen_type cleared root 1 t) root ≡ 0
  count_zero =
      key_count-set_gen_type cleared root 1 t
      ∙ key_count_lem cleared root
      ∙ omega
          (arith, load32-clear grown.m_data root node_size (root + 32) (omega arith) (omega arith))

  size_zero : size (set_gen_type cleared root 1 t) root ≡ 0
  size_zero =
      size-set_gen_type cleared root 1 t
      ∙ size_lem cleared root
      ∙ omega
          (arith, load32-clear grown.m_data root node_size (root + 32) (omega arith) (omega arith))

  child_zero : (j : ℕ) → j < 8 → get_child_offset (set_gen_type cleared root 1 t) root j ≡ 0
  unfolding get_child_offset
  child_zero j h =
      get_child_offset-set_gen_type cleared root 1 t j
      ∙ load32-clear grown.m_data root node_size (root + 64 + 4 * j) (omega arith) (omega arith)

  abbrev made : Buffer
  made = record { m_data = set_gen_type cleared root 1 t; m_used_size = root + node_size }

  made-LeafIn : (arr : Bool) → LeafIn made arr root []
  made-LeafIn arr = record {
    leaf = record {
      keys = record {
        count = count_zero;
        hashes = λ j h. omega arith;
        addresses = λ j h. omega arith;
        held = λ j h. absurd (omega arith);
      };
      room = omega arith;
      bottom = child_zero;
    };
    fits = fits_in;
    node_in = omega arith;
    apart = λ j h. absurd (omega arith);
    below = λ j h. omega arith;
  }
    where
      fits_in : root + node_size ≤ (set_gen_type cleared root 1 t).size
      fits_in =
          unfold set_gen_type store32 clear write in
          omega (arith, ensure_capacity-fits b node_size, used-ensure_capacity b node_size)

  -- `init_structure` makes, at the end of the used bytes of any buffer, a leaf without keys, of
  -- generation 1, size 0 and the given type's byte, and the used bytes grow by one node.
  pub init_structure-LeafIn :
      (arr : Bool)
      → LeafIn (init_structure b t) arr b.m_used_size []
        × (generation (init_structure b t).m_data b.m_used_size ≡ 1)
        × (tag (init_structure b t).m_data b.m_used_size ≡ of_code (code t % 2 ^ 8))
        × (size (init_structure b t).m_data b.m_used_size ≡ 0)
        × ((init_structure b t).m_used_size ≡ b.m_used_size + node_size)
  unfolding init_structure
  init_structure-LeafIn arr =
      subst
        (λ x.
          LeafIn made arr x []
          × (generation made.m_data x ≡ 1)
          × (tag made.m_data x ≡ of_code (code t % 2 ^ 8))
          × (size made.m_data x ≡ 0)
          × (made.m_used_size ≡ x + node_size))
        (used-ensure_capacity b node_size)
        (
          made-LeafIn arr,
          generation-set_gen_type cleared root 1 t,
          tag-set_gen_type cleared root 1 t,
          size_zero,
          refl,
        )
