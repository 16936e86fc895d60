-- ===== src/Buffer/Set/Touch.antt =====
-- The new generation of a node on the path changes nothing that the search reads.
use lite3_cpp.Base.{ℕ, ◌+◌, ◌%◌, ◌^◌, ◌≡◌, refl, ◌∙◌, ◌<◌, Bool, List, length}
use lite3_cpp.Memory.{Memory, store32}
use lite3_cpp.Memory.Laws.{SameOutside}
use lite3_cpp.Memory.Frame.{SameOn-outside}
use lite3_cpp.Node.{set_gen_type, get_child_offset, generation, tag, key_count, node_size}
use lite3_cpp.Node.Fields.{
  key_count-set_gen_type, get_hash-set_gen_type, get_kv_offset-set_gen_type,
  get_child_offset-set_gen_type, generation-set_gen_type,
}
use lite3_cpp.Node.Frame.{set_gen_type-outside}
use lite3_cpp.Buffer.State.{Buffer}
use lite3_cpp.Buffer.Search.Table.{Entry, nth}
use lite3_cpp.Buffer.Search.Held.{Keys, entry_size}
use lite3_cpp.Buffer.Search.Frame.{Held-same}
use lite3_cpp.Buffer.Insert.Leaf.{Apart, LeafIn}
use lite3_cpp.Buffer.Set.{touch}

module _ (m : Memory) (a : ℕ) where
  pub touch-outside : SameOutside a node_size m (touch m a)
  unfolding touch
  touch-outside = set_gen_type-outside m a (generation m a + 1) (tag m a)

  pub key_count-touch : key_count (touch m a) a ≡ key_count m a
  unfolding touch
  key_count-touch = key_count-set_gen_type m a (generation m a + 1) (tag m a)

  pub get_child_offset-touch : (j : ℕ) → get_child_offset (touch m a) a j ≡ get_child_offset m a j
  unfolding touch
  get_child_offset-touch = get_child_offset-set_gen_type m a (generation m a + 1) (tag m a)

  pub size-touch : (touch m a).size ≡ m.size
  unfolding touch set_gen_type store32
  size-touch = refl

  -- The generation counts the writes that pass through the node, modulo 2^24.
  pub generation-touch : generation (touch m a) a ≡ (generation m a + 1) % 2 ^ 24
  unfolding touch
  generation-touch = generation-set_gen_type m a (generation m a + 1) (tag m a)

  pub touch-Keys :
      (arr : Bool) (es : List Entry)
      → ((j : ℕ) → j < length es → Apart (nth es j).address (entry_size arr (nth es j)) a node_size)
      → Keys m arr a es
      → Keys (touch m a) arr a es
  unfolding touch
  touch-Keys arr es apart keys =
      let g = generation m a + 1 in
      let t = tag m a in
      record {
        count = key_count-set_gen_type m a g t ∙ keys.count;
        hashes = λ j h. get_hash-set_gen_type m a g t j ∙ keys.hashes j h;
        addresses = λ j h. get_kv_offset-set_gen_type m a g t j ∙ keys.addresses j h;
        held = λ j h.
            let d = nth es j in
            Held-same m (touch m a) arr d
              (SameOn-outside a node_size d.address (entry_size arr d) m (touch m a) (apart j h)
                touch-outside)
              (keys.held j h);
      }

pub touch-LeafIn :
    (b : Buffer) (arr : Bool) (a : ℕ) (es : List Entry)
    → LeafIn b arr a es
    → LeafIn (record b { m_data = touch b.m_data a }) arr a es
touch-LeafIn b arr a es inv = record {
  leaf = record {
    keys = touch-Keys b.m_data a arr es inv.apart inv.leaf.keys;
    room = inv.leaf.room;
    bottom = λ j h. get_child_offset-touch b.m_data a j ∙ inv.leaf.bottom j h;
  };
  fits = rw (size-touch b.m_data a) inv.fits;
  node_in = inv.node_in;
  apart = inv.apart;
  below = inv.below;
}
