-- ===== src/Iterator/Stale.antt =====
-- An iterator after the buffer has been written to.
use lite3_cpp.Base.{
  ◌+◌, ◌/◌, ◌%◌, ◌^◌, ◌<◌, ◌≡◌, sym, ◌∙◌, ap, true, false, List, none, arith, ◌==◌, length,
}
use lite3_cpp.Node.{generation}
use lite3_cpp.Node.Laws.{generation_lem}
use lite3_cpp.Outcome.{ok, throws}
use lite3_cpp.Buffer.State.{Buffer}
use lite3_cpp.Buffer.Search.Table.{Entry, lookup}
use lite3_cpp.Buffer.Search.Held.{value_at}
use lite3_cpp.Buffer.Insert.Leaf.{LeafIn, IsNew}
use lite3_cpp.Buffer.Insert.Placed.{first_word-after}
use lite3_cpp.Buffer.Set.{touch, set_impl}
use lite3_cpp.Buffer.Set.Touch.{touch-LeafIn, generation-touch}
use lite3_cpp.Buffer.Set.Leaf.{with_key, set_impl-new}
use lite3_cpp.Iterator.{Iterator, no_iterator, is_stale, deref, find_next, equals}

-- A root at 0 that is a leaf with room, and a new entry.
module _ (b : Buffer) (es : List Entry) (e : Entry) (inv : LeafIn b false 0 es)
    (room : length es < 7) (new : IsNew false e) (out : lookup e.key es ≡ none)
    (at_end : e.address ≡ b.m_used_size) (addressable : e.address < 2 ^ 32) where
  abbrev b' : Buffer
  b' = with_key b false 0 es e inv room new out at_end addressable

  generation-new : generation b'.m_data 0 ≡ (generation b.m_data 0 + 1) % 2 ^ 24
  generation-new =
      let touched : Buffer = record b { m_data = touch b.m_data 0 } in
      generation_lem b'.m_data 0
      ∙ ap (λ w. w / 2 ^ 8 % 2 ^ 24)
          (first_word-after touched false 0 es e (touch-LeafIn b false 0 es inv) room new out at_end
            addressable)
      ∙ sym (generation_lem touched.m_data 0)
      ∙ generation-touch b.m_data 0

  stale :
      (it : Iterator)
      → it.m_initial_buffer_generation ≡ generation b.m_data 0
      → is_stale b' it ≡ true
  stale it before = ground (arith, generation-new, generation_lem b.m_data 0)

  some_data : (b'.m_data.size == 0) ≡ false
  some_data =
      let leaf = (set_impl-new b false 0 es e inv room new out at_end addressable).1 in
      ground (arith, leaf.fits, leaf.node_in)

  -- When the root at 0 is a leaf of fewer than seven keys whose entries lie in the used bytes, and
  -- `set_impl` puts a new entry (`IsNew`) at their end, below 2^32, whose key is not found in the
  -- leaf: the call returns, and for every iterator that points to the buffer with the generation
  -- that the root had before it, `operator*` throws that the buffer was modified, and `operator++`
  -- makes it equal to `end`.
  pub deref-set_impl :
      (it : Iterator)
      → it.m_buffer ≡ true
      → it.m_initial_buffer_generation ≡ generation b.m_data 0
      → (set_impl b 0 e.key.text e.key.hash e.val e.type false ≡ ok (value_at false e, b'))
        × (deref b' it ≡ throws "Iterator invalidated: Buffer modified during iteration.")
        × ((find_next b' it).m_buffer ≡ false)
        × (equals b' (find_next b' it) no_iterator ≡ true)
  unfolding deref find_next equals
  deref-set_impl it live before = (
    (set_impl-new b false 0 es e inv room new out at_end addressable).0,
    simp (live, some_data, stale it before),
    simp (live, some_data, stale it before),
    simp (live, some_data, stale it before),
  )
