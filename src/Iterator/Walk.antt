-- ===== src/Iterator/Walk.antt =====
-- The walk of an iterator over a tree.
use lite3_cpp.Base.{
  ℕ, zero, suc, ◌<◌, ◌≤◌, ◌≡◌, refl, ◌∙◌, subst, true, false, List, [], ◌∷◌, ◌++◌, arith, length,
  ◌==◌, leb,
}
use lite3_cpp.Node.{generation, key_count}
use lite3_cpp.Outcome.{ok}
use lite3_cpp.Buffer.State.{Buffer}
use lite3_cpp.Buffer.Search.Table.{Entry}
use lite3_cpp.Buffer.Tree.{Tree, Trees, nil, cons, address, height, entries, weave}
use lite3_cpp.Buffer.Tree.Held.{TreeAt, ValuesBelow}
use lite3_cpp.Iterator.{Iterator, no_iterator, find_key, find_next, deref, equals, begin, items}
use mathlib.Core.List.{append-nil, map}
use lite3_cpp.Iterator.Frames.{Frame, positions, remaining, FramesAt, descend-FramesAt}
use lite3_cpp.Iterator.Step.{item, IsAt, fresh, read_key-item, find_first-descend, go_on-IsAt}

-- The iterator is at the first of the entries, or at the end if there is none.
abbrev pub Walked : Buffer → Iterator → List Entry → Type 0
Walked b it [] = it.m_buffer ≡ false
Walked b it (e ∷ es) = IsAt b it e es

module _ (b : Buffer) (some_data : 0 < b.m_data.size) where
  abbrev IsLive : Iterator → Type 0
  IsLive it = (it.m_buffer ≡ true) × (it.m_initial_buffer_generation ≡ generation b.m_data 0)

  -- At the node on top: its next entry, or else the nodes below it.
  find_key-Frame :
      (it : Iterator) (a i : ℕ) (es : List Entry) (ts : Trees) (fs : List Frame)
      → IsLive it
      → FramesAt b.m_data (record { at = a; index = i; es = es; ts = ts } ∷ fs)
      → ((it' : Iterator) → IsLive it' → Walked b (find_key b it' (positions fs)) (remaining fs))
      → Walked b (find_key b it ((a, i) ∷ positions fs)) (weave es ts ++ remaining fs)
  unfolding find_key entries
  find_key-Frame it a i [] nil fs live frames below =
      let over : leb (key_count b.m_data a) i ≡ true = ground (arith, frames.0) in
      rw over (below (record it { m_stack = positions fs }) live)
  find_key-Frame it a i [] (cons t ts) fs live frames below =
      let over : leb (key_count b.m_data a) i ≡ true = ground (arith, frames.0) in
      rw over (below (record it { m_stack = positions fs }) live)
  find_key-Frame it a i (e ∷ es) nil fs live frames below =
      let more : leb (key_count b.m_data a) i ≡ false = ground (arith, frames.0) in
      rw (more, read_key-item b it live.0 live.1 a i e (positions fs) frames.1.0)
        (go_on-IsAt b (record it { m_current_value = item e }) live.0 live.1 some_data a i e es fs
          refl nil frames)
  find_key-Frame it a i (e ∷ es) (cons t ts) fs live frames below =
      let more : leb (key_count b.m_data a) i ≡ false = ground (arith, frames.0) in
      rw (more, read_key-item b it live.0 live.1 a i e (positions fs) frames.1.0)
        (go_on-IsAt b (record it { m_current_value = item e }) live.0 live.1 some_data a i e es fs
          refl (cons t ts) frames)

  find_key-Walked :
      (fs : List Frame) (it : Iterator)
      → IsLive it
      → FramesAt b.m_data fs
      → Walked b (find_key b it (positions fs)) (remaining fs)
  unfolding find_key
  find_key-Walked [] it live frames = refl
  find_key-Walked (f ∷ fs) it live frames =
      find_key-Frame it f.at f.index f.es f.ts fs live frames
        (λ it' live'. find_key-Walked fs it' live' frames.3)

  find_next-Walked :
      (fs : List Frame) (it : Iterator)
      → IsLive it
      → it.m_stack ≡ positions fs
      → FramesAt b.m_data fs
      → Walked b (find_next b it) (remaining fs)
  unfolding find_next
  find_next-Walked fs it live stack frames =
      let data_there : (b.m_data.size == 0) ≡ false = ground arith in
      simp (live.0, data_there, fresh b it live.0 live.1, stack) (find_key-Walked fs it live frames)

  -- `operator++` goes to the next entry.
  find_next-IsAt :
      (it : Iterator) (e : Entry) (es : List Entry) → IsAt b it e es → Walked b (find_next b it) es
  find_next-IsAt it e es at =
      subst (Walked b (find_next b it)) at.rest
        (find_next-Walked at.frames it (at.live, at.current) at.stack at.held)

  begin-Walked :
      (t : Tree)
      → TreeAt b.m_data false t
      → ValuesBelow b.m_data.size t
      → height t ≤ 10
      → Walked b (begin b (address t)) (entries t)
  unfolding begin
  begin-Walked t held inside low =
      let data_there : (b.m_data.size == 0) ≡ false = ground arith in
      let below = descend-FramesAt b.m_data t [] held inside tt (omega arith) in
      let first = record no_iterator {
        m_buffer = true;
        m_initial_buffer_generation = generation b.m_data 0;
        m_stack = (address t, 0) ∷ [];
      } in
      rw (data_there, find_first-descend b first refl refl some_data)
        (subst (Walked b _) (below.3 ∙ append-nil (entries t))
          (find_next-Walked below.0 (record first { m_stack = _ }) (refl, refl) below.1 below.2))

  deref-IsAt :
      (it : Iterator) (e : Entry) (es : List Entry) → IsAt b it e es → deref b it ≡ ok (item e)
  unfolding deref
  deref-IsAt it e es at =
      let data_there : (b.m_data.size == 0) ≡ false = ground arith in
      simp (at.live, data_there, fresh b it at.live at.current, at.value)

  equals-IsAt :
      (it : Iterator) (e : Entry) (es : List Entry)
      → IsAt b it e es
      → equals b it no_iterator ≡ false
  unfolding equals
  equals-IsAt it e es at = simp (at.live)

  items-Walked :
      (es : List Entry) (it : Iterator) (fuel : ℕ)
      → Walked b it es
      → length es < fuel
      → items b fuel it ≡ ok (map item es)
  unfolding items
  items-Walked es it zero at enough = absurd (omega arith)
  items-Walked [] it (suc fuel) at enough =
      let over : equals b it no_iterator ≡ true = unfold equals in simp at in rw over refl
  items-Walked (e ∷ es) it (suc fuel) at enough =
      rw
        (
          equals-IsAt it e es at,
          deref-IsAt it e es at,
          items-Walked es (find_next b it) fuel (find_next-IsAt it e es at) (omega arith),
        )
        refl

  -- At the root of an object's tree that lies in memory, of at most ten levels and with every value
  -- beginning inside the vector: a loop from `begin` to `end` ends, and its items are the entries
  -- of the tree from left to right, each with its key, the address of its value and its type.
  pub items-begin :
      (t : Tree) (fuel : ℕ)
      → TreeAt b.m_data false t
      → ValuesBelow b.m_data.size t
      → height t ≤ 10
      → length (entries t) < fuel
      → items b fuel (begin b (address t)) ≡ ok (map item (entries t))
  items-begin t fuel held inside low enough =
      items-Walked (entries t) (begin b (address t)) fuel (begin-Walked t held inside low) enough
