-- ===== src/Iterator/Step.antt =====
-- An iterator that reads a key and goes on to the next.
use lite3_cpp.Base.{
  ℕ, suc, ◌+◌, ◌-◌, ◌/◌, ◌^◌, ◌<◌, ◌≡◌, ◌≢◌, refl, ◌∙◌, sym, true, false, List, ◌∷◌, ◌++◌, arith,
  length, ◌==◌, ==_iff, ltb, leb, Bool-cases, inl, inr,
}
use lite3_cpp.Memory.Frame.{read_bytes-text}
use lite3_cpp.Node.{generation, get_child_offset}
use lite3_cpp.Buffer.State.{Buffer}
use lite3_cpp.Buffer.Entry.RoundTrip.{KeyAt}
use lite3_cpp.Buffer.Search.Table.{Entry}
use lite3_cpp.Buffer.Search.Held.{value_at}
use lite3_cpp.Buffer.Tree.{Tree, Trees, nil, cons, address, height, entries, weave}
use lite3_cpp.Iterator.{Item, Iterator, is_stale, top, descend, find_first, go_on, read_key}
use mathlib.Core.List.{append_assoc}
use lite3_cpp.Iterator.Frames.{
  length-positions, height-pos, Frame, positions, remaining, EntryAt, FramesAt, descend-FramesAt,
}

-- What `*it` is at an entry.
abbrev pub item : Entry → Item
item e = record { key = e.key.text; value_offset = value_at false e; value_type = e.type }

module _ (b : Buffer) (it : Iterator) (live : it.m_buffer ≡ true)
    (current : it.m_initial_buffer_generation ≡ generation b.m_data 0) where
  pub fresh : is_stale b it ≡ false
  fresh = ground (arith, current)

  pub read_key-item :
      (a i : ℕ) (e : Entry) (below : List (ℕ × ℕ))
      → EntryAt b.m_data a i e
      → read_key b it a i below ≡ go_on b (record it { m_current_value = item e }) a i below
  unfolding read_key
  read_key-item a i e below h =
      let m = b.m_data in
      let stored : KeyAt m e.address e.key.text = h.held.key in
      let key_size : m.byte e.address / 2 ^ 2 ≡ suc (length e.key.text) =
        omega (arith, stored.length_byte) in
      let text = read_bytes-text m (e.address + 1) e.key.text stored.text in
      let at : e.address + 1 + suc (length e.key.text) ≡ value_at false e = omega arith in
      let less : suc (length e.key.text) - 1 ≡ length e.key.text = omega arith in
      let in_data : leb m.size e.address ≡ false = ground (arith, h.inside) in
      let key_in : ltb m.size (value_at false e) ≡ false = ground (arith, h.inside) in
      let value_in : leb m.size (value_at false e) ≡ false = ground (arith, h.inside) in
      let some_key : (suc (length e.key.text) == 0) ≡ false = ground arith in
      rw
        (
          h.link, key_size, at, less, in_data, key_in, value_in, some_key, text,
          h.held.value.type_byte, h.held.known,
        )
        refl

  pub find_first-descend :
      0 < b.m_data.size
      → find_first b it ≡ record it {
        m_stack = descend b.m_data (top it.m_stack).0 (10 - length it.m_stack) it.m_stack;
      }
  unfolding find_first
  find_first-descend h =
      let some_data : (b.m_data.size == 0) ≡ false = ground arith in
      rw (live, some_data, fresh) refl

-- An iterator at an entry, with more entries to come.
pub record IsAt (b : Buffer) (it : Iterator) (e : Entry) (es : List Entry) : Type 0 where
  pub live : it.m_buffer ≡ true
  pub current : it.m_initial_buffer_generation ≡ generation b.m_data 0
  pub value : it.m_current_value ≡ item e
  pub frames : List Frame
  pub stack : it.m_stack ≡ positions frames
  pub held : FramesAt b.m_data frames
  pub rest : remaining frames ≡ es

-- The entries of a node behind the one that is read.
abbrev pub behind : List Entry → Trees → List Entry
behind es nil = es
behind es (cons t ts) = entries t ++ weave es ts

module _ (b : Buffer) (it : Iterator) (live : it.m_buffer ≡ true)
    (current : it.m_initial_buffer_generation ≡ generation b.m_data 0)
    (some_data : 0 < b.m_data.size) (a i : ℕ) (e : Entry) (es : List Entry) (fs : List Frame)
    (value : it.m_current_value ≡ item e) where
  go_on-end :
      get_child_offset b.m_data a (i + 1) ≡ 0
      → go_on b it a i (positions fs) ≡ record it { m_stack = (a, i + 1) ∷ positions fs }
  unfolding go_on
  go_on-end h = rw h refl

  go_on-child :
      (t : Tree)
      → get_child_offset b.m_data a (i + 1) ≡ address t
      → address t ≢ 0
      → length fs < 9
      → go_on b it a i (positions fs) ≡ record it {
        m_stack =
            descend b.m_data
              (address t)
              (10 - suc (suc (length fs)))
              ((address t, 0) ∷ (a, i + 1) ∷ positions fs);
      }
  unfolding go_on
  go_on-child t link there few =
      let some_child : (address t == 0) ≡ false = elim (Bool-cases (address t == 0)) [
        | inl none_there ↦ absurd (there ((==_iff _ _).0 none_there))
        | inr other ↦ other
      ] in
      let room : ltb (length (positions fs)) 9 ≡ true = ground (arith, length-positions fs) in
      rw (link, some_child, room)
        (find_first-descend b (record it { m_stack = (address t, 0) ∷ (a, i + 1) ∷ positions fs })
            live current some_data
          ∙ rw (length-positions fs) refl)

  -- Past an entry the iterator stands before the entries of the next child, if there is one.
  pub go_on-IsAt :
      (ts : Trees)
      → FramesAt b.m_data (record { at = a; index = i; es = e ∷ es; ts = ts } ∷ fs)
      → IsAt b (go_on b it a i (positions fs)) e (behind es ts ++ remaining fs)
  unfolding height entries
  go_on-IsAt nil frames = rw (go_on-end frames.1.1) (record {
    live = live;
    current = current;
    value = value;
    frames = record { at = a; index = i + 1; es = es; ts = nil } ∷ fs;
    stack = refl;
    held = (omega (arith, frames.0), frames.1.2, omega (arith, frames.2), frames.3);
    rest = refl;
  })
  go_on-IsAt (cons t ts) frames =
      let f : Frame = record { at = a; index = i + 1; es = es; ts = ts } in
      let below =
        descend-FramesAt b.m_data t (f ∷ fs) frames.1.3 frames.1.4
          (omega (arith, frames.0), frames.1.5, omega (arith, frames.2), frames.3)
          (omega (arith, frames.2)) in
      rw (go_on-child t frames.1.1 frames.1.2 (omega (arith, frames.2, height-pos b.m_data t)))
        (record {
          live = live;
          current = current;
          value = value;
          frames = below.0;
          stack = below.1;
          held = below.2;
          rest = below.3 ∙ sym (append_assoc (entries t) (weave es ts) (remaining fs));
        })
