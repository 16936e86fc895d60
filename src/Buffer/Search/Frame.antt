-- ===== src/Buffer/Search/Frame.antt =====
-- Entries and nodes are the same where their bytes are.
use lite3_cpp.Base.{ℕ, ◌+◌, ◌<◌, ◌≤◌, ◌∙◌, Bool, true, false, List, arith, if◌then◌else◌, length}
use lite3_cpp.Memory.{Memory}
use lite3_cpp.Memory.Laws.{SameOn, load32-same}
use lite3_cpp.Memory.Frame.{TextAt-same}
use lite3_cpp.Node.{Tag, node_size}
use lite3_cpp.Node.Frame.{key_count-same, get_hash-same, get_kv_offset-same, get_child_offset-same}
use lite3_cpp.Buffer.Entry.{has_length, value_len}
use lite3_cpp.Buffer.Entry.RoundTrip.{KeyAt, ValueAt}
use lite3_cpp.Buffer.Search.Table.{Entry, nth}
use lite3_cpp.Buffer.Search.Held.{KeyHeld, Held, Keys, entry_size, prefix_len, value_at}
use lite3_cpp.Buffer.Search.Leaf.{Leaf}

module _ (m m' : Memory) where
  pub KeyAt-same :
      (kv : ℕ) (key : List ℕ) → SameOn kv (length key + 2) m m' → KeyAt m kv key → KeyAt m' kv key
  KeyAt-same kv key same h = record {
    length_byte = same kv (omega arith) (omega arith) ∙ h.length_byte;
    text = TextAt-same m m' (kv + 1) key (λ x p q. same x (omega arith) (omega arith)) h.text;
  }

  pub ValueAt-same :
      (vo : ℕ) (t : Tag) (val : List ℕ)
      → SameOn vo (value_len t (length val)) m m'
      → ValueAt m vo t val
      → ValueAt m' vo t val
  unfolding value_len
  ValueAt-same vo t val same h = record {
    type_byte = same vo (omega arith) (ground arith) ∙ h.type_byte;
    length_word = λ e.
        load32-same m m' (vo + 1) (λ x p q. same x (omega arith) (ground arith)) ∙ h.length_word e;
    text =
        TextAt-same m m' (if has_length t then vo + 1 + 4 else vo + 1) val
          (λ x p q. same x (ground arith) (ground arith)) h.text;
  }

  pub KeyHeld-same :
      (arr : Bool) (e : Entry)
      → SameOn e.address (prefix_len arr e.key.text) m m'
      → KeyHeld m arr e
      → KeyHeld m' arr e
  KeyHeld-same true e same h = h
  KeyHeld-same false e same h = KeyAt-same e.address e.key.text same h

  pub Held-same :
      (arr : Bool) (e : Entry)
      → SameOn e.address (entry_size arr e) m m'
      → Held m arr e
      → Held m' arr e
  Held-same arr e same h = record {
    key = KeyHeld-same arr e (λ x p q. same x p (omega arith)) h.key;
    small = h.small;
    known = h.known;
    sized = h.sized;
    value =
        ValueAt-same (value_at arr e) e.type e.val (λ x p q. same x (omega arith) (omega arith))
          h.value;
  }

  pub Keys-same :
      (arr : Bool) (a : ℕ) (es : List Entry)
      → length es ≤ 7
      → SameOn a node_size m m'
      → ((j : ℕ) → j < length es → SameOn (nth es j).address (entry_size arr (nth es j)) m m')
      → Keys m arr a es
      → Keys m' arr a es
  Keys-same arr a es room same entries h = record {
    count = key_count-same m m' a same ∙ h.count;
    hashes = λ j p. get_hash-same m m' a same j (omega arith) ∙ h.hashes j p;
    addresses = λ j p. get_kv_offset-same m m' a same j (omega arith) ∙ h.addresses j p;
    held = λ j p. Held-same arr (nth es j) (entries j p) (h.held j p);
  }

  pub Leaf-same :
      (arr : Bool) (a : ℕ) (es : List Entry)
      → SameOn a node_size m m'
      → ((j : ℕ) → j < length es → SameOn (nth es j).address (entry_size arr (nth es j)) m m')
      → Leaf m arr a es
      → Leaf m' arr a es
  Leaf-same arr a es same entries h = record {
    keys = Keys-same arr a es h.room same entries h.keys;
    room = h.room;
    bottom = λ j p. get_child_offset-same m m' a same j p ∙ h.bottom j p;
  }
