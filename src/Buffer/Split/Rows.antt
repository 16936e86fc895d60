-- ===== src/Buffer/Split/Rows.antt =====
-- Rows of a node with something put in, and rows of children.
use lite3_cpp.Base.{
  ℕ, zero, suc, ◌+◌, ◌-◌, ◌<◌, ◌≤◌, ◌≡◌, ◌≢◌, refl, Bool, List, length, arith, ltb, ◌==◌,
  Bool-cases, inl, inr,
}
use lite3_cpp.Memory.{Memory}
use lite3_cpp.Node.{get_child_offset}
use lite3_cpp.Buffer.Insert.Slots.{inserted}
use lite3_cpp.Buffer.Search.Table.{Entry, nth, insert_at, nth-insert_at}
use lite3_cpp.Buffer.Search.Held.{Held}
use lite3_cpp.Buffer.Tree.{Trees, nil, cons, address, count, child_address}
use lite3_cpp.Buffer.Tree.Held.{Links}
use lite3_cpp.Buffer.Tree.Parts.{child}

-- A row that gives a field of each entry, with an entry's put in.
pub put-row :
    (f : ℕ → ℕ) (field : Entry → ℕ) (es : List Entry) (e : Entry) (i j : ℕ)
    → ((x : ℕ) → x < length es → f x ≡ field (nth es x))
    → i ≤ length es
    → j < length es + 1
    → inserted f i (field e) j ≡ field (nth (insert_at i e es) j)
put-row f field es e i j h pos le = elim (Bool-cases (ltb j i)) [
  | inl lo ↦ rw (nth-insert_at i j e es pos, lo) (h j (ground arith))
  | inr up ↦
      rw (nth-insert_at i j e es pos, up)
        (elim (Bool-cases (i == j)) [
          | inl here ↦ rw here refl
          | inr past ↦ rw past (h (j - 1) (ground arith))
        ])
]

pub put-Held :
    (m : Memory) (arr : Bool) (es : List Entry) (e : Entry) (i j : ℕ)
    → ((x : ℕ) → x < length es → Held m arr (nth es x))
    → Held m arr e
    → i ≤ length es
    → j < length es + 1
    → Held m arr (nth (insert_at i e es) j)
put-Held m arr es e i j h new pos le = elim (Bool-cases (ltb j i)) [
  | inl lo ↦ rw (nth-insert_at i j e es pos, lo) (h j (ground arith))
  | inr up ↦
      rw (nth-insert_at i j e es pos, up)
        (elim (Bool-cases (i == j)) [
          | inl here ↦ rw here new
          | inr past ↦ rw past (h (j - 1) (ground arith))
        ])
]

pub child_address-child :
    (i : ℕ) (ts : Trees) → i < count ts → child_address ts i ≡ address (child i ts)
unfolding child
child_address-child i nil h = absurd (omega arith)
child_address-child zero (cons t ts) h = refl
child_address-child (suc i) (cons t ts) h = child_address-child i ts (omega arith)

pub inserted-ext :
    (f g : ℕ → ℕ) (i v n j : ℕ)
    → ((x : ℕ) → x ≤ n → f x ≡ g x)
    → i ≤ n + 1
    → j ≤ n + 1
    → inserted f i v j ≡ inserted g i v j
inserted-ext f g i v n j h pos le = ground (arith, h j, h (j - 1))

pub inserted_nonzero :
    (f : ℕ → ℕ) (i v n j : ℕ)
    → ((x : ℕ) → x ≤ n → f x ≢ 0)
    → v ≢ 0
    → i ≤ n + 1
    → j ≤ n + 1
    → inserted f i v j ≢ 0
inserted_nonzero f i v n j h new pos le e = ground (arith, h j, h (j - 1))

-- The row of children of a node that has some.
pub Links-inner :
    (m : Memory) (a : ℕ) (es : List Entry) (ts : Trees)
    → 0 < count ts
    → Links m a es ts
    → (count ts ≡ length es + 1)
      × ((j : ℕ)
          → j ≤ length es
          → (get_child_offset m a j ≡ child_address ts j) × (child_address ts j ≢ 0))
Links-inner m a es nil h links = absurd (omega arith)
Links-inner m a es (cons t ts) h links = links

pub Links-of :
    (m : Memory) (a : ℕ) (es : List Entry) (ts : Trees)
    → 0 < count ts
    → count ts ≡ length es + 1
    → ((j : ℕ)
        → j ≤ length es
        → (get_child_offset m a j ≡ child_address ts j) × (child_address ts j ≢ 0))
    → Links m a es ts
Links-of m a es nil h counted links = absurd (omega arith)
Links-of m a es (cons t ts) h counted links = (counted, links)
