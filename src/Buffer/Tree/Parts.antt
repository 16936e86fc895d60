-- ===== src/Buffer/Tree/Parts.antt =====
-- The halves of a node, and a child replaced by two with an entry between them.
use lite3_cpp.Base.{
  ℕ, zero, suc, ◌+◌, ◌-◌, ◌<◌, ◌≤◌, ◌≡◌, refl, ◌∙◌, ap, List, [], ◌∷◌, arith, length,
}
use lite3_cpp.Buffer.Search.Table.{Entry, nth}
use lite3_cpp.Buffer.Insert.Slots.{inserted}
use lite3_cpp.Buffer.Tree.{Tree, node, Trees, nil, cons, address, count, child_address}

unfoldable pub take {ℓ} : {A : Type ℓ} → ℕ → List A → List A
take zero xs = []
take (suc k) [] = []
take (suc k) (x ∷ xs) = x ∷ take k xs

unfoldable pub drop {ℓ} : {A : Type ℓ} → ℕ → List A → List A
drop zero xs = xs
drop (suc k) [] = []
drop (suc k) (x ∷ xs) = drop k xs

unfoldable pub take_trees : ℕ → Trees → Trees
take_trees zero ts = nil
take_trees (suc k) nil = nil
take_trees (suc k) (cons t ts) = cons t (take_trees k ts)

unfoldable pub drop_trees : ℕ → Trees → Trees
drop_trees zero ts = ts
drop_trees (suc k) nil = nil
drop_trees (suc k) (cons t ts) = drop_trees k ts

-- Child `i`.
unfoldable pub child : ℕ → Trees → Tree
child i nil = node 0 [] nil
child zero (cons t ts) = t
child (suc i) (cons t ts) = child i ts

-- Child `i` replaced by two.
unfoldable pub divide : ℕ → Tree → Tree → Trees → Trees
divide i u v nil = nil
divide zero u v (cons t ts) = cons u (cons v ts)
divide (suc i) u v (cons t ts) = cons t (divide i u v ts)

pub length-take : (k : ℕ) (es : List Entry) → k ≤ length es → length (take k es) ≡ k
unfolding take
length-take zero es h = refl
length-take (suc k) [] h = absurd (omega arith)
length-take (suc k) (e ∷ es) h = omega (arith, length-take k es (omega arith))

pub length-drop : (k : ℕ) (es : List Entry) → length (drop k es) ≡ length es - k
unfolding drop
length-drop zero es = omega arith
length-drop (suc k) [] = omega arith
length-drop (suc k) (e ∷ es) = omega (arith, length-drop k es)

pub nth-take : (k : ℕ) (es : List Entry) (j : ℕ) → j < k → nth (take k es) j ≡ nth es j
unfolding take
nth-take zero es j h = absurd (omega arith)
nth-take (suc k) [] j h = refl
nth-take (suc k) (e ∷ es) zero h = refl
nth-take (suc k) (e ∷ es) (suc j) h = nth-take k es j (omega arith)

pub nth-drop : (k : ℕ) (es : List Entry) (j : ℕ) → nth (drop k es) j ≡ nth es (k + j)
unfolding drop
nth-drop zero es j = ap (nth es) (omega arith)
nth-drop (suc k) [] j = refl
nth-drop (suc k) (e ∷ es) j = nth-drop k es j ∙ ap (nth (e ∷ es)) {x = suc (k + j)} (omega arith)

pub count-take_trees : (k : ℕ) (ts : Trees) → k ≤ count ts → count (take_trees k ts) ≡ k
unfolding take_trees
count-take_trees zero ts h = refl
count-take_trees (suc k) nil h = absurd (omega arith)
count-take_trees (suc k) (cons t ts) h = omega (arith, count-take_trees k ts (omega arith))

pub count-drop_trees : (k : ℕ) (ts : Trees) → count (drop_trees k ts) ≡ count ts - k
unfolding drop_trees
count-drop_trees zero ts = omega arith
count-drop_trees (suc k) nil = omega arith
count-drop_trees (suc k) (cons t ts) = omega (arith, count-drop_trees k ts)

pub child_address-take_trees :
    (k : ℕ) (ts : Trees) (j : ℕ) → j < k → child_address (take_trees k ts) j ≡ child_address ts j
unfolding take_trees
child_address-take_trees zero ts j h = absurd (omega arith)
child_address-take_trees (suc k) nil j h = refl
child_address-take_trees (suc k) (cons t ts) zero h = refl
child_address-take_trees (suc k) (cons t ts) (suc j) h =
    child_address-take_trees k ts j (omega arith)

pub child_address-drop_trees :
    (k : ℕ) (ts : Trees) (j : ℕ) → child_address (drop_trees k ts) j ≡ child_address ts (k + j)
unfolding drop_trees
child_address-drop_trees zero ts j = ap (child_address ts) (omega arith)
child_address-drop_trees (suc k) nil j = refl
child_address-drop_trees (suc k) (cons t ts) j =
    child_address-drop_trees k ts j ∙ ap (child_address (cons t ts)) {x = suc (k + j)} (omega arith)

pub count-divide :
    (i : ℕ) (u v : Tree) (ts : Trees) → i < count ts → count (divide i u v ts) ≡ count ts + 1
unfolding divide
count-divide i u v nil h = absurd (omega arith)
count-divide zero u v (cons t ts) h = omega arith
count-divide (suc i) u v (cons t ts) h = omega (arith, count-divide i u v ts (omega arith))

child_address-cons :
    (t : Tree) (ts : Trees) (j : ℕ) → 0 < j → child_address (cons t ts) j ≡ child_address ts (j - 1)
child_address-cons t ts zero h = absurd (omega arith)
child_address-cons t ts (suc j) h = ap (child_address ts) (omega arith)

pub child_address-divide :
    (i : ℕ) (u v : Tree) (ts : Trees) (j : ℕ)
    → i < count ts
    → address u ≡ child_address ts i
    → child_address (divide i u v ts) j ≡ inserted (child_address ts) (i + 1) (address v) j
unfolding divide
child_address-divide i u v nil j h same = absurd (omega arith)
child_address-divide zero u v (cons t ts) zero h same = ground arith
child_address-divide zero u v (cons t ts) (suc zero) h same = ground arith
child_address-divide zero u v (cons t ts) (suc (suc j)) h same =
    ground (arith, child_address-cons t ts (suc j))
child_address-divide (suc i) u v (cons t ts) zero h same = ground arith
child_address-divide (suc i) u v (cons t ts) (suc j) h same =
    child_address-divide i u v ts j (omega arith) same ∙ ground (arith, child_address-cons t ts j)
