-- ===== src/Buffer/Tree/Spread.antt =====
-- The entries of a node by its keys and children, and that splits keep them.
use lite3_cpp.Base.{
  ℕ, zero, suc, ◌+◌, ◌<◌, ◌≡◌, refl, sym, ◌∙◌, ap, List, [], ◌∷◌, ◌++◌, arith, length,
}
use mathlib.Core.List.{append_assoc, append-nil}
use lite3_cpp.Buffer.Search.Table.{Entry, nth, insert_at}
use lite3_cpp.Buffer.Tree.{Tree, node, Trees, nil, cons, count, entries, weave}
use lite3_cpp.Buffer.Tree.Parts.{take, drop, take_trees, drop_trees, child, divide, count-divide}

unfoldable pub spread : List Entry → Trees → List Entry
spread es nil = es
spread es (cons t ts) = entries t ++ weave es ts

pub entries-spread : (a : ℕ) (es : List Entry) (ts : Trees) → entries (node a es ts) ≡ spread es ts
unfolding entries spread
entries-spread a es nil = refl
entries-spread a es (cons t ts) = refl

pub weave-spread :
    (e : Entry) (es : List Entry) (ts : Trees) → 0 < count ts → weave (e ∷ es) ts ≡ e ∷ spread es ts
unfolding entries spread
weave-spread e es nil h = absurd (omega arith)
weave-spread e es (cons t ts) h = refl

append-halves :
    (k : ℕ) (es : List Entry) → k < length es → es ≡ take k es ++ (nth es k ∷ drop (suc k) es)
unfolding take drop
append-halves k [] h = absurd (omega arith)
append-halves zero (e ∷ es) h = refl
append-halves (suc k) (e ∷ es) h = ap (λ xs. e ∷ xs) (append-halves k es (omega arith))

spread-children :
    (k : ℕ) (es : List Entry) (ts : Trees)
    → k < length es
    → count ts ≡ length es + 1
    → spread es ts
      ≡ spread (take k es) (take_trees (suc k) ts)
        ++ (nth es k ∷ spread (drop (suc k) es) (drop_trees (suc k) ts))
unfolding spread entries take drop take_trees drop_trees
spread-children k [] ts h counted = absurd (omega arith)
spread-children k (e ∷ es) nil h counted = absurd (omega arith)
spread-children k (e ∷ es) (cons t nil) h counted = absurd (omega arith)
spread-children zero (e ∷ es) (cons t (cons t' ts)) h counted =
    ap (λ xs. xs ++ (e ∷ (entries t' ++ weave es ts))) (sym (append-nil (entries t)))
spread-children (suc k) (e ∷ es) (cons t (cons t' ts)) h counted =
    ap (λ xs. entries t ++ (e ∷ xs)) (spread-children k es (cons t' ts) (omega arith) (omega arith))
    ∙ sym (
        append_assoc (entries t) (e ∷ spread (take k es) (cons t' (take_trees k ts)))
          (nth es k ∷ spread (drop (suc k) es) (drop_trees k ts)))

-- A node's entries are those of its two halves with the key between them.
pub spread-halves :
    (k : ℕ) (es : List Entry) (ts : Trees)
    → k < length es
    → (0 < count ts → count ts ≡ length es + 1)
    → spread es ts
      ≡ spread (take k es) (take_trees (suc k) ts)
        ++ (nth es k ∷ spread (drop (suc k) es) (drop_trees (suc k) ts))
unfolding spread take_trees drop_trees
spread-halves k es nil h counted = append-halves k es h
spread-halves k es (cons t ts) h counted =
    spread-children k es (cons t ts) h (counted (omega arith))

-- A child may become two with a key between them.
pub spread-divide :
    (i : ℕ) (e : Entry) (u v : Tree) (es : List Entry) (ts : Trees)
    → i < count ts
    → count ts ≡ length es + 1
    → entries (child i ts) ≡ entries u ++ (e ∷ entries v)
    → spread (insert_at i e es) (divide i u v ts) ≡ spread es ts
unfolding spread entries insert_at divide child
spread-divide i e u v es nil h counted parts = absurd (omega arith)
spread-divide zero e u v es (cons t ts) h counted parts =
    sym (append_assoc (entries u) (e ∷ entries v) (weave es ts))
    ∙ ap (λ xs. xs ++ weave es ts) (sym parts)
spread-divide (suc i) e u v [] (cons t ts) h counted parts = absurd (omega arith)
spread-divide (suc i) e u v (d ∷ es) (cons t ts) h counted parts =
    ap (λ xs. entries t ++ xs)
      (weave-spread d (insert_at i e es) (divide i u v ts)
          (omega (arith, count-divide i u v ts (omega arith)))
        ∙ ap (λ xs. d ∷ xs) (spread-divide i e u v es ts (omega arith) (omega arith) parts)
        ∙ sym (weave-spread d es ts (omega arith)))
