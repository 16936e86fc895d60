-- ===== src/Buffer/Tree/Height.antt =====
-- A split of a child makes no tree higher.
use lite3_cpp.Base.{ℕ, zero, suc, ◌≤◌, arith}
use lite3_cpp.Buffer.Tree.{Tree, Trees, nil, cons, height, height_of}
use lite3_cpp.Buffer.Tree.Parts.{take_trees, drop_trees, child, divide}

pub height-take_trees : (k : ℕ) (ts : Trees) → height_of (take_trees k ts) ≤ height_of ts
unfolding take_trees height
height-take_trees zero ts = omega arith
height-take_trees (suc k) nil = omega arith
height-take_trees (suc k) (cons t ts) = omega (arith, height-take_trees k ts)

pub height-drop_trees : (k : ℕ) (ts : Trees) → height_of (drop_trees k ts) ≤ height_of ts
unfolding drop_trees height
height-drop_trees zero ts = omega arith
height-drop_trees (suc k) nil = omega arith
height-drop_trees (suc k) (cons t ts) = omega (arith, height-drop_trees k ts)

pub height-divide :
    (i : ℕ) (u v : Tree) (ts : Trees)
    → height u ≤ height (child i ts)
    → height v ≤ height (child i ts)
    → height_of (divide i u v ts) ≤ height_of ts
unfolding divide height child
height-divide i u v nil hu hv = omega arith
height-divide zero u v (cons t ts) hu hv = omega arith
height-divide (suc i) u v (cons t ts) hu hv = omega (arith, height-divide i u v ts hu hv)
