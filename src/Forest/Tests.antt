-- ===== src/Forest/Tests.antt =====
-- A tree with two levels, and its rows linked again.
use product_private_paas.Common.{codes, text_eq, mem, distinct, disjoint, ℕ, ◌≡◌, refl, true, some}
use product_private_paas.Forest.{tree_of_rows}
use product_private_paas.Forest.Trees.{Rose, node, nil, cons}
use product_private_paas.Forest.Layout.{flatten, inner_names, leaf_names, if_inner, if_leaf}
use product_private_paas.Common.{none}
use product_private_paas.Forest.Names.{has_own_names}
use product_private_paas.Forest.Roundtrip.{tree_of_rows-flatten}

abbrev two_levels : Rose ℕ
two_levels = node (codes "a") 1 (
    cons (node (codes "b") 2 (cons (node (codes "d") 4 nil) nil))
      (cons (node (codes "c") 3 nil) nil))

two_levels-own_names : has_own_names two_levels ≡ true
unfolding has_own_names inner_names leaf_names if_inner if_leaf flatten distinct disjoint mem
    text_eq
two_levels-own_names = refl

tree_of_rows-flatten_example : tree_of_rows (flatten none two_levels) ≡ some two_levels
tree_of_rows-flatten_example = tree_of_rows-flatten two_levels two_levels-own_names
