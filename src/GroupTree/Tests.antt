-- ===== src/GroupTree/Tests.antt =====
-- A group with a nested group, and its preview.
use product_private_paas.Common.{
  codes, text_eq, mem, distinct, disjoint, ◌≡◌, refl, true, some, [], ◌∷◌,
}
use product_private_paas.GroupJson.{
  Group, group, no_props, cartridges_prop, groups_prop, other_prop, no_groups, add_group,
}
use product_private_paas.Forest.{tree_of_rows}
use product_private_paas.Forest.Layout.{flatten, inner_names, leaf_names, if_inner, if_leaf, join}
use product_private_paas.Forest.Names.{has_own_names}
use product_private_paas.GroupTree.{generate_group_tree}
use product_private_paas.GroupTree.Preview.{
  document_tree, preview_shows_document, parts, leaves, group_trees,
}

abbrev pub web_stack : Group
web_stack = group (codes "web") (
    other_prop (codes "dependencies") (
      cartridges_prop (codes "php" ∷ []) (
        groups_prop
          (add_group (group (codes "db") (cartridges_prop (codes "mysql" ∷ []) no_props)) no_groups)
          no_props)))

web_stack-own_names : has_own_names (document_tree web_stack) ≡ true
unfolding document_tree parts leaves group_trees join has_own_names inner_names leaf_names if_inner
    if_leaf flatten distinct disjoint mem text_eq
web_stack-own_names = refl

preview_shows_document_example :
    tree_of_rows (generate_group_tree web_stack) ≡ some (document_tree web_stack)
preview_shows_document_example = preview_shows_document web_stack web_stack-own_names
