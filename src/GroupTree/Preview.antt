-- ===== src/GroupTree/Preview.antt =====
-- The tree of a group document, beside the rows of `generateGroupTree` in applications-editor.js.
use product_private_paas.Common.{Text, ◌≡◌, refl, ap, ◌∙◌, true, none, some, List, [], ◌∷◌}
use product_private_paas.GroupJson.{
  Group, Props, Groups, group, no_props, cartridges_prop, groups_prop, other_prop, no_groups,
  add_group,
}
use product_private_paas.Forest.{tree_of_rows}
use product_private_paas.Forest.Trees.{Rose, Roses, node, nil, cons}
use product_private_paas.Forest.Layout.{flatten, flatten_all, join, flatten_all-join}
use product_private_paas.Forest.Names.{has_own_names}
use product_private_paas.Forest.Roundtrip.{tree_of_rows-flatten}
use product_private_paas.GroupTree.{
  NodeType, groups, cartridges, get_cartridges, get_groups, get_group, own_cartridges, own_groups,
  root_props, generate_group_tree,
}

-- The tree of a document: the leaves are cartridges, and below a group that is not the root the
-- cartridges stand before the groups.
unfoldable pub leaves : List Text → Roses NodeType
leaves [] = nil
leaves (c ∷ cs) = cons (node c cartridges nil) (leaves cs)

unfoldable mutual
  unfolding join leaves

  pub group_trees : Groups → Roses NodeType
  group_trees no_groups = nil
  group_trees (add_group g gs) = cons (group_tree g) (group_trees gs)

  pub group_tree : Group → Rose NodeType
  group_tree (group n ps) = node n groups (join (leaves_of ps) (groups_of ps))

  pub leaves_of : Props → Roses NodeType
  leaves_of no_props = nil
  leaves_of (cartridges_prop cs ps) = leaves cs
  leaves_of (groups_prop gs ps) = leaves_of ps
  leaves_of (other_prop k ps) = leaves_of ps

  pub groups_of : Props → Roses NodeType
  groups_of no_props = nil
  groups_of (cartridges_prop cs ps) = groups_of ps
  groups_of (groups_prop gs ps) = group_trees gs
  groups_of (other_prop k ps) = groups_of ps

unfoldable pub parts : Props → Roses NodeType
unfolding group_trees
parts no_props = nil
parts (cartridges_prop cs ps) = join (leaves cs) (parts ps)
parts (groups_prop gs ps) = join (group_trees gs) (parts ps)
parts (other_prop k ps) = parts ps

unfoldable pub document_tree : Group → Rose NodeType
unfolding parts
document_tree (group n ps) = node n groups (parts ps)

get_cartridges-leaves :
    (cs : List Text) (n : Text) → get_cartridges cs n ≡ flatten_all (some n) (leaves cs)
unfolding get_cartridges leaves flatten
get_cartridges-leaves [] n = refl
get_cartridges-leaves (c ∷ cs) n = cc (get_cartridges-leaves cs n)

mutual
  unfolding get_groups group_trees flatten

  get_groups-trees :
      (gs : Groups) (n : Text) → get_groups gs n ≡ flatten_all (some n) (group_trees gs)
  get_groups-trees no_groups n = refl
  get_groups-trees (add_group g gs) n = cc (get_group-tree g n, get_groups-trees gs n)

  get_group-tree : (g : Group) (n : Text) → get_group g n ≡ flatten (some n) (group_tree g)
  get_group-tree (group k ps) n = cc (
    own_cartridges-leaves ps k,
    own_groups-trees ps k,
    flatten_all-join (some k) (leaves_of ps) (groups_of ps),
  )

  own_cartridges-leaves :
      (ps : Props) (n : Text) → own_cartridges ps n ≡ flatten_all (some n) (leaves_of ps)
  own_cartridges-leaves no_props n = refl
  own_cartridges-leaves (cartridges_prop cs ps) n = get_cartridges-leaves cs n
  own_cartridges-leaves (groups_prop gs ps) n = own_cartridges-leaves ps n
  own_cartridges-leaves (other_prop k ps) n = own_cartridges-leaves ps n

  own_groups-trees : (ps : Props) (n : Text) → own_groups ps n ≡ flatten_all (some n) (groups_of ps)
  own_groups-trees no_props n = refl
  own_groups-trees (cartridges_prop cs ps) n = own_groups-trees ps n
  own_groups-trees (groups_prop gs ps) n = get_groups-trees gs n
  own_groups-trees (other_prop k ps) n = own_groups-trees ps n

root_props-parts : (ps : Props) (n : Text) → root_props ps n ≡ flatten_all (some n) (parts ps)
unfolding root_props parts flatten
root_props-parts no_props n = refl
root_props-parts (cartridges_prop cs ps) n = cc (
  get_cartridges-leaves cs n,
  root_props-parts ps n,
  flatten_all-join (some n) (leaves cs) (parts ps),
)
root_props-parts (groups_prop gs ps) n = cc (
  get_groups-trees gs n,
  root_props-parts ps n,
  flatten_all-join (some n) (group_trees gs) (parts ps),
)
root_props-parts (other_prop k ps) n = root_props-parts ps n

-- The rows of `generateGroupTree` are the preorder of the document's tree.
pub generate_group_tree-flatten :
    (g : Group) → generate_group_tree g ≡ flatten none (document_tree g)
unfolding generate_group_tree document_tree flatten
generate_group_tree-flatten (group n ps) = cc (root_props-parts ps n)

-- For every group document in which the names of the groups that are not empty are distinct and
-- differ from every other name, and in which nothing is called "null", the tree that
-- `generateGroupPreview` hands to d3 is the document's own tree.
pub preview_shows_document :
    (g : Group)
    → has_own_names (document_tree g) ≡ true
    → tree_of_rows (generate_group_tree g) ≡ some (document_tree g)
preview_shows_document g own =
    ap tree_of_rows (generate_group_tree-flatten g) ∙ tree_of_rows-flatten (document_tree g) own
