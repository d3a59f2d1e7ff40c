-- ===== src/GroupTree.antt =====
-- `generateGroupTree` of
-- components/org.wso2.ppaas.manager.console/console/themes/privatePaaS/js/custom/applications-editor.js:
-- the rows of the preview of a cartridge group.
pub mod Preview
pub mod Tests
use product_private_paas.Common.{Text, Option, none, some, List, [], ◌∷◌, ◌++◌}
use product_private_paas.GroupJson.{
  Group, Props, Groups, group, no_props, cartridges_prop, groups_prop, other_prop, no_groups,
  add_group,
}
use product_private_paas.Forest.{Row}

-- The field `type` of a row.
pub data NodeType : Type 0 where
  groups cartridges : NodeType

abbrev pub row : Text → Option Text → NodeType → Row NodeType
row name parent type = record { name = name; parent = parent; payload = type }

unfoldable pub get_cartridges : List Text → Text → List (Row NodeType)
get_cartridges [] parent = []
get_cartridges (c ∷ cs) parent = row c (some parent) cartridges ∷ get_cartridges cs parent

-- `getGroups`; a nested group's cartridges come before its groups, whatever their order in the
-- document, and `hasOwnProperty` skips what is not there.
unfoldable mutual
  unfolding get_cartridges

  pub get_groups : Groups → Text → List (Row NodeType)
  get_groups no_groups parent = []
  get_groups (add_group g gs) parent = get_group g parent ++ get_groups gs parent

  pub get_group : Group → Text → List (Row NodeType)
  get_group (group n ps) parent =
      row n (some parent) groups ∷ (own_cartridges ps n ++ own_groups ps n)

  pub own_cartridges : Props → Text → List (Row NodeType)
  own_cartridges no_props n = []
  own_cartridges (cartridges_prop cs ps) n = get_cartridges cs n
  own_cartridges (groups_prop gs ps) n = own_cartridges ps n
  own_cartridges (other_prop k ps) n = own_cartridges ps n

  pub own_groups : Props → Text → List (Row NodeType)
  own_groups no_props n = []
  own_groups (cartridges_prop cs ps) n = own_groups ps n
  own_groups (groups_prop gs ps) n = get_groups gs n
  own_groups (other_prop k ps) n = own_groups ps n

-- The loop `for (var prop in groupJSON)`: the root's properties in the order of the document.
unfoldable pub root_props : Props → Text → List (Row NodeType)
unfolding get_groups get_cartridges
root_props no_props n = []
root_props (cartridges_prop cs ps) n = get_cartridges cs n ++ root_props ps n
root_props (groups_prop gs ps) n = get_groups gs n ++ root_props ps n
root_props (other_prop k ps) n = root_props ps n

unfoldable pub generate_group_tree : Group → List (Row NodeType)
unfolding root_props
generate_group_tree (group n ps) = row n none groups ∷ root_props ps n
