-- ===== src/Whiteboard.antt =====
-- The whiteboard of
-- components/org.wso2.ppaas.manager.console/console/themes/privatePaaS/js/custom/applications-editor.js
-- and of applications_group_editor.js beside it: drawing cartridges and groups, `deleteNode` and `dagrePosition`. The
-- nodes are the elements of class `stepnode`, in the order of the page. jsPlumb is a parameter with
-- the operations that the editors call. Styles and the dragging of nodes are left out.
pub mod Plumbing
pub mod Paths
pub mod Ends
pub mod Draws
pub mod Drawn
pub mod Targets
pub mod Open
pub mod Drags
pub mod Placing
pub mod Keys
pub mod Removal
pub mod Tests
use product_private_paas.Common.{
  ℕ, suc, Text, codes, text_eq, Bool, true, false, Option, none, some, List, [], ◌∷◌, ◌++◌, eqb,
  if◌then◌else◌,
}
use product_private_paas.GroupJson.{
  Group, Props, Groups, group, no_props, cartridges_prop, groups_prop, other_prop, no_groups,
  add_group,
}
use product_private_paas.Json.{Fields}
use product_private_paas.Export.{Connection, DataType, is_group}
use Plumbing.{
  Anchor, top_center, bottom_center, JsPlumb, EndpointOptions, End, bottom_connector_options,
  endpoint_options, group_options, generated_cartridge_endpoint_options, generated_group_options,
}

-- The attributes and the text of a node, with the document in `data-generated`, if there is one. The
-- classes, `data-toggle` and the notification sign are left out.
pub record Node : Type 0 where
  pub id : Text
  pub data_type : DataType
  pub data_ctype : Text
  pub data_generated : Option Fields
  pub title : Text
  pub text : Text

abbrev pub node_of : DataType → Text → Text → Node
node_of type id name = record {
  id = id;
  data_type = type;
  data_ctype = name;
  data_generated = none;
  title = name;
  text = name;
}

abbrev pub node_ids : List Node → List Text
node_ids [] = []
node_ids (n ∷ ns) = n.id ∷ node_ids ns

-- The page, with `S` for the state of jsPlumb, `ends` for the endpoints of its elements and `counter` for the text of `cartridgeCounter`.
pub record Board (S : Type 0) : Type 0 where
  pub nodes : List Node
  pub plumb : S
  pub ends : List End
  pub notes : List Text
  pub component_data : Text
  pub tab : Text

abbrev pub dash : Text → Text → Text
dash a b = a ++ codes "-" ++ b

module _ {S : Type 0} (p : JsPlumb S) where
  abbrev pub append_node : Node → Board S → Board S
  append_node n b = record b { nodes = b.nodes ++ n ∷ [] }

  -- `jsPlumb.addEndpoint`; the page keeps the endpoints that it has asked for.
  abbrev pub end_at : Anchor → EndpointOptions → Text → Board S → Board S
  end_at a options id b = record b {
    plumb = p.add_endpoint id a b.plumb;
    ends = b.ends ++ record { element = id; options = options } ∷ [];
  }

  abbrev pub connect : Text → Text → Board S → Board S
  connect source target b = record b { plumb = p.connect source target b.plumb }

  unfoldable pub add_jsplumb_cartridge : Text → Text → Board S → Board S
  add_jsplumb_cartridge name counter b =
      end_at top_center endpoint_options (dash counter name)
        (append_node (node_of DataType.cartridge (dash counter name) name) b)

  -- `addJsplumbGroup(cartridgeCounter)` of the group editor.
  unfoldable pub add_group_node : Text → Board S → Board S
  add_group_node counter b =
      let id = dash counter (codes "group") in
      end_at top_center group_options id (
        end_at bottom_center bottom_connector_options id (
          append_node
            (record {
              id = id;
              data_type = DataType.group;
              data_ctype = [];
              data_generated = none;
              title = codes "Group";
              text = codes "Group";
            })
            b))

  -- `genJsplumbCartridge(item, currentParent, parentName)`, where `parent` is the id of `currentParent`.
  unfoldable pub gen_jsplumb_cartridge : Text → List Text → Text → Text → Board S → Board S
  gen_jsplumb_cartridge counter [] parent parent_name b = b
  gen_jsplumb_cartridge counter (c ∷ cs) parent parent_name b =
      let id = dash counter (dash parent_name c) in
      gen_jsplumb_cartridge counter cs parent parent_name (
        connect parent id (
          end_at top_center generated_cartridge_endpoint_options id
            (append_node (node_of DataType.cartridge id c) b)))

  -- The node of a nested group, its two ends and its connection.
  abbrev pub draw_group : Text → Text → Text → Board S → Board S
  draw_group id name parent b = connect parent id (
      end_at top_center generated_group_options id (
        end_at bottom_center bottom_connector_options id
          (append_node (node_of DataType.group id name) b)))

  unfoldable mutual
    unfolding gen_jsplumb_cartridge

    pub gen_jsplumb_groups : Text → Groups → Text → Text → Board S → Board S
    gen_jsplumb_groups counter no_groups parent parent_name b = b
    gen_jsplumb_groups counter (add_group g gs) parent parent_name b =
        gen_jsplumb_groups counter gs parent parent_name
          (gen_jsplumb_group counter g parent parent_name b)

    -- One round of the loop.
    pub gen_jsplumb_group : Text → Group → Text → Text → Board S → Board S
    gen_jsplumb_group counter (group n ps) parent parent_name b =
        let id = dash counter (dash parent_name n) in
        gen_own_groups counter ps id (dash parent_name n)
          (gen_own_cartridges counter ps id (dash parent_name n) (draw_group id n parent b))

    pub gen_own_cartridges : Text → Props → Text → Text → Board S → Board S
    gen_own_cartridges counter no_props parent parent_name b = b
    gen_own_cartridges counter (cartridges_prop cs ps) parent parent_name b =
        gen_jsplumb_cartridge counter cs parent parent_name b
    gen_own_cartridges counter (groups_prop gs ps) parent parent_name b =
        gen_own_cartridges counter ps parent parent_name b
    gen_own_cartridges counter (other_prop k ps) parent parent_name b =
        gen_own_cartridges counter ps parent parent_name b

    pub gen_own_groups : Text → Props → Text → Text → Board S → Board S
    gen_own_groups counter no_props parent parent_name b = b
    gen_own_groups counter (cartridges_prop cs ps) parent parent_name b =
        gen_own_groups counter ps parent parent_name b
    gen_own_groups counter (groups_prop gs ps) parent parent_name b =
        gen_jsplumb_groups counter gs parent parent_name b
    gen_own_groups counter (other_prop k ps) parent parent_name b =
        gen_own_groups counter ps parent parent_name b

  -- The loop `for (var prop in groupJSON)` of `addJsplumbGroup`.
  unfoldable pub gen_props : Text → Props → Text → Text → Board S → Board S
  unfolding gen_jsplumb_groups gen_jsplumb_cartridge
  gen_props counter no_props root name b = b
  gen_props counter (cartridges_prop cs ps) root name b =
      gen_props counter ps root name (gen_jsplumb_cartridge counter cs root name b)
  gen_props counter (groups_prop gs ps) root name b =
      gen_props counter ps root name (gen_jsplumb_groups counter gs root name b)
  gen_props counter (other_prop k ps) root name b = gen_props counter ps root name b

  unfoldable pub add_jsplumb_group : Group → Text → Board S → Board S
  unfolding gen_props
  add_jsplumb_group (group n ps) counter b = gen_props counter ps (dash counter n) n (
      end_at top_center group_options (dash counter n) (
        end_at bottom_center bottom_connector_options (dash counter n)
          (append_node (node_of DataType.group (dash counter n) n) b)))
