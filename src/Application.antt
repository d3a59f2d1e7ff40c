-- ===== src/Application.antt =====
-- The whiteboards that show an application: `addJsplumbGroup` of applications-deploy.js,
-- applications-signup.js, applications-view.js and applications_topology.js in
-- components/org.wso2.ppaas.manager.console/console/themes/privatePaaS/js/custom. The four differ in the
-- attributes of the nodes, a `Look`. Positions, styles and dragging are left out.
pub mod Pages
pub mod Drawn
pub mod SignUp
pub mod Deploy
pub mod Tests
use product_private_paas.Common.{Text, codes, Bool, Option, none, some, List, [], ◌∷◌, ◌++◌}
use product_private_paas.Json.{Json}
use product_private_paas.Export.{DataType}
use product_private_paas.Whiteboard.{dash}
use product_private_paas.Whiteboard.Plumbing.{Anchor, top_center, bottom_center, JsPlumb}

-- A cartridge of the document: `type` and `subscribableInfo.alias`.
pub record AppCartridge : Type 0 where
  pub type : Text
  pub alias : Text

-- A list that the document leaves out, or that is null, draws nothing, as the empty list does, and
-- stands as the empty list.
mutual
  pub data AppGroup : Type 0 where
    app_group : Text → List AppCartridge → AppGroups → AppGroup

  pub data AppGroups : Type 0 where
    no_app_groups : AppGroups
    add_app_group : AppGroup → AppGroups → AppGroups

-- `alias`, and the lists of `components`.
pub record Application : Type 0 where
  pub alias : Text
  pub cartridges : List AppCartridge
  pub groups : AppGroups

-- The notification sign of a node.
pub data Sign : Type 0 where
  exclamation check : Sign

-- A node: its attributes, which may be undefined, its text, whether it has the classes `application` and
-- `input-false`, and the values that a form has left in `data-generated`.
pub record AppNode : Type 0 where
  pub id : Text
  pub data_type : Option DataType
  pub data_ctype : Option Text
  pub data_calias : Option Text
  pub data_generated : Option Json
  pub title : Text
  pub text : Text
  pub sign : Option Sign
  pub is_application : Bool
  pub input_false : Bool

-- The nodes of a page, from their ids and what the document says of them.
pub record Look : Type 0 where
  pub root_node : Text → Text → AppNode
  pub cartridge_node : Text → AppCartridge → AppNode
  pub group_node : Text → Text → AppNode

pub record AppBoard (S : Type 0) : Type 0 where
  pub nodes : List AppNode
  pub plumb : S

module _ {S : Type 0} (p : JsPlumb S) where
  abbrev pub put_node : AppNode → AppBoard S → AppBoard S
  put_node n b = record b { nodes = b.nodes ++ n ∷ [] }

  abbrev pub put_end : Anchor → Text → AppBoard S → AppBoard S
  put_end a id b = record b { plumb = p.add_endpoint id a b.plumb }

  abbrev pub put_link : Text → Text → AppBoard S → AppBoard S
  put_link source target b = record b { plumb = p.connect source target b.plumb }

  module _ (look : Look) (counter : Text) where
    -- `genJsplumbCartridge(item, currentParent, parentName)`, where `parent` is the id of
    -- `currentParent`.
    unfoldable pub gen_app_cartridges : List AppCartridge → Text → Text → AppBoard S → AppBoard S
    gen_app_cartridges [] parent parent_name b = b
    gen_app_cartridges (c ∷ cs) parent parent_name b =
        let id = dash counter (dash parent_name c.type) in
        gen_app_cartridges cs parent parent_name
          (put_link parent id (put_end top_center id (put_node (look.cartridge_node id c) b)))

    -- The node of a nested group, its two ends and its connection.
    abbrev pub draw_app_group : Text → Text → Text → AppBoard S → AppBoard S
    draw_app_group id name parent b =
        put_link parent id
          (put_end top_center id (put_end bottom_center id (put_node (look.group_node id name) b)))

    unfoldable mutual
      unfolding gen_app_cartridges

      pub gen_app_groups : AppGroups → Text → Text → AppBoard S → AppBoard S
      gen_app_groups no_app_groups parent parent_name b = b
      gen_app_groups (add_app_group g gs) parent parent_name b =
          gen_app_groups gs parent parent_name (gen_app_group g parent parent_name b)

      -- One round of the loop of `genJsplumbGroups`.
      pub gen_app_group : AppGroup → Text → Text → AppBoard S → AppBoard S
      gen_app_group (app_group n cs gs) parent parent_name b =
          let id = dash counter (dash parent_name n) in
          gen_app_groups gs id (dash parent_name n)
            (gen_app_cartridges cs id (dash parent_name n) (draw_app_group id n parent b))

    -- `addJsplumbGroup(groupJSON, cartridgeCounter)`
    unfoldable pub add_application : Application → AppBoard S → AppBoard S
    unfolding gen_app_groups gen_app_cartridges
    add_application app b =
        let id = dash counter app.alias in
        gen_app_groups app.groups id app.alias (
          gen_app_cartridges app.cartridges id app.alias
            (put_end bottom_center id (put_node (look.root_node id app.alias) b)))
