-- ===== src/Forms.antt =====
-- The forms of the two editors in
-- components/org.wso2.ppaas.manager.console/console/themes/privatePaaS/js/custom, applications-editor.js
-- and applications_group_editor.js: the click on a node opens a form, the button Update stores its value
-- in the attribute `data-generated`, the double clicks draw, and the button Save exports. JSONEditor and
-- the text of a number are parameters; the lists of policies that a form offers are left out.
pub mod Clicks
pub mod Prefixes
pub mod Events
pub mod Tidy
pub mod Distinct
pub mod Linked
pub mod Reach
pub mod Saving
pub mod Unlinked
pub mod Rows
pub mod Outcome
pub mod Request
pub mod Tests
use product_private_paas.Common.{
  ℕ, zero, suc, Text, codes, text_eq, Bool, true, false, Option, none, some, List, [], ◌∷◌, ◌++◌,
  if◌then◌else◌,
}
use product_private_paas.GroupJson.{Group}
use product_private_paas.Json.{Json, Fields, num, str, obj, no_fields, field, put_field}
use product_private_paas.Export.{
  Result, ok, throw, type_error, ◌>>=◌, Attributes, Connection, DataType,
}
use product_private_paas.Export.Assemble.{generate_jsplumb_tree, gen_group_json}
use product_private_paas.Whiteboard.{
  Node, Board, add_jsplumb_cartridge, add_jsplumb_group, add_group_node,
}
use product_private_paas.Whiteboard.Plumbing.{JsPlumb}
use product_private_paas.Whiteboard.Removal.{Editor, application_editor, group_editor, base_id}

-- `cartridgeBlockDefault` and `groupBlockDefault` of the application editor, objects that all forms share.
abbrev pub cartridge_block_default : Fields
cartridge_block_default = field (codes "type") (str (codes "tomcat")) (
    field (codes "cartridgeMin") (num 1) (
      field (codes "cartridgeMax") (num 2) (
        field (codes "subscribableInfo")
          (obj (
            field (codes "alias") (str (codes "alias2")) (
              field (codes "autoscalingPolicy") (str []) (
                field (codes "deploymentPolicy") (str []) (
                  field (codes "artifactRepository")
                    (obj (
                      field (codes "privateRepo") (str (codes "true")) (
                        field (codes "repoUrl") (str (codes "http://xxx:10080/git/default.git")) (
                          field (codes "repoUsername") (str (codes "user"))
                            (field (codes "repoPassword") (str (codes "password")) no_fields)))))
                    no_fields)))))
          no_fields)))

abbrev pub group_block_default : Fields
group_block_default = field (codes "name") (str (codes "group2")) (
    field (codes "alias") (str (codes "group2alias")) (
      field (codes "groupMinInstances") (num 1)
        (field (codes "groupMaxInstances") (num 2) no_fields)))

-- What a form is made from: its schema.
pub data Schema : Type 0 where
  cartridge_schema group_schema : Schema

-- A page of an editor, with `S` for the state of jsPlumb. `form` is the value of the last form that was
-- opened, `block_id` the node that was clicked last.
pub record Workspace (S : Type 0) : Type 0 where
  pub board : Board S
  pub block_id : Option Text
  pub form : Option Fields
  pub cartridge_default : Fields
  pub group_default : Fields
  pub counter : ℕ
  pub update_enabled : Bool
  pub save_enabled : Bool

-- `data-type`: the base node of the application editor has none.
abbrev pub block_type : Editor → Node → Option DataType
block_type application_editor n =
    if text_eq n.id (base_id application_editor) then none else some n.data_type
block_type group_editor n = some n.data_type

abbrev pub or_start : Option Fields → Fields → Fields
or_start none fs = fs
or_start (some v) fs = v

-- What the button Update does to the node.
abbrev pub fill_node : Fields → Node → Node
fill_node v n = record n { data_generated = some v }

-- A change of `$('#' + id)`, the first element with the id.
unfoldable pub fill_at : Text → Fields → List Node → List Node
fill_at id v [] = []
fill_at id v (n ∷ ns) = if text_eq id n.id then fill_node v n ∷ ns else n ∷ fill_at id v ns

abbrev pub fill_in : Option Text → Fields → List Node → List Node
fill_in none v ns = ns
fill_in (some id) v ns = fill_at id v ns

-- The attributes of `$('#' + id)`. Where there is no element, `data-generated` is undefined; the other
-- attributes are then not looked at.
unfoldable pub attributes_in : List Node → Text → Attributes
attributes_in [] id = record {
  data_type = DataType.cartridge;
  data_ctype = [];
  data_generated = none;
}
attributes_in (n ∷ ns) id =
    if text_eq id n.id
    then record {
      data_type = n.data_type;
      data_ctype = n.data_ctype;
      data_generated = n.data_generated;
    }
    else attributes_in ns id

module _ {S : Type 0} (p : JsPlumb S) (opened : Schema → Fields → Fields) where
  -- `tabData` of the application editor, by the type of the node. A property that is set to undefined
  -- for the base node is not modelled: the next form sets it again.
  unfoldable pub tab_data_of : Option DataType → Node → Workspace S → Workspace S
  tab_data_of none n s = s
  tab_data_of (some DataType.cartridge) n s =
      let fs = put_field (codes "type") (str n.data_ctype) s.cartridge_default in
      record s {
        cartridge_default = fs;
        form = some (opened cartridge_schema (or_start n.data_generated fs));
      }
  tab_data_of (some DataType.group) n s =
      let fs = put_field (codes "name") (str n.data_ctype) s.group_default in
      record s {
        group_default = fs;
        form = some (opened group_schema (or_start n.data_generated fs));
      }

  -- `tabData` of the group editor.
  unfoldable pub group_tab_data_of : Option DataType → Node → Workspace S → Workspace S
  group_tab_data_of none n s = s
  group_tab_data_of (some DataType.cartridge) n s = s
  group_tab_data_of (some DataType.group) n s = record s {
    form = some (opened group_schema (or_start n.data_generated s.group_default));
  }

  -- The tab that the application editor goes to, and the node that was clicked.
  abbrev pub clicked_node : Editor → Node → Workspace S → Workspace S
  clicked_node application_editor n s =
      let is_base = text_eq n.id (base_id application_editor) in
      record s {
        block_id = some n.id;
        board = record s.board { tab = if is_base then codes "general" else codes "components" };
        update_enabled = if is_base then s.update_enabled else true;
      }
  clicked_node group_editor n s = record s { block_id = some n.id }

  -- A click on a node.
  unfoldable pub open_form : Editor → Node → Workspace S → Workspace S
  unfolding tab_data_of group_tab_data_of
  open_form application_editor n s =
      tab_data_of (block_type application_editor n) n (clicked_node application_editor n s)
  open_form group_editor n s =
      group_tab_data_of (block_type group_editor n) n (clicked_node group_editor n s)

  abbrev pub is_base_block : Option Text → Bool
  is_base_block none = false
  is_base_block (some id) = text_eq id (base_id group_editor)

  abbrev pub enables : Editor → Workspace S → Bool
  enables application_editor s = true
  enables group_editor s = is_base_block s.block_id

  -- The button Update, which throws where there was no form yet.
  unfoldable pub update_form : Editor → Option Fields → Workspace S → Result (Workspace S)
  unfolding fill_at
  update_form editor none s = throw type_error
  update_form editor (some v) s = ok (record s {
    board = record s.board { nodes = fill_in s.block_id v s.board.nodes };
    save_enabled = if enables editor s then true else s.save_enabled;
  })

  unfoldable pub component_info_update : Editor → Workspace S → Result (Workspace S)
  unfolding update_form
  component_info_update editor s = update_form editor s.form s

  module _ (number : ℕ → Text) where
    -- The double clicks on a cartridge and on a group, and the group editor's on its one group.
    unfoldable pub drop_cartridge : Text → Workspace S → Workspace S
    unfolding add_jsplumb_cartridge
    drop_cartridge name s = record s {
      board = add_jsplumb_cartridge p name (number s.counter) s.board;
      counter = suc s.counter;
    }

    unfoldable pub drop_group : Group → Workspace S → Workspace S
    unfolding add_jsplumb_group
    drop_group g s = record s {
      board = add_jsplumb_group p g (number s.counter) s.board;
      counter = suc s.counter;
    }

    unfoldable pub drop_group_node : Workspace S → Workspace S
    unfolding add_group_node
    drop_group_node s = record s {
      board = add_group_node p (number s.counter) s.board;
      counter = suc s.counter;
    }

  -- What Save sends; `value` is the value of the form of the application.
  unfoldable pub saved_application : Fields → Workspace S → Result Json
  unfolding generate_jsplumb_tree attributes_in
  saved_application value s =
      generate_jsplumb_tree (attributes_in s.board.nodes) (p.get_connections s.board.plumb) value

  unfoldable pub saved_group : Workspace S → Result Json
  unfolding gen_group_json attributes_in
  saved_group s =
      gen_group_json (attributes_in s.board.nodes) (p.get_connections s.board.plumb)
        (attributes_in s.board.nodes (base_id group_editor)).data_generated
