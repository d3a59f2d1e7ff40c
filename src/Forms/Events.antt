-- ===== src/Forms/Events.antt =====
-- The events in the two editors.
use product_private_paas.Common.{ℕ, Text, text_eq, distinct, ◌≡◌, Bool, true, none, some, get_elem?}
use product_private_paas.GroupJson.{Group}
use product_private_paas.Json.{Fields}
use product_private_paas.Export.{ok}
use product_private_paas.Forms.{
  Workspace, Schema, open_form, component_info_update, drop_cartridge, drop_group, drop_group_node,
}
use product_private_paas.Forms.Clicks.{node_ids}
use product_private_paas.Whiteboard.{Node, Board}
use product_private_paas.Whiteboard.Keys.{after_dash}
use product_private_paas.Whiteboard.Plumbing.{JsPlumb}
use product_private_paas.Whiteboard.Removal.{Editor, application_editor, group_editor, delete_node}
use product_private_paas.Whiteboard.Removal.Drawing.{nodes_of_group}

-- What the text of a number is taken to be: different for different numbers, and without a dash.
pub record IsNumbering (number : ℕ → Text) : Type 0 where
  pub injective : (j k : ℕ) → text_eq (number j) (number k) ≡ true → j ≡ k
  pub no_dash : (k : ℕ) → after_dash (number k) ≡ none

module _ {S : Type 0} (p : JsPlumb S) (opened : Schema → Fields → Fields) (number : ℕ → Text)
    (editor : Editor) (change : Board S → S → Type 0) where
  -- One event in an editor: a double click on a cartridge or on a group, a click on a
  -- node, an edit, Update, the deletion of a node, or a change of the connections by hand, as far as
  -- `change` lets it.
  pub data EditorEvent : Workspace S → Workspace S → Type 0 where
    drops_cartridge :
        (name : Text) (s : Workspace S) → EditorEvent s (drop_cartridge p opened number name s)
    drops_group :
        (g : Group) (s : Workspace S)
        → editor ≡ application_editor
        → distinct (node_ids (nodes_of_group g (number s.counter))) ≡ true
        → EditorEvent s (drop_group p opened number g s)
    drops_node :
        (s : Workspace S)
        → editor ≡ group_editor
        → EditorEvent s (drop_group_node p opened number s)
    opens :
        (i : ℕ) (n : Node) (s : Workspace S)
        → get_elem? s.board.nodes i ≡ some n
        → EditorEvent s (open_form p opened editor n s)
    edits :
        (old new : Fields) (s : Workspace S)
        → s.form ≡ some old
        → EditorEvent s (record s { form = some new })
    updates : (s q : Workspace S) → component_info_update p opened editor s ≡ ok q → EditorEvent s q
    deletes :
        (i : ℕ) (n : Node) (sure : Bool) (s : Workspace S)
        → get_elem? s.board.nodes i ≡ some n
        → EditorEvent s (record s { board = delete_node p editor sure n s.board })
    connects :
        (plumb : S) (s : Workspace S)
        → change s.board plumb
        → EditorEvent s (record s { board = record s.board { plumb = plumb } })

  pub data EditorEvents : Workspace S → Workspace S → Type 0 where
    rest : (s : Workspace S) → EditorEvents s s
    next : (s r q : Workspace S) → EditorEvents s r → EditorEvent r q → EditorEvents s q
