-- ===== src/Forms/Request.antt =====
-- The button Save of the two editors: the request that it sends, and what becomes of the answer.
pub mod Forgets
pub mod Clicks
pub mod Tests
use product_private_paas.Common.{
  Text, codes, ◌≡◌, Bool, true, false, none, some, List, [], ◌∷◌, ◌++◌,
}
use product_private_paas.Application.SignUp.{Answer, Feedback, receive}
use product_private_paas.Json.{Json, Items, Fields, obj, no_items, put_field, delete_field}
use product_private_paas.Export.{
  Result, ok, throw, Thrown, syntax_error, type_error, unending, left_open, RawTree, Hierarchy,
  Connection, hierarchy, ◌>>=◌,
}
use product_private_paas.Export.Cleanup.{traverse_fields}
use product_private_paas.Export.Cleanup.Partial.{left_of_fields}
use product_private_paas.Export.Assemble.{raw_tree, top_items, application_fields}
use product_private_paas.Forms.{Workspace, Schema, attributes_in, saved_application, saved_group}
use product_private_paas.Whiteboard.Plumbing.{JsPlumb}
use product_private_paas.Whiteboard.Removal.{Editor, application_editor, group_editor, base_id}

-- `form_payload` is the document before `JSON.stringify`.
pub record SaveRequest : Type 0 where
  pub form_payload : Json
  pub formtype : Text

-- The page with its requests, and with what the button and the notes show. `value` is the object that
-- `appeditor.getValue()` gives; JSONEditor gives the same object until its form is edited.
pub record Desk (S : Type 0) : Type 0 where
  pub workspace : Workspace S
  pub value : Fields
  pub requests : List SaveRequest
  pub feedback : Feedback

abbrev pub formtype_of : Editor → Text
formtype_of application_editor = codes "applications"
formtype_of group_editor = codes "cartridge-groups"

-- `addico`
abbrev pub save_icon : Editor → Text
save_icon application_editor =
    codes "<span class=\"fw-stack fw-lg btn-action-ico\"><i class=\"fw fw-ring fw-stack-2x\"></i>"
    ++ codes "<i class=\"fw fw-add fw-stack-1x\"></i></span>"
save_icon group_editor =
    codes "<span class=\"fw-stack fw-lg btn-action-ico\"><i class=\"fw fw-ring fw-stack-2x\"></i>"
    ++ codes "<i class=\"fw fw-check fw-stack-1x\"></i></span>"

abbrev pub save_label : Editor → Text
save_label editor = save_icon editor ++ codes " Save"

abbrev pub busy_label : Editor → Text
busy_label application_editor =
    save_icon application_editor ++ codes " <i class='fa fa-spinner fa-spin'></i> Adding..."
busy_label group_editor =
    save_icon group_editor ++ codes " <i class='fa fa-spinner fa-spin'></i> Saving..."

-- Does the browser throw it? The two others are marks of the model.
abbrev pub is_thrown : Thrown → Bool
is_thrown syntax_error = true
is_thrown type_error = true
is_thrown unending = false
is_thrown left_open = false

module _ {S : Type 0} (p : JsPlumb S) (opened : Schema → Fields → Fields) where
  -- The request, and the button while it runs.
  unfoldable pub send_document : Editor → Json → Desk S → Desk S
  send_document editor document d = record d {
    requests = d.requests ++ record { form_payload = document; formtype = formtype_of editor } ∷ [];
    feedback = record d.feedback { button = busy_label editor };
  }

  -- A click on Save in the group editor, whose document is a new object each time.
  unfoldable pub save_group : Desk S → Result (Desk S)
  unfolding saved_group send_document
  save_group d = do
    document ← saved_group p opened d.workspace
    ok (send_document group_editor document d)

  abbrev pub connections_of : Desk S → List Connection
  connections_of d = p.get_connections d.workspace.board.plumb

  -- `rawtree`
  unfoldable pub read_nodes : Desk S → Result RawTree
  unfolding raw_tree attributes_in
  read_nodes d = raw_tree (attributes_in d.workspace.board.nodes) (connections_of d)

  -- A click on Save in the application editor. `generateJsplumbTree` writes into the value of the form:
  -- it sets `components` and deletes `dependencies` before it reads the nodes, fills the lists of
  -- `components`, and cleans the whole value, which is the document. What it has put into `components` when
  -- the second loop throws is left open: each click sets this property anew. A click whose nodes are
  -- marked `left_open` or `unending` is no step.
  pub data ApplicationSave : Desk S → Desk S → Type 0 where
    sends :
        (d : Desk S) (fs : Fields)
        → saved_application p opened d.value d.workspace ≡ ok (obj fs)
        → ApplicationSave d (send_document application_editor (obj fs) (record d { value = fs }))
    throws_reading :
        (d : Desk S) (x : Thrown)
        → read_nodes d ≡ throw x
        → ApplicationSave d (record d { value = application_fields d.value no_items no_items })
    throws_merging :
        (d : Desk S) (x : Thrown) (rows : RawTree) (c : Json)
        → read_nodes d ≡ ok rows
        → hierarchy (base_id application_editor) rows ≡ throw x
        → is_thrown x ≡ true
        → ApplicationSave d (record d {
          value = delete_field (codes "dependencies") (put_field (codes "components") c d.value);
        })
    throws_cleaning :
        (d : Desk S) (rows : RawTree) (h : Hierarchy) (gs cs : Items)
        → read_nodes d ≡ ok rows
        → hierarchy (base_id application_editor) rows ≡ ok h
        → top_items true rows h ≡ some (gs, cs)
        → traverse_fields (application_fields d.value gs cs) ≡ none
        → ApplicationSave d (record d { value = left_of_fields (application_fields d.value gs cs) })

  unfoldable pub save_answered : Editor → Answer → Desk S → Desk S
  unfolding receive
  save_answered editor a d = record d { feedback = receive (save_label editor) a d.feedback }
