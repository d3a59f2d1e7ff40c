-- ===== src/Application/SignUp.antt =====
-- The sign-up page, applications-signup.js: the form of a node and the request with the artifact
-- repositories. A value in `data-generated` stands for its escaped text. JSONEditor is a parameter: the
-- value that a form shows for the values it starts with.
pub mod Updates
pub mod Events
pub mod Sent
use product_private_paas.Common.{
  Text, codes, text_eq, Bool, true, false, Option, none, some, List, [], ◌∷◌, ◌++◌, if◌then◌else◌,
}
use product_private_paas.Json.{
  Json, Items, Fields, bool, str, arr, obj, no_items, item, no_fields, field, put_field,
  delete_field,
}
use product_private_paas.Export.{Result, ok, throw, type_error, DataType, Connection}
use product_private_paas.Application.{AppNode, Sign, check, AppBoard}
use product_private_paas.Whiteboard.Plumbing.{JsPlumb}

-- `signupBlockDefault`, an object that all forms share.
abbrev pub signup_block_default : Fields
signup_block_default = field (codes "alias") (str (codes "php")) (
    field (codes "privateRepo") (bool false) (
      field (codes "repoUrl") (str (codes "https://hostname/repository.git"))
        (field (codes "repoUsername") (str []) (field (codes "repoPassword") (str []) no_fields))))

-- `data.status` and `data.message` of an answer; a status that is no text reads as the empty one.
pub record Reply : Type 0 where
  pub status : Text
  pub message : Text

-- What the server answers, none for null, and a request that fails.
pub data Answer : Type 0 where
  answered : Option Reply → Answer
  request_failed : Answer

-- The notes of a page, its button, and whether it goes to the list of applications, after a while or
-- at once.
pub record Feedback : Type 0 where
  pub notes : List (Text × Text)
  pub button : Text
  pub leaves_later : Bool
  pub left : Bool

abbrev noted : Text → Reply → Feedback → Feedback
noted type r f = record f { notes = f.notes ++ (type, r.message) ∷ [] }

-- `success`
unfoldable pub succeed : Reply → Feedback → Feedback
succeed r f =
    if text_eq r.status (codes "error")
    then noted (codes "error") r f
    else if text_eq r.status (codes "warning")
    then noted (codes "warning") r f
    else record (noted (codes "success") r f) { leaves_later = true }

-- `success`, `always` with the button's text, and `ajaxError` of the document. For null the first read in
-- `success` throws, and jQuery does not come to `always`.
unfoldable pub receive : Text → Answer → Feedback → Feedback
unfolding succeed
receive label (answered none) f = f
receive label (answered (some r)) f = record (succeed r f) { button = label }
receive label request_failed f = record f { left = true; button = label }

-- The page, with `S` for the state of jsPlumb. `editor` is the value of the last form that was opened,
-- `block_id` the node that was clicked last, and `default` is `signupBlockDefault`.
pub record SignUp (S : Type 0) : Type 0 where
  pub board : AppBoard S
  pub block_id : Option Text
  pub editor : Option Json
  pub default : Fields
  pub details_shown : Bool
  pub sent : List Fields
  pub feedback : Feedback

abbrev pub is_cartridge : Option DataType → Bool
is_cartridge none = false
is_cartridge (some DataType.group) = false
is_cartridge (some DataType.cartridge) = true

-- `startval['alias'] = calias`; a property that is undefined is not seen by the form.
abbrev pub set_alias : Option Text → Fields → Fields
set_alias none fs = delete_field (codes "alias") fs
set_alias (some a) fs = put_field (codes "alias") (str a) fs

-- `data-generated`, or else the default.
abbrev pub start_value : Option Json → Fields → Json
start_value none fs = obj fs
start_value (some v) fs = v

abbrev pub checked : Option Sign → Option Sign
checked none = none
checked (some s) = some check

-- What the button Update does to the node.
abbrev pub store : Json → AppNode → AppNode
store v n = record n { data_generated = some v; input_false = false; sign = checked n.sign }

-- A change of `$('#' + id)`, the first element with the id.
unfoldable pub store_at : Text → Json → List AppNode → List AppNode
store_at id v [] = []
store_at id v (n ∷ ns) = if text_eq id n.id then store v n ∷ ns else n ∷ store_at id v ns

-- Before a node was clicked, `#undefined` finds none.
abbrev pub store_in : Option Text → Json → List AppNode → List AppNode
store_in none v ns = ns
store_in (some id) v ns = store_at id v ns

-- `$('#' + id).attr('data-generated')`
unfoldable pub generated : Text → List AppNode → Option Json
generated id [] = none
generated id (n ∷ ns) = if text_eq id n.id then n.data_generated else generated id ns

abbrev push_some : Option Json → Items → Items
push_some none vs = vs
push_some (some v) vs = item v vs

-- The loop of `#signup` over the connections.
unfoldable pub repositories : List AppNode → List Connection → Items
unfolding generated
repositories ns [] = no_items
repositories ns (c ∷ cs) = push_some (generated c.target_id ns) (repositories ns cs)

abbrev pub sign_up_document : Items → Fields
sign_up_document vs = field (codes "artifactRepositories") (arr vs) no_fields

module _ {S : Type 0} (p : JsPlumb S) (opened : Json → Json) where
  unfoldable pub tab_data : AppNode → SignUp S → SignUp S
  tab_data n s =
      let fs = set_alias n.data_calias s.default in
      if is_cartridge n.data_type
      then record s {
        block_id = some n.id;
        default = fs;
        editor = some (opened (start_value n.data_generated fs));
      }
      else record s { block_id = some n.id }

  -- A click on a node.
  unfoldable pub click_node : AppNode → SignUp S → SignUp S
  unfolding tab_data
  click_node n s = tab_data n (record s { details_shown = true })

  -- The button Update, which throws where there was no form yet.
  unfoldable pub update_with : Option Json → SignUp S → Result (SignUp S)
  unfolding store_at
  update_with none s = throw type_error
  update_with (some v) s =
      ok (record s { board = record s.board { nodes = store_in s.block_id v s.board.nodes } })

  unfoldable pub update : SignUp S → Result (SignUp S)
  unfolding update_with
  update s = update_with s.editor s

  abbrev pub sign_up_payload : SignUp S → Fields
  sign_up_payload s =
      sign_up_document (repositories s.board.nodes (p.get_connections s.board.plumb))

  -- The button Add Sign Up, up to the request.
  unfoldable pub sign_up : SignUp S → SignUp S
  unfolding repositories
  sign_up s = record s {
    sent = s.sent ++ sign_up_payload s ∷ [];
    feedback = record s.feedback {
      button = codes "<i class='fa fa-spinner fa-spin'></i> Adding...";
    };
  }

  unfoldable pub sign_up_answered : Answer → SignUp S → SignUp S
  unfolding receive
  sign_up_answered a s = record s { feedback = receive (codes "Add Sign Up") a s.feedback }
