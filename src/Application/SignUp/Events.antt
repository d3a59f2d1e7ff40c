-- ===== src/Application/SignUp/Events.antt =====
-- The events on the sign-up page.
use product_private_paas.Common.{
  ℕ, Text, ◌≡◌, refl, sym, ap, ◌∙◌, Bool, true, false, Option, none, some, List, get_elem?,
  if◌then◌else◌,
}
use product_private_paas.Json.{Json}
use product_private_paas.Export.{ok}
use product_private_paas.Application.{AppNode}
use product_private_paas.Application.SignUp.{
  SignUp, Answer, store_in, tab_data, click_node, update, update_with, sign_up, sign_up_answered,
  is_cartridge,
}
use product_private_paas.Application.SignUp.Updates.{ids, ids-store_at}
use product_private_paas.Whiteboard.Plumbing.{JsPlumb}

-- One event on the page: a click on a node, an edit in the open form, the two buttons, or an answer.
pub data SignUpEvent {S : Type 0} (p : JsPlumb S) (opened : Json → Json)
    : SignUp S → SignUp S → Type 0 where
  clicks :
      (i : ℕ) (n : AppNode) (s : SignUp S)
      → get_elem? s.board.nodes i ≡ some n
      → SignUpEvent p opened s (click_node p opened n s)
  edits :
      (old new : Json) (s : SignUp S)
      → s.editor ≡ some old
      → SignUpEvent p opened s (record s { editor = some new })
  updates : (s q : SignUp S) → update p opened s ≡ ok q → SignUpEvent p opened s q
  signs_up : (s : SignUp S) → SignUpEvent p opened s (sign_up p opened s)
  answers : (a : Answer) (s : SignUp S) → SignUpEvent p opened s (sign_up_answered p opened a s)

pub data SignUpEvents {S : Type 0} (p : JsPlumb S) (opened : Json → Json)
    : SignUp S → SignUp S → Type 0 where
  rest : (s : SignUp S) → SignUpEvents p opened s s
  next :
      (s r q : SignUp S)
      → SignUpEvents p opened s r
      → SignUpEvent p opened r q
      → SignUpEvents p opened s q

module _ {S : Type 0} (p : JsPlumb S) (opened : Json → Json) where
  ids-store_in : (o : Option Text) (v : Json) (ns : List AppNode) → ids (store_in o v ns) ≡ ids ns
  ids-store_in none v ns = refl
  ids-store_in (some id) v ns = ids-store_at id v ns

  -- The ids of the nodes, and the state of jsPlumb.
  pub record Keeps (s q : SignUp S) : Type 0 where
    pub ids_kept : ids q.board.nodes ≡ ids s.board.nodes
    pub plumb_kept : q.board.plumb ≡ s.board.plumb

  update_with-Keeps :
      (e : Option Json) (s q : SignUp S) → update_with p opened e s ≡ ok q → Keeps s q
  unfolding update_with
  update_with-Keeps none s q h = cc h
  update_with-Keeps (some v) s q h =
      let after : SignUp S = record s {
        board = record s.board { nodes = store_in s.block_id v s.board.nodes };
      } in
      let same : after ≡ q = cc h in
      record {
        ids_kept =
            ap (λ (t : SignUp S). ids t.board.nodes) (sym same)
            ∙ ids-store_in s.block_id v s.board.nodes;
        plumb_kept = ap (λ (t : SignUp S). t.board.plumb) (sym same);
      }

  tab_data-Keeps :
      (b : Bool) (s t u : SignUp S) → Keeps s t → Keeps s u → Keeps s (if b then t else u)
  tab_data-Keeps true s t u f g = f
  tab_data-Keeps false s t u f g = g

  event_preserves : (s q : SignUp S) → SignUpEvent p opened s q → Keeps s q
  unfolding click_node tab_data update sign_up sign_up_answered
  event_preserves _ _ (clicks i n s at_i) =
      tab_data-Keeps (is_cartridge n.data_type) s _ _
        (record { ids_kept = refl; plumb_kept = refl })
        (record { ids_kept = refl; plumb_kept = refl })
  event_preserves _ _ (edits old new s e) = record { ids_kept = refl; plumb_kept = refl }
  event_preserves _ _ (updates s q h) = update_with-Keeps s.editor s q h
  event_preserves _ _ (signs_up s) = record { ids_kept = refl; plumb_kept = refl }
  event_preserves _ _ (answers a s) = record { ids_kept = refl; plumb_kept = refl }

  pub events_preserve : (s q : SignUp S) → SignUpEvents p opened s q → Keeps s q
  events_preserve _ _ (rest s) = record { ids_kept = refl; plumb_kept = refl }
  events_preserve _ _ (next s r q before last) =
      let f : Keeps s r = events_preserve s r before in
      let g : Keeps r q = event_preserves r q last in
      record { ids_kept = g.ids_kept ∙ f.ids_kept; plumb_kept = g.plumb_kept ∙ f.plumb_kept }
