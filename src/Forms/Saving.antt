-- ===== src/Forms/Saving.antt =====
-- When the application editor's Save throws.
use product_private_paas.Common.{
  Text, ◌≡◌, refl, sym, ap, Bool, true, false, Option, none, some, List, [], ◌∷◌, ◌&&◌, arith,
  Option-cases, inl, inr,
}
use product_private_paas.Json.{Fields}
use product_private_paas.Export.{ok, throw, syntax_error, Attributes, Connection}
use product_private_paas.Export.Assemble.{raw_tree, generate_jsplumb_tree}
use product_private_paas.Forms.{
  Workspace, Schema, fill_in, attributes_in, component_info_update, update_form, saved_application,
}
use product_private_paas.Whiteboard.Plumbing.{JsPlumb}
use product_private_paas.Whiteboard.Removal.{application_editor}

abbrev pub is_filled : Option Fields → Bool
is_filled none = false
is_filled (some v) = true

-- Has every node that a connection leads to been updated?
unfoldable pub all_filled : (Text → Attributes) → List Connection → Bool
all_filled attr [] = true
all_filled attr (c ∷ cs) = is_filled (attr c.target_id).data_generated && all_filled attr cs

pub raw_tree_throws :
    (attr : Text → Attributes) (cs : List Connection)
    → all_filled attr cs ≡ false
    → raw_tree attr cs ≡ throw syntax_error
unfolding raw_tree all_filled
raw_tree_throws attr [] h = cc h
raw_tree_throws attr (c ∷ cs) h = elim (Option-cases (attr c.target_id).data_generated) [
  | inl e ↦ ground (arith, e)
  | inr (v, e) ↦ ground (arith, e, h, raw_tree_throws attr cs)
]

module _ {S : Type 0} (p : JsPlumb S) (opened : Schema → Fields → Fields) where
  update_form_enables :
      (form : Option Fields) (s q : Workspace S)
      → update_form p opened application_editor form s ≡ ok q
      → q.save_enabled ≡ true
  unfolding update_form
  update_form_enables none s q h = cc h
  update_form_enables (some v) s q h =
      let after : Workspace S = record s {
        board = record s.board { nodes = fill_in s.block_id v s.board.nodes };
        save_enabled = true;
      } in
      let same : after ≡ q = cc h in ap (λ (t : Workspace S). t.save_enabled) (sym same)

  -- Each Update enables Save in the application editor, but Save ends in a SyntaxError as long as any
  -- node that a connection leads to has not been updated.
  pub save_throws :
      (value : Fields) (s q : Workspace S)
      → component_info_update p opened application_editor s ≡ ok q
      → all_filled (attributes_in q.board.nodes) (p.get_connections q.board.plumb) ≡ false
      → (q.save_enabled ≡ true) × (saved_application p opened value q ≡ throw syntax_error)
  unfolding component_info_update saved_application generate_jsplumb_tree
  save_throws value s q h unfilled = (
    update_form_enables s.form s q h,
    rw (raw_tree_throws (attributes_in q.board.nodes) (p.get_connections q.board.plumb) unfilled)
        refl,
  )
