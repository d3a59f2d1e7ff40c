-- ===== src/Forms/Request/Clicks.antt =====
-- What a click on Save in the application editor does on the pages that its user can reach.
use product_private_paas.Common.{
  ℕ, Text, codes, text_eq, ◌≡◌, refl, ap, ◌∙◌, Bool, true, false, Option, none, some, [], ◌∷◌,
  arith, inl, inr, Option-cases,
}
use product_private_paas.Json.{Json, Fields, obj}
use product_private_paas.Export.{Result, ok, throw, hierarchy}
use product_private_paas.Export.Assemble.{
  raw_tree, generate_jsplumb_tree, application_fields, finish, top_items,
}
use product_private_paas.Export.Cleanup.{traverse, traverse_fields}
use product_private_paas.Export.Wired.{Result-cases}
use product_private_paas.Forms.{Workspace, Schema, attributes_in, saved_application}
use product_private_paas.Forms.Events.{IsNumbering, EditorEvents}
use product_private_paas.Forms.Clicks.{node_ids}
use product_private_paas.Forms.Outcome.{save_outcome}
use product_private_paas.Forms.Request.{
  Desk, ApplicationSave, sends, throws_reading, throws_merging, throws_cleaning, read_nodes,
  is_thrown,
}
use product_private_paas.Forms.Request.Forgets.{Moves, ApplicationSave-Moves}
use product_private_paas.Forms.Rows.{plain_nodes}
use product_private_paas.Whiteboard.Drags.{Drag}
use product_private_paas.Whiteboard.Ends.{end_of}
use product_private_paas.Whiteboard.Keys.{before_dash}
use product_private_paas.Whiteboard.Plumbing.{JsPlumb, bottom_connector_options}
use product_private_paas.Whiteboard.Removal.{application_editor, base_id}

-- Does the exporter return or throw what the browser throws?
abbrev is_settled : Result Json → Bool
is_settled (ok v) = true
is_settled (throw x) = is_thrown x

is_settled-finish : (o : Option Json) → is_settled (finish o) ≡ true
is_settled-finish none = refl
is_settled-finish (some v) = refl

module _ {S : Type 0} (p : JsPlumb S) (opened : Schema → Fields → Fields) where
  -- A click does something unless the exporter's result is a mark.
  save_clicked :
      (d : Desk S)
      → is_settled (saved_application p opened d.value d.workspace) ≡ true
      → (e : Desk S) × ApplicationSave p opened d e
  unfolding saved_application generate_jsplumb_tree read_nodes traverse
  save_clicked d settled =
      let attr = attributes_in d.workspace.board.nodes in
      let cs = p.get_connections d.workspace.board.plumb in
      elim (Result-cases (raw_tree attr cs)) [
        | inr (x, read) ↦ (_, throws_reading d x read)
        | inl (rows, read) ↦ elim (Result-cases (hierarchy (codes "applicationId") rows)) [
          | inr (x, h) ↦
              (_, throws_merging d x rows (obj d.value) read h (ground (arith, read, h, settled)))
          | inl (k, h) ↦ elim (Option-cases (top_items true rows k)) [
            | inl t ↦ absurd (ground (arith, read, h, t, settled))
            | inr (q, t) ↦
                elim (Option-cases (traverse_fields (application_fields d.value q.0 q.1))) [
                  | inl c ↦ (_, throws_cleaning d rows k q.0 q.1 read h t c)
                  | inr (fs, c) ↦ (_, sends d fs (ground (arith, read, h, t, c)))
                ]
          ]
        ]
      ]

  module _ (number : ℕ → Text) where
    outcome_settled :
        (value : Fields) (numbering : IsNumbering number) (s q : Workspace S)
        → ((k : ℕ) → text_eq (before_dash (base_id application_editor)) (number k) ≡ false)
        → node_ids s.board.nodes ≡ base_id application_editor ∷ []
        → p.get_connections s.board.plumb ≡ []
        → s.board.ends ≡ end_of bottom_connector_options (base_id application_editor) ∷ []
        → EditorEvents p opened number application_editor (Drag p) s q
        → plain_nodes q.board.nodes ≡ true
        → is_settled (saved_application p opened value q) ≡ true
    outcome_settled value numbering s q other start bare ends events plain =
        elim (save_outcome p opened number value numbering s q other start bare ends events plain) [
          | inl (e, h) ↦ ap is_settled h
          | inr (e, rows, r, out) ↦ elim out [
            | inl (f, h) ↦ ap is_settled h
            | inr (f, ts, reads, h) ↦ ap is_settled h ∙ is_settled-finish _
          ]
        ]

    -- A click on Save on any page that the user of the application editor can reach from a page with
    -- the application's node alone, whose one endpoint is the lower one, and without connections, by
    -- events in which connections are drawn as the endpoints allow it, and with any value of the
    -- application's form: the click throws, or sends a request, and afterwards the value of the form
    -- has no dependencies, even where it has thrown. The document of the request has in its
    -- components the dependencies that the value had before the click, cleaned, and none where it
    -- had none. The texts of numbers are different for different numbers, have no dash and are not
    -- the first part of the id of the application's node, no group that is drawn gives two of its
    -- own nodes the same id, and the value of no cartridge has a list (or a text) as its property
    -- groups or cartridges.
    pub save-Moves :
        (numbering : IsNumbering number) (s : Workspace S) (d : Desk S)
        → ((k : ℕ) → text_eq (before_dash (base_id application_editor)) (number k) ≡ false)
        → node_ids s.board.nodes ≡ base_id application_editor ∷ []
        → p.get_connections s.board.plumb ≡ []
        → s.board.ends ≡ end_of bottom_connector_options (base_id application_editor) ∷ []
        → EditorEvents p opened number application_editor (Drag p) s d.workspace
        → plain_nodes d.workspace.board.nodes ≡ true
        → (e : Desk S) × ApplicationSave p opened d e × Moves p opened d e
    save-Moves numbering s d other start bare ends events plain =
        let (e, step) =
          save_clicked d
            (outcome_settled d.value numbering s d.workspace other start bare ends events plain) in
        (e, step, ApplicationSave-Moves p opened d e step)
