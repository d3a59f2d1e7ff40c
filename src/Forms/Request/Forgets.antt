-- ===== src/Forms/Request/Forgets.antt =====
-- The dependencies in the documents that the application editor sends.
use product_private_paas.Common.{
  Text, codes, text_eq, ◌≡◌, ◌⊎◌, refl, sym, ap, ◌∙◌, true, false, Option, none, some, List, [],
  ◌∷◌, ◌++◌, arith, inl, inr, Option-cases,
}
use product_private_paas.Json.{
  Json, Items, Fields, obj, no_fields, field, get_field, put_field, delete_field,
}
use product_private_paas.Json.Laws.{get_field-put_field, get_field-delete_field}
use product_private_paas.Export.{ok, Connection, Attributes, hierarchy}
use product_private_paas.Export.Assemble.{
  raw_tree, generate_jsplumb_tree, application_fields, components, finish, top_items,
}
use product_private_paas.Export.Cleanup.{traverse, traverse_fields, is_dropped, is_helper}
use product_private_paas.Export.Cleanup.Partial.{left_of_fields_absent}
use product_private_paas.Export.Cleanup.Gets.{traverse_fields_absent, traverse_fields_present}
use product_private_paas.Export.Wired.{Result-cases}
use product_private_paas.Forms.{Schema, attributes_in, saved_application}
use product_private_paas.Forms.Request.{
  Desk, ApplicationSave, sends, throws_reading, throws_merging, throws_cleaning, send_document,
}
use product_private_paas.Whiteboard.Plumbing.{JsPlumb}

-- The document before the clean-up.
finished_fields :
    (xs fs : Fields) → finish (traverse (obj xs)) ≡ ok (obj fs) → traverse_fields xs ≡ some fs
unfolding traverse
finished_fields xs fs h = elim (Option-cases (traverse_fields xs)) [
  | inl e ↦ absurd (ground (arith, e, h))
  | inr (gs, e) ↦ let same : gs ≡ fs = ground (arith, e, h) in e ∙ ap some same
]

assembled :
    (attr : Text → Attributes) (cs : List Connection) (value fs : Fields)
    → generate_jsplumb_tree attr cs value ≡ ok (obj fs)
    → (gs : Items) × (ks : Items) × (traverse_fields (application_fields value gs ks) ≡ some fs)
unfolding generate_jsplumb_tree
assembled attr cs value fs h = elim (Result-cases (raw_tree attr cs)) [
  | inr (x, e) ↦ absurd (ground (arith, e, h))
  | inl (rows, e) ↦ elim (Result-cases (hierarchy (codes "applicationId") rows)) [
    | inr (x, u) ↦ absurd (ground (arith, e, u, h))
    | inl (k, u) ↦ elim (Option-cases (top_items true rows k)) [
      | inl t ↦ absurd (ground (arith, e, u, t, h))
      | inr (q, t) ↦ (
        q.0,
        q.1,
        finished_fields (application_fields value q.0 q.1) fs (ground (arith, e, u, t, h)),
      )
    ]
  ]
]

-- The value of a form once `dependencies` is deleted.
deleted_absent :
    (fs : Fields) → get_field (codes "dependencies") (delete_field (codes "dependencies") fs) ≡ none
unfolding text_eq
deleted_absent fs = get_field-delete_field (codes "dependencies") (codes "dependencies") fs

abbrev moved : Option Json → Fields
moved none = no_fields
moved (some d) = field (codes "dependencies") d no_fields

abbrev pub cleaned : Option Json → Option Json
cleaned none = none
cleaned (some d) = traverse d

components_dropped : (w : Json) → is_dropped (codes "components") w ≡ some false
unfolding is_dropped is_helper text_eq
components_dropped w = refl

dependencies_dropped : (w : Json) → is_dropped (codes "dependencies") w ≡ some false
unfolding is_dropped is_helper text_eq
dependencies_dropped w = refl

get-components :
    (value : Fields) (gs ks : Items)
    → get_field (codes "components") (application_fields value gs ks)
      ≡ some (obj (components value gs ks))
unfolding text_eq
get-components value gs ks =
    get_field-delete_field (codes "components") (codes "dependencies")
      (put_field (codes "components") (obj (components value gs ks)) value)
    ∙ get_field-put_field (codes "components") (codes "components") (obj (components value gs ks))
        value

get-dependencies :
    (value : Fields) (gs ks : Items)
    → get_field (codes "dependencies") (components value gs ks)
      ≡ get_field (codes "dependencies") value
unfolding get_field text_eq
get-dependencies value gs ks = elim (Option-cases (get_field (codes "dependencies") value)) [
  | inl e ↦ ground (arith, e)
  | inr (d, e) ↦ ground (arith, e)
]

-- The dependencies of a cleaned object.
cleaned-dependencies :
    (fs gs : Fields)
    → traverse_fields fs ≡ some gs
    → get_field (codes "dependencies") gs ≡ cleaned (get_field (codes "dependencies") fs)
cleaned-dependencies fs gs t = elim (Option-cases (get_field (codes "dependencies") fs)) [
  | inl e ↦ traverse_fields_absent (codes "dependencies") fs gs t e ∙ ap cleaned (sym e)
  | inr (d, e) ↦
      let (w, u, at_k) =
        traverse_fields_present (codes "dependencies") d fs gs dependencies_dropped t e in
      at_k ∙ sym u ∙ ap cleaned (sym e)
]

object_of :
    (xs : Fields) (w : Json)
    → traverse (obj xs) ≡ some w
    → (ys : Fields) × (traverse_fields xs ≡ some ys) × (w ≡ obj ys)
unfolding traverse
object_of xs w h = elim (Option-cases (traverse_fields xs)) [
  | inl e ↦ absurd (ground (arith, e, h))
  | inr (ys, e) ↦ (ys, e, ground (arith, e, h))
]

module _ {S : Type 0} (p : JsPlumb S) (opened : Schema → Fields → Fields) where
  sent_document :
      (d : Desk S) (fs : Fields)
      → saved_application p opened d.value d.workspace ≡ ok (obj fs)
      → (cs : Fields) × (get_field (codes "components") fs ≡ some (obj cs))
        × (get_field (codes "dependencies") cs ≡ cleaned (get_field (codes "dependencies") d.value))
        × (get_field (codes "dependencies") fs ≡ none)
  unfolding saved_application
  sent_document d fs h =
      let (gs, ks, t) =
        assembled (attributes_in d.workspace.board.nodes)
          (p.get_connections d.workspace.board.plumb) d.value fs h in
      let whole = application_fields d.value gs ks in
      let (w, u, at_components) =
        traverse_fields_present (codes "components") (obj (components d.value gs ks)) whole fs
          components_dropped t (get-components d.value gs ks) in
      let (cs, v, same) = object_of (components d.value gs ks) w u in
      (
        cs,
        at_components ∙ ap some same,
        cleaned-dependencies (components d.value gs ks) cs v
            ∙ ap cleaned (get-dependencies d.value gs ks),
        traverse_fields_absent (codes "dependencies") whole fs t (deleted_absent _),
      )

  -- What the click does with the dependencies: afterwards the value of the form has none. Either no
  -- request is sent, or one more, whose document has in its components those that the value had, cleaned.
  abbrev pub Moves : Desk S → Desk S → Type 0
  Moves d e =
      (get_field (codes "dependencies") e.value ≡ none)
      × ((e.requests ≡ d.requests)
          ⊎ ((fs : Fields) × (cs : Fields) × (e.requests
                ≡ d.requests
                  ++ record { form_payload = obj fs; formtype = codes "applications" } ∷ [])
              × (get_field (codes "components") fs ≡ some (obj cs))
              × (get_field (codes "dependencies") cs
                  ≡ cleaned (get_field (codes "dependencies") d.value))))

  pub ApplicationSave-Moves : (d e : Desk S) → ApplicationSave p opened d e → Moves d e
  unfolding send_document
  ApplicationSave-Moves _ _ (sends d fs h) =
      let (cs, at_components, deps, gone) = sent_document d fs h in
      (gone, inr (fs, cs, refl, at_components, deps))
  ApplicationSave-Moves _ _ (throws_reading d x h) = (deleted_absent _, inl refl)
  ApplicationSave-Moves _ _ (throws_merging d x rows c read h thrown) = (deleted_absent _, inl refl)
  ApplicationSave-Moves _ _ (throws_cleaning d rows h gs cs read placed tops t) =
      (left_of_fields_absent (codes "dependencies") _ (deleted_absent _), inl refl)

  -- After a click on Save in the application editor, whatever has come of it, and whatever has been done
  -- to the page since, without an edit of the application's form: the next click sends no request, or one
  -- whose document has no dependencies in its components.
  pub save_again_forgets :
      (d e m f : Desk S)
      → ApplicationSave p opened d e
      → m.value ≡ e.value
      → ApplicationSave p opened m f
      → (f.requests ≡ m.requests)
        ⊎ ((fs : Fields) × (cs : Fields) × (f.requests
              ≡ m.requests
                ++ record { form_payload = obj fs; formtype = codes "applications" } ∷ [])
            × (get_field (codes "components") fs ≡ some (obj cs))
            × (get_field (codes "dependencies") cs ≡ none))
  save_again_forgets d e m f first same second =
      let gone = ap (get_field (codes "dependencies")) same ∙ (ApplicationSave-Moves d e first).0 in
      elim (ApplicationSave-Moves m f second).1 [
        | inl h ↦ inl h
        | inr (fs, cs, sent, at_components, deps) ↦
            inr (fs, cs, sent, at_components, deps ∙ ap cleaned gone)
      ]
