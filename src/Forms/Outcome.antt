-- ===== src/Forms/Outcome.antt =====
-- What Save does on the pages that the user of an editor can reach.
pub mod Placed
pub mod Tests
use product_private_paas.Common.{
  codes, ℕ, Text, text_eq, text_eq_complete, mem, distinct, ◌≡◌, refl, sym, ap, ◌∙◌, text_eq_refl,
  ◌&&◌, Bool, true, false, some, List, [], ◌∷◌, length, Bool-cases, inl, inr, ◌⊎◌, arith,
}
use product_private_paas.Json.{Fields}
use product_private_paas.Export.{
  throw, syntax_error, type_error, Attributes, Connection, Entry, RawTree, hierarchy, Result, ok,
}
use product_private_paas.Export.Cleanup.{traverse}
use product_private_paas.Export.Assemble.{
  raw_tree, group_raw_tree, generate_jsplumb_tree, gen_group_json, finish, application_fields,
  group_document,
}
use product_private_paas.Json.{Json, obj}
use product_private_paas.Export.Parents.{hierarchy_throws}
use product_private_paas.Export.Reading.{reading}
use product_private_paas.Export.Sources.{group_ids, has_group_sources}
use product_private_paas.Export.Wired.{
  is_wired, generate_jsplumb_tree-reading, gen_group_json-reading,
}
use product_private_paas.Export.Walk.{items_of}
use product_private_paas.Forest.{names_of}
use product_private_paas.Forest.Trees.{Roses}
use product_private_paas.Forms.{Workspace, Schema, attributes_in, saved_application, saved_group}
use product_private_paas.Forms.Clicks.{node_ids}
use product_private_paas.Forms.Distinct.{starts-IsTidy}
use product_private_paas.Forms.Events.{IsNumbering, EditorEvents}
use product_private_paas.Forms.Linked.{Linked-transport, Linked, are_single}
use product_private_paas.Forms.Reach.{IsLinked}
use product_private_paas.Forms.Reach.Events.{IsSound-events}
use product_private_paas.Forms.Saving.{all_filled, raw_tree_throws}
use product_private_paas.Forms.Unlinked.{Reads, raw_tree-Reads}
use product_private_paas.Whiteboard.Drags.{Drag}
use product_private_paas.Whiteboard.Keys.{before_dash}
use product_private_paas.Whiteboard.Open.{open_ends}
use product_private_paas.Whiteboard.Plumbing.{JsPlumb}
use product_private_paas.Whiteboard.Removal.{Editor, application_editor, group_editor, base_id}
use product_private_paas.Whiteboard.Targets.{sources, targets}
use product_private_paas.Whiteboard.Ends.{end_of}
use product_private_paas.Whiteboard.Plumbing.{bottom_connector_options}
use product_private_paas.Forms.Rows.{
  plain_nodes, plain-attributes_in, are_plain-raw_tree, are_plain-group_raw_tree,
  names-group_raw_tree, wired_of, application_rows,
}

-- Every text of the second list is in the first.
unfoldable pub are_in : List Text → List Text → Bool
are_in ids [] = true
are_in ids (x ∷ xs) = mem x ids && are_in ids xs

are_in_of_mem :
    (ids xs : List Text) → ((x : Text) → mem x xs ≡ true → mem x ids ≡ true) → are_in ids xs ≡ true
unfolding are_in mem
are_in_of_mem ids [] h = refl
are_in_of_mem ids (x ∷ xs) h =
    let first = h x (ground (arith, text_eq_refl x)) in
    let rest = are_in_of_mem ids xs (λ k m. h k (ground (arith, m))) in ground (arith, first, rest)

module _ {S : Type 0} (p : JsPlumb S) (opened : Schema → Fields → Fields) (number : ℕ → Text) where
  -- The page when it has loaded.
  Linked-start :
      (base : Text) → Linked base (base ∷ []) [] (end_of bottom_connector_options base ∷ [])
  unfolding distinct mem are_single open_ends
  Linked-start base = record {
    targets_apart = refl;
    targets_known = λ x m. cc m;
    sources_known = λ x m. cc m;
    base_free = refl;
    ends_known = λ x m. m;
    base_closed = refl;
    ends_single = refl;
  }

  -- The connections of a page that the user of an editor can reach.
  reached :
      (editor : Editor) (numbering : IsNumbering number) (s q : Workspace S)
      → ((k : ℕ) → text_eq (before_dash (base_id editor)) (number k) ≡ false)
      → node_ids s.board.nodes ≡ base_id editor ∷ []
      → p.get_connections s.board.plumb ≡ []
      → s.board.ends ≡ end_of bottom_connector_options (base_id editor) ∷ []
      → EditorEvents p opened number editor (Drag p) s q
      → IsLinked p opened number (base_id editor) q.board
  reached editor numbering s q other start bare ends events =
      IsSound-events p opened number editor numbering other s q events
        (starts-IsTidy p opened number editor (Drag p) numbering s other start)
        (Linked-transport (base_id editor) _ _ _ _ _ _ (sym start) (sym bare) (sym ends)
          (Linked-start (base_id editor)))

  -- In both editors, from a page with the base node alone, whose one endpoint is the lower one, and
  -- without connections, and after any sequence of events in which connections are drawn as the endpoints
  -- allow it: no two connections lead to the same node, none leads to the base node, and each starts at
  -- a node of the page and leads to one. The texts of numbers are different for different numbers,
  -- have no dash and are not the first part of the base node's id, and no group that is drawn gives two
  -- of its own nodes the same id.
  pub connections_stay_apart :
      (editor : Editor) (numbering : IsNumbering number) (s q : Workspace S)
      → ((k : ℕ) → text_eq (before_dash (base_id editor)) (number k) ≡ false)
      → node_ids s.board.nodes ≡ base_id editor ∷ []
      → p.get_connections s.board.plumb ≡ []
      → s.board.ends ≡ end_of bottom_connector_options (base_id editor) ∷ []
      → EditorEvents p opened number editor (Drag p) s q
      → (distinct (targets (p.get_connections q.board.plumb)) ≡ true)
        × (mem (base_id editor) (targets (p.get_connections q.board.plumb)) ≡ false)
        × (are_in (node_ids q.board.nodes) (sources (p.get_connections q.board.plumb)) ≡ true)
        × (are_in (node_ids q.board.nodes) (targets (p.get_connections q.board.plumb)) ≡ true)
  connections_stay_apart editor numbering s q other start bare ends events =
      let l = reached editor numbering s q other start bare ends events in
      (
        l.targets_apart,
        l.base_free,
        are_in_of_mem (node_ids q.board.nodes) (sources (p.get_connections q.board.plumb))
            l.sources_known,
        are_in_of_mem (node_ids q.board.nodes) (targets (p.get_connections q.board.plumb))
            l.targets_known,
      )

  -- Save on any page that the user of the application editor can reach from a page with the
  -- application's node alone, whose one endpoint is the lower one, and without connections, by
  -- events in which connections are drawn as the endpoints allow it ends in exactly one of three
  -- ways. If a node that a connection leads to has not been updated, it ends in a SyntaxError. If
  -- all have been, and some connection starts neither at the application's node nor at a group that
  -- a connection leads to, it ends in a TypeError. If all have been, and no connection starts
  -- elsewhere, following the connections from the application's node gives a forest, and Save ends
  -- with the clean-up of the document of this forest. The texts of numbers are different for
  -- different numbers, have no dash and are not the first part of the id of the application's node,
  -- no group that is drawn gives two of its own nodes the same id, and the value of no cartridge
  -- has a list (or a text) as its property groups or cartridges.
  pub save_outcome :
      (value : Fields) (numbering : IsNumbering number) (s q : Workspace S)
      → ((k : ℕ) → text_eq (before_dash (base_id application_editor)) (number k) ≡ false)
      → node_ids s.board.nodes ≡ base_id application_editor ∷ []
      → p.get_connections s.board.plumb ≡ []
      → s.board.ends ≡ end_of bottom_connector_options (base_id application_editor) ∷ []
      → EditorEvents p opened number application_editor (Drag p) s q
      → plain_nodes q.board.nodes ≡ true
      → ((all_filled (attributes_in q.board.nodes) (p.get_connections q.board.plumb) ≡ false)
          × (saved_application p opened value q ≡ throw syntax_error))
        ⊎ ((all_filled (attributes_in q.board.nodes) (p.get_connections q.board.plumb) ≡ true)
            × (rows : RawTree) × (raw_tree
                  (attributes_in q.board.nodes)
                  (p.get_connections q.board.plumb)
                ≡ ok rows)
            × (((has_group_sources (base_id application_editor) (group_ids rows) rows ≡ false)
                  × (saved_application p opened value q ≡ throw type_error))
                ⊎ ((has_group_sources (base_id application_editor) (group_ids rows) rows ≡ true)
                    × (ts : Roses Entry) × (reading rows (length rows) (base_id application_editor)
                        ≡ some ts)
                    × (saved_application p opened value q
                        ≡ finish (
                            traverse (
                              obj (
                                application_fields value
                                  (items_of true true (some (base_id application_editor)) ts)
                                  (items_of false true
                                    (some (base_id application_editor))
                                    ts))))))))
  unfolding saved_application generate_jsplumb_tree
  save_outcome value numbering s q other start bare ends events plain =
      let l = reached application_editor numbering s q other start bare ends events in
      let attr = attributes_in q.board.nodes in
      let cs = p.get_connections q.board.plumb in
      elim (Bool-cases (all_filled attr cs)) [
        | inr e ↦ inl (e, rw (raw_tree_throws attr cs e) refl)
        | inl e ↦
            let f = raw_tree-Reads attr cs e in
            inr (
              e,
              f.rows,
              f.returned,
              application_rows attr cs value f.rows f.returned f.names_read l.targets_apart
                  l.base_free
                  (are_plain-raw_tree attr cs f.rows
                    (λ id. plain-attributes_in q.board.nodes id plain) f.returned),
            )
      ]

  -- Save on any page that the user of the group editor can reach from a page with the group's own
  -- node alone, whose one endpoint is the lower one, and without connections, by events in which
  -- connections are drawn as the endpoints allow it ends in exactly one of two ways. If some
  -- connection starts neither at the group's own node nor at a group that a connection leads to, it
  -- ends in a TypeError. If none does, following the connections from the group's own node gives a
  -- forest, and Save ends with the clean-up of the document of this forest. The texts of numbers
  -- are different for different numbers, have no dash and are not the first part of the id of the
  -- group's own node, no group that is drawn gives two of its own nodes the same id, and the value
  -- of no cartridge has a list (or a text) as its property groups or cartridges.
  pub group_save_outcome :
      (numbering : IsNumbering number) (s q : Workspace S)
      → ((k : ℕ) → text_eq (before_dash (base_id group_editor)) (number k) ≡ false)
      → node_ids s.board.nodes ≡ base_id group_editor ∷ []
      → p.get_connections s.board.plumb ≡ []
      → s.board.ends ≡ end_of bottom_connector_options (base_id group_editor) ∷ []
      → EditorEvents p opened number group_editor (Drag p) s q
      → plain_nodes q.board.nodes ≡ true
      → (rows : RawTree) × (group_raw_tree
            (attributes_in q.board.nodes)
            (p.get_connections q.board.plumb)
          ≡ rows)
        × (((has_group_sources (base_id group_editor) (group_ids rows) rows ≡ false)
              × (saved_group p opened q ≡ throw type_error))
            ⊎ ((has_group_sources (base_id group_editor) (group_ids rows) rows ≡ true)
                × (ts : Roses Entry) × (reading rows (length rows) (base_id group_editor) ≡ some ts)
                × (saved_group p opened q
                    ≡ finish (
                        traverse (
                          obj (
                            group_document
                              (attributes_in q.board.nodes (base_id group_editor)).data_generated
                              (items_of true false (some (base_id group_editor)) ts)
                              (items_of false false (some (base_id group_editor)) ts)))))))
  unfolding saved_group gen_group_json
  group_save_outcome numbering s q other start bare ends events plain =
      let l = reached group_editor numbering s q other start bare ends events in
      let attr = attributes_in q.board.nodes in
      let cs = p.get_connections q.board.plumb in
      let base = base_id group_editor in
      let e = names-group_raw_tree attr cs in
      let rows = group_raw_tree attr cs in
      (
        rows,
        refl,
        elim (Bool-cases (has_group_sources base (group_ids rows) rows)) [
          | inl h ↦
              let (ts, read_as, saved_as) =
                gen_group_json-reading attr cs (attributes_in q.board.nodes base).data_generated
                  (wired_of base cs rows e l.targets_apart l.base_free h) in
              inr (h, ts, read_as, saved_as)
          | inr h ↦
              let thrown : hierarchy base rows ≡ throw type_error =
                hierarchy_throws base rows (ap distinct e ∙ l.targets_apart)
                  (are_plain-group_raw_tree attr cs
                    (λ id. plain-attributes_in q.board.nodes id plain))
                  h in
              inl (h, rw thrown refl)
        ],
      )
