-- ===== src/Forms/Reach.antt =====
-- The connections of a page in the two editors, and what is drawn on it.
pub mod Events
use product_private_paas.Common.{
  codes, ℕ, suc, ◌≤◌, Text, text_eq, text_eq_refl, mem, distinct, ◌≡◌, refl, sym, ap, ◌∙◌, subst,
  Bool, true, false, not, Option, none, some, List, [], ◌∷◌, ◌++◌, map, drop, append-nil,
  append_assoc, arith, Bool-cases, inl, inr, if◌then◌else◌,
}
use product_private_paas.GroupJson.{Group, group}
use product_private_paas.Json.{Fields}
use product_private_paas.Export.{ok, DataType, Connection}
use product_private_paas.Forest.{Row, names_of}
use product_private_paas.Forest.Layout.{flatten}
use product_private_paas.GroupTree.{NodeType}
use product_private_paas.GroupTree.Preview.{document_tree}
use product_private_paas.Forms.{
  Workspace, Schema, fill_in, open_form, clicked_node, tab_data_of, group_tab_data_of, enables,
  drop_cartridge, drop_group, drop_group_node, block_type, component_info_update, update_form,
}
use product_private_paas.Forms.Clicks.{node_ids}
use product_private_paas.Forms.Prefixes.{begin_with, mem-begin_with, node_ids-append, row_ids}
use product_private_paas.Forms.Tidy.{Tidy, old_absent, begin_with-number, begin_with-group}
use product_private_paas.Forms.Events.{IsNumbering}
use product_private_paas.Forms.Linked.{Linked, Linked-append, Linked-transport, are_single}
use product_private_paas.Whiteboard.{
  Node, Board, dash, node_of, add_jsplumb_cartridge, add_group_node,
}
use product_private_paas.Whiteboard.Drawn.{add_jsplumb_group-Draws}
use product_private_paas.Whiteboard.Keys.{before_dash}
use product_private_paas.Whiteboard.Open.{open_ends, open_ends-group}
use product_private_paas.Whiteboard.Paths.{Shape, paths, row_node, links_of}
use product_private_paas.Whiteboard.Plumbing.{
  JsPlumb, End, EndpointOptions, endpoint_options, group_options, bottom_connector_options,
  top_center, bottom_center,
}
use product_private_paas.Whiteboard.Removal.Drawing.{nodes_of_group}
use product_private_paas.Whiteboard.Targets.{
  sources, targets, targets_of_drawing, sources_of_drawing,
}
use product_private_paas.Whiteboard.Ends.{elements, end_of, ends_of, mem-ends_of}

module _ {S : Type 0} (p : JsPlumb S) (opened : Schema → Fields → Fields) (number : ℕ → Text)
    (base : Text) where
  -- `Linked` of a page.
  abbrev pub IsLinked : Board S → Type 0
  IsLinked b = Linked base (node_ids b.nodes) (p.get_connections b.plumb) b.ends

  row_ids-names_of : (rows : List (Row (Shape NodeType))) → row_ids rows ≡ names_of rows
  row_ids-names_of [] = refl
  row_ids-names_of (r ∷ rows) = ap (λ l. r.name ∷ l) (row_ids-names_of rows)

  mem-twice : (x id : Text) → mem x (id ∷ id ∷ []) ≡ true → mem x (id ∷ []) ≡ true
  unfolding mem
  mem-twice x id m = ground (arith, m)

  distinct-tail : (xs : List Text) → distinct xs ≡ true → distinct (drop 1 xs) ≡ true
  unfolding distinct
  distinct-tail [] d = refl
  distinct-tail (x ∷ xs) d = ground (arith, d)

  mem_of_tail : (x : Text) (xs : List Text) → mem x (drop 1 xs) ≡ true → mem x xs ≡ true
  unfolding mem
  mem_of_tail x [] m = m
  mem_of_tail x (y ∷ xs) m = ground (arith, m)

  module _ (numbering : IsNumbering number)
      (other : (k : ℕ) → text_eq (before_dash base) (number k) ≡ false) where
    base_outside :
        (c : ℕ) (ids : List Text) → begin_with (number c) ids ≡ true → mem base ids ≡ false
    base_outside c ids b = elim (Bool-cases (mem base ids)) [
      | inr e ↦ e
      | inl m ↦
          let same : before_dash base ≡ number c = mem-begin_with (number c) base ids b m in
          cc (other c, ap (λ y. text_eq y (number c)) same, text_eq_refl (number c))
    ]

    -- A page on which nodes are drawn with the next number, and perhaps connections between them.
    grown :
        (ns new : List Node) (c : ℕ) (cs ds : List Connection) (es gs : List End)
        → Tidy p opened number ns c
        → begin_with (number c) (node_ids new) ≡ true
        → distinct (targets ds) ≡ true
        → ((x : Text) → mem x (targets ds) ≡ true → mem x (node_ids new) ≡ true)
        → ((x : Text) → mem x (sources ds) ≡ true → mem x (node_ids new) ≡ true)
        → ((x : Text) → mem x (elements gs) ≡ true → mem x (node_ids new) ≡ true)
        → are_single (open_ends gs) ≡ true
        → Linked base (node_ids ns) cs es
        → Linked base (node_ids (ns ++ new)) (cs ++ ds) (es ++ gs)
    grown ns new c cs ds es gs t b d known starts ends one l =
        Linked-transport base (node_ids ns ++ node_ids new) (node_ids (ns ++ new)) (cs ++ ds)
          (cs ++ ds) (es ++ gs) (es ++ gs) (sym (node_ids-append ns new)) refl refl
          (Linked-append base (node_ids ns) (node_ids new) cs ds es gs d
            (λ x m.
              old_absent p opened number numbering ns c x t
                (mem-begin_with (number c) x (node_ids new) b (known x m)))
            known starts ends (base_outside c (node_ids new) b) one l)

    -- One node, without connections.
    grown_node :
        (n : Node) (c : ℕ) (plumb : S) (b : Board S) (fs gs : List End)
        → Tidy p opened number b.nodes c
        → before_dash n.id ≡ number c
        → p.get_connections plumb ≡ p.get_connections b.plumb
        → are_single (open_ends gs) ≡ true
        → ((x : Text) → mem x (elements gs) ≡ true → mem x (n.id ∷ []) ≡ true)
        → fs ≡ b.ends ++ gs
        → IsLinked b
        → Linked base (node_ids (b.nodes ++ n ∷ [])) (p.get_connections plumb) fs
    unfolding distinct mem begin_with
    grown_node n c plumb b fs gs t first same one ends e l =
        Linked-transport base (node_ids (b.nodes ++ n ∷ [])) (node_ids (b.nodes ++ n ∷ []))
          (p.get_connections b.plumb ++ []) (p.get_connections plumb) (b.ends ++ gs) fs refl
          (append-nil (p.get_connections b.plumb) ∙ sym same) (sym e)
          (grown b.nodes (n ∷ []) c (p.get_connections b.plumb) [] b.ends gs t
            (ground (arith, ap (λ y. text_eq y (number c)) first, text_eq_refl (number c))) refl
            (λ x m. cc m) (λ x m. cc m) ends one l)

    pub IsLinked-cartridge :
        (name : Text) (s : Workspace S)
        → Tidy p opened number s.board.nodes s.counter
        → IsLinked s.board
        → IsLinked (drop_cartridge p opened number name s).board
    unfolding drop_cartridge add_jsplumb_cartridge open_ends are_single
    IsLinked-cartridge name s t l =
        let id = dash (number s.counter) name in
        grown_node (node_of DataType.cartridge id name) s.counter
          (p.add_endpoint id top_center s.board.plumb) s.board _ (end_of endpoint_options id ∷ []) t
          (begin_with-number p opened number numbering s.counter name)
          (p.get-add_endpoint id top_center s.board.plumb) refl (λ x m. m) refl l

    pub IsLinked-group :
        (g : Group) (s : Workspace S)
        → distinct (node_ids (nodes_of_group g (number s.counter))) ≡ true
        → Tidy p opened number s.board.nodes s.counter
        → IsLinked s.board
        → IsLinked (drop_group p opened number g s).board
    unfolding drop_group
    IsLinked-group g s d t l =
        let counter = number s.counter in
        let drawn = add_jsplumb_group-Draws p g counter s.board in
        let tree = paths counter (document_tree g) in
        let rows = flatten none tree in
        let ids = row_ids-names_of rows in
        let read : targets (links_of rows) ≡ drop 1 (row_ids rows) =
          targets_of_drawing tree ∙ ap (drop 1) (sym ids) in
        Linked-transport base _ _ _ _ _ _ (ap node_ids (sym drawn.nodes_drawn))
          (sym drawn.links_drawn) (sym drawn.endpoints_drawn)
          (grown s.board.nodes (nodes_of_group g counter) s.counter
            (p.get_connections s.board.plumb) (links_of rows) s.board.ends (ends_of rows) t
            (begin_with-group p opened number numbering g s.counter)
            (ap distinct read ∙ distinct-tail (row_ids rows) d)
            (λ x m. mem_of_tail x (row_ids rows) (ap (mem x) (sym read) ∙ m))
            (λ x m. ap (mem x) ids ∙ sources_of_drawing x tree m)
            (λ x m. ap (mem x) ids ∙ mem-ends_of x rows m)
            (ap are_single (open_ends-group g counter) ∙ (unfold are_single in refl)) l)

    pub IsLinked-group_node :
        (s : Workspace S)
        → Tidy p opened number s.board.nodes s.counter
        → IsLinked s.board
        → IsLinked (drop_group_node p opened number s).board
    unfolding drop_group_node add_group_node open_ends are_single
    IsLinked-group_node s t l =
        let id = dash (number s.counter) (codes "group") in
        grown_node _ s.counter
          (p.add_endpoint id top_center (p.add_endpoint id bottom_center s.board.plumb)) s.board _
          (end_of bottom_connector_options id ∷ end_of group_options id ∷ []) t
          (begin_with-number p opened number numbering s.counter (codes "group"))
          (p.get-add_endpoint id top_center (p.add_endpoint id bottom_center s.board.plumb)
            ∙ p.get-add_endpoint id bottom_center s.board.plumb)
          refl (λ x m. mem-twice x id m)
          (append_assoc s.board.ends (end_of bottom_connector_options id ∷ [])
            (end_of group_options id ∷ []))
          l
