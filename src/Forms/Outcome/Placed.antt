-- ===== src/Forms/Outcome/Placed.antt =====
-- What `dagrePosition` places on the pages that the user of an editor can reach.
use product_private_paas.Common.{
  ℕ, Text, text_eq, mem, ◌≡◌, Bool, true, false, ◌||◌, Option, none, some, List, [], ◌∷◌, arith,
  Bool-cases, inl, inr,
}
use product_private_paas.Json.{Fields}
use product_private_paas.Forms.{Workspace, Schema}
use product_private_paas.Forms.Events.{IsNumbering, EditorEvents}
use product_private_paas.Forms.Outcome.{reached}
use product_private_paas.Whiteboard.{node_ids}
use product_private_paas.Whiteboard.Drags.{Drag}
use product_private_paas.Whiteboard.Ends.{end_of}
use product_private_paas.Whiteboard.Keys.{before_dash}
use product_private_paas.Whiteboard.Placing.{
  Dagre, leads, dagre_graph, dagre_position, has_node-dagre_graph, has_edge-dagre_graph,
}
use product_private_paas.Whiteboard.Plumbing.{JsPlumb, bottom_connector_options}
use product_private_paas.Whiteboard.Removal.{Editor, base_id}
use product_private_paas.Whiteboard.Targets.{sources, targets}

abbrev pub is_placed : Option (ℕ × ℕ) → Bool
is_placed none = false
is_placed (some q) = true

absent_of :
    (x : Text) (xs ids : List Text)
    → (mem x xs ≡ true → mem x ids ≡ true)
    → (mem x xs || mem x ids) ≡ mem x ids
absent_of x xs ids h = elim (Bool-cases (mem x xs)) [
  | inl e ↦ ground (arith, e, h e)
  | inr e ↦ ground (arith, e)
]

module _ {S G : Type 0} (p : JsPlumb S) (opened : Schema → Fields → Fields) (number : ℕ → Text)
    (d : Dagre G) where
  -- On any page that the user of an editor can reach from a page with the base node alone, whose
  -- one endpoint is the lower one, and without connections, by events in which connections are
  -- drawn as the endpoints allow it, `dagrePosition` places exactly the elements that are nodes of
  -- the page, and the graph that dagre lays out has an edge exactly where a connection leads from
  -- the one node to the other. The texts of numbers are different for different numbers, have no
  -- dash and are not the first part of the base node's id, and no group that is drawn gives two of
  -- its own nodes the same id.
  pub dagre_position-places :
      (editor : Editor) (numbering : IsNumbering number) (s q : Workspace S) (id x y : Text)
      → ((k : ℕ) → text_eq (before_dash (base_id editor)) (number k) ≡ false)
      → node_ids s.board.nodes ≡ base_id editor ∷ []
      → p.get_connections s.board.plumb ≡ []
      → s.board.ends ≡ end_of bottom_connector_options (base_id editor) ∷ []
      → EditorEvents p opened number editor (Drag p) s q
      → (is_placed (dagre_position p d q.board id) ≡ mem id (node_ids q.board.nodes))
        × (d.has_edge (dagre_graph p d q.board) x y ≡ leads x y (p.get_connections q.board.plumb))
  unfolding dagre_position
  dagre_position-places editor numbering s q id x y other start bare ends events =
      let l = reached p opened number editor numbering s q other start bare ends events in
      let ids = node_ids q.board.nodes in
      let cs = p.get_connections q.board.plumb in
      let nodes : d.has_node (dagre_graph p d q.board) id ≡ mem id ids = ground (
        arith,
        has_node-dagre_graph p d q.board id,
        absent_of id (targets cs) ids (l.targets_known id),
        absent_of id (sources cs) ids (l.sources_known id),
      ) in
      (
        elim (Bool-cases (d.has_node (dagre_graph p d q.board) id)) [
          | inl e ↦ ground (arith, e, nodes)
          | inr e ↦ ground (arith, e, nodes)
        ],
        has_edge-dagre_graph p d q.board x y,
      )
