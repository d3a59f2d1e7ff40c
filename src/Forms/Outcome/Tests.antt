-- ===== src/Forms/Outcome/Tests.antt =====
-- Tests of Save on a page that is reached by a few events.
use product_private_paas.Common.{
  Text, ℕ, zero, suc, codes, text_eq, mem, distinct, count, ◌≡◌, ◌⊎◌, refl, true, false, some, List,
  [], ◌∷◌, length, arith,
}
use product_private_paas.Json.{obj, no_fields}
use product_private_paas.Export.{
  ok, throw, syntax_error, type_error, Connection, DataType, RawTree, Entry,
}
use product_private_paas.Export.Assemble.{
  raw_tree, group_raw_tree, finish, application_fields, group_document,
}
use product_private_paas.Export.Cleanup.{traverse}
use product_private_paas.Export.Reading.{reading}
use product_private_paas.Export.Sources.{group_ids, has_group_sources}
use product_private_paas.Export.Walk.{items_of}
use product_private_paas.Forest.Trees.{Roses}
use product_private_paas.Forms.{
  Workspace, attributes_in, drop_cartridge, drop_group_node, saved_application, saved_group,
}
use product_private_paas.Forms.Clicks.{node_ids}
use product_private_paas.Forms.Events.{
  EditorEvents, rest, next, drops_cartridge, drops_node, connects,
}
use product_private_paas.Forms.Outcome.{
  are_in, connections_stay_apart, save_outcome, group_save_outcome,
}
use product_private_paas.Forms.Rows.{plain_nodes}
use product_private_paas.Forms.Saving.{all_filled}
use product_private_paas.Forms.Outcome.Placed.{is_placed, dagre_position-places}
use product_private_paas.Whiteboard.Placing.{Dagre, leads, dagre_graph, dagre_position}
use product_private_paas.Forms.Tests.{
  unary, unary-IsNumbering, base-unary, first_page, as_given, with_php,
}
use product_private_paas.Whiteboard.{node_of, add_jsplumb_cartridge, add_group_node}
use product_private_paas.Whiteboard.Drags.{Drag, attaches}
use product_private_paas.Whiteboard.Keys.{before_dash}
use product_private_paas.Whiteboard.Plumbing.{
  bottom_connector_options, endpoint_options, group_options,
}
use product_private_paas.Whiteboard.Removal.{application_editor, group_editor, base_id}
use product_private_paas.Whiteboard.Targets.{sources, targets}
use product_private_paas.Whiteboard.Tests.{wires}

abbrev wire : Connection
wire = record { source_id = codes "applicationId"; target_id = codes "-php" }

-- A cartridge is drawn, and connected with the application's node.
abbrev pub linked : Workspace (List Connection)
linked = record with_php { board = record with_php.board { plumb = wire ∷ [] } }

linked-Drag : Drag wires with_php.board (wire ∷ [])
unfolding drop_cartridge add_jsplumb_cartridge count
linked-Drag =
    attaches [] [] 0 1
      (record { element = codes "applicationId"; options = bottom_connector_options })
      (record { element = codes "-php"; options = endpoint_options }) refl refl refl refl refl
      (omega arith) refl

pub linked-EditorEvents :
    EditorEvents wires as_given unary application_editor (Drag wires) first_page linked
linked-EditorEvents =
    next first_page with_php linked
      (next first_page first_page with_php (rest first_page)
        (drops_cartridge (codes "php") first_page))
      (connects (wire ∷ []) with_php linked-Drag)

connections_stay_apart_example :
    (distinct (targets (wire ∷ [])) ≡ true)
    × (mem (codes "applicationId") (targets (wire ∷ [])) ≡ false)
    × (are_in (node_ids linked.board.nodes) (sources (wire ∷ [])) ≡ true)
    × (are_in (node_ids linked.board.nodes) (targets (wire ∷ [])) ≡ true)
connections_stay_apart_example =
    connections_stay_apart wires as_given unary application_editor unary-IsNumbering first_page
      linked base-unary refl refl refl linked-EditorEvents

pub linked-plain : plain_nodes linked.board.nodes ≡ true
unfolding plain_nodes drop_cartridge add_jsplumb_cartridge
linked-plain = refl

save_outcome_example :
    ((all_filled (attributes_in linked.board.nodes) (wire ∷ []) ≡ false)
      × (saved_application wires as_given no_fields linked ≡ throw syntax_error))
    ⊎ ((all_filled (attributes_in linked.board.nodes) (wire ∷ []) ≡ true)
        × (rows : RawTree) × (raw_tree (attributes_in linked.board.nodes) (wire ∷ []) ≡ ok rows)
        × (((has_group_sources (codes "applicationId") (group_ids rows) rows ≡ false)
              × (saved_application wires as_given no_fields linked ≡ throw type_error))
            ⊎ ((has_group_sources (codes "applicationId") (group_ids rows) rows ≡ true)
                × (ts : Roses Entry) × (reading rows (length rows) (codes "applicationId")
                    ≡ some ts)
                × (saved_application wires as_given no_fields linked
                    ≡ finish (
                        traverse (
                          obj (
                            application_fields no_fields
                              (items_of true true (some (codes "applicationId")) ts)
                              (items_of false true (some (codes "applicationId")) ts))))))))
save_outcome_example =
    save_outcome wires as_given unary no_fields unary-IsNumbering first_page linked base-unary refl
      refl refl linked-EditorEvents linked-plain

-- The group editor, in which a group is drawn and connected.
abbrev group_start : Workspace (List Connection)
group_start = record first_page {
  board = record first_page.board {
    nodes = node_of DataType.group (codes "group-base") [] ∷ [];
    ends = record { element = codes "group-base"; options = bottom_connector_options } ∷ [];
  };
}

abbrev group_drawn : Workspace (List Connection)
group_drawn = drop_group_node wires as_given unary group_start

abbrev group_wire : Connection
group_wire = record { source_id = codes "group-base"; target_id = codes "-group" }

abbrev group_linked : Workspace (List Connection)
group_linked = record group_drawn { board = record group_drawn.board { plumb = group_wire ∷ [] } }

group_linked-Drag : Drag wires group_drawn.board (group_wire ∷ [])
unfolding drop_group_node add_group_node count
group_linked-Drag =
    attaches [] [] 0 2 (record { element = codes "group-base"; options = bottom_connector_options })
      (record { element = codes "-group"; options = group_options }) refl refl refl refl refl
      (omega arith) refl

group_linked-EditorEvents :
    EditorEvents wires as_given unary group_editor (Drag wires) group_start group_linked
group_linked-EditorEvents =
    next group_start group_drawn group_linked
      (next group_start group_start group_drawn (rest group_start) (drops_node group_start refl))
      (connects (group_wire ∷ []) group_drawn group_linked-Drag)

group_base-unary : (k : ℕ) → text_eq (before_dash (base_id group_editor)) (unary k) ≡ false
unfolding text_eq before_dash
group_base-unary zero = refl
group_base-unary (suc k) = refl

group_linked-plain : plain_nodes group_linked.board.nodes ≡ true
unfolding plain_nodes drop_group_node add_group_node
group_linked-plain = refl

group_save_outcome_example :
    (rows : RawTree) × (group_raw_tree (attributes_in group_linked.board.nodes) (group_wire ∷ [])
      ≡ rows)
    × (((has_group_sources (codes "group-base") (group_ids rows) rows ≡ false)
          × (saved_group wires as_given group_linked ≡ throw type_error))
        ⊎ ((has_group_sources (codes "group-base") (group_ids rows) rows ≡ true)
            × (ts : Roses Entry) × (reading rows (length rows) (codes "group-base") ≡ some ts)
            × (saved_group wires as_given group_linked
                ≡ finish (
                    traverse (
                      obj (
                        group_document
                          (attributes_in group_linked.board.nodes
                            (codes "group-base")).data_generated
                          (items_of true false (some (codes "group-base")) ts)
                          (items_of false false (some (codes "group-base")) ts)))))))
group_save_outcome_example =
    group_save_outcome wires as_given unary unary-IsNumbering group_start group_linked
      group_base-unary refl refl refl group_linked-EditorEvents group_linked-plain

-- A graph as its nodes and its edges.
abbrev Graph : Type 0
Graph = List Text × List Connection

listed : Dagre Graph
unfolding mem leads
listed = record {
  new_graph = ([], []);
  set_node = λ k g. (k ∷ g.0, g.1);
  set_edge = λ a b g. (a ∷ b ∷ g.0, record { source_id = a; target_id = b } ∷ g.1);
  has_node = λ g x. mem x g.0;
  has_edge = λ g x y. leads x y g.1;
  place = λ g x. (0, 0);
  has_node-new_graph = λ x. refl;
  has_edge-new_graph = λ x y. refl;
  has_node-set_node = λ k x g. refl;
  has_edge-set_node = λ k x y g. refl;
  has_node-set_edge = λ a b x g. ground arith;
  has_edge-set_edge = λ a b x y g. refl;
}

dagre_position-places_example :
    (is_placed (dagre_position wires listed linked.board (codes "-php"))
      ≡ mem (codes "-php") (node_ids linked.board.nodes))
    × (listed.has_edge
          (dagre_graph wires listed linked.board)
          (codes "applicationId")
          (codes "-php")
        ≡ leads (codes "applicationId") (codes "-php") (wire ∷ []))
dagre_position-places_example =
    dagre_position-places wires as_given unary listed application_editor unary-IsNumbering
      first_page linked (codes "-php") (codes "applicationId") (codes "-php") base-unary refl refl
      refl linked-EditorEvents
