-- ===== src/Whiteboard/Tests.antt =====
-- A whiteboard with jsPlumb's state cut down to its list of connections.
use product_private_paas.Common.{
  codes, text_eq, ◌≡◌, refl, true, false, none, some, List, [], ◌∷◌, ◌++◌, get_elem?,
}
use product_private_paas.GroupTree.Tests.{web_stack}
use product_private_paas.GroupTree.Preview.{document_tree, parts, leaves, group_trees}
use product_private_paas.Forest.Layout.{flatten, join}
use product_private_paas.Export.{Connection, DataType}
use product_private_paas.Whiteboard.{Node, Board, node_of, add_jsplumb_group}
use product_private_paas.Whiteboard.Drawn.{add_jsplumb_group-Draws}
use product_private_paas.Whiteboard.Draws.{Draws}
use product_private_paas.Whiteboard.Keys.{key, before_dash, after_dash}
use product_private_paas.Whiteboard.Paths.{paths}
use product_private_paas.Whiteboard.Plumbing.{JsPlumb, without}
use product_private_paas.Whiteboard.Plumbing.{bottom_connector_options, endpoint_options}
use product_private_paas.Whiteboard.Removal.{
  application_editor, base_id, others, IsRemoved, delete_node, delete_node-removes,
}
use product_private_paas.Whiteboard.Removal.Drawing.{nodes_of_group, group_name, delete_node-drawn}

abbrev pub wires : JsPlumb (List Connection)
wires = record {
  get_connections = λ s. s;
  add_endpoint = λ id a s. s;
  connect = λ source target s. s ++ record { source_id = source; target_id = target } ∷ [];
  drop_endpoints = λ id s. s;
  detach_all_connections = λ id s. without id s;
  get-add_endpoint = λ id a s. refl;
  get-connect = λ source target s. refl;
  get-drop_endpoints = λ id s. refl;
  get-detach_all_connections = λ id s. refl;
}

abbrev php : Node
php = node_of DataType.cartridge (codes "1-php") (codes "php")

abbrev board : Board (List Connection)
board = record {
  nodes = php ∷ [];
  plumb = record { source_id = codes "applicationId"; target_id = codes "1-php" } ∷ [];
  ends =
      record { element = codes "applicationId"; options = bottom_connector_options }
      ∷ record { element = codes "1-php"; options = endpoint_options }
      ∷ [];
  notes = [];
  component_data = [];
  tab = [];
}

add_jsplumb_group-Draws_example :
    Draws wires
      (flatten none (paths (codes "2") (document_tree web_stack)))
      board
      (add_jsplumb_group wires web_stack (codes "2") board)
add_jsplumb_group-Draws_example = add_jsplumb_group-Draws wires web_stack (codes "2") board

php-not_base : text_eq (codes "1-php") (base_id application_editor) ≡ false
unfolding text_eq
php-not_base = refl

delete_node-removes_example :
    IsRemoved wires
      (key (codes "1-php"))
      board
      (delete_node wires application_editor true php board)
delete_node-removes_example = delete_node-removes wires application_editor php board php-not_base

abbrev mysql : Node
mysql = node_of DataType.cartridge (codes "2-web-db-mysql") (codes "mysql")

two-no_dash : after_dash (codes "2") ≡ none
unfolding after_dash
two-no_dash = refl

mysql-drawn : get_elem? (nodes_of_group web_stack (codes "2")) 3 ≡ some mysql
unfolding document_tree parts leaves group_trees join flatten paths
mysql-drawn = refl

mysql-not_base : text_eq (codes "2-web-db-mysql") (base_id application_editor) ≡ false
unfolding text_eq
mysql-not_base = refl

delete_node-drawn_example :
    (delete_node wires application_editor true mysql
      (add_jsplumb_group wires web_stack (codes "2") board)).nodes
    ≡ others (codes "2" ++ before_dash (group_name web_stack)) board.nodes
delete_node-drawn_example =
    delete_node-drawn wires application_editor web_stack (codes "2") board 3 mysql two-no_dash
      mysql-drawn mysql-not_base

-- A cartridge named "1x" on the first place and a cartridge named "x" on the twelfth have one key.
key_collision : key (codes "1-1x") ≡ key (codes "11-x")
unfolding key before_dash after_dash
key_collision = refl
