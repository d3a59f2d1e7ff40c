-- ===== src/Whiteboard/Placing.antt =====
-- `dagrePosition` of the two editors: the graph that dagre lays out, and the elements it places. dagre
-- is a parameter with the operations that the editors call. `jsPlumb.getAllConnections` gives the
-- connections that `getConnections` gives, since every endpoint is in the default scope.
use product_private_paas.Common.{
  ℕ, Text, text_eq, mem, ◌≡◌, refl, ◌∙◌, Bool, false, ◌&&◌, ◌||◌, Option, none, some, List, [], ◌∷◌,
  arith, if◌then◌else◌,
}
use product_private_paas.Export.{Connection}
use product_private_paas.Whiteboard.{Node, Board, node_ids}
use product_private_paas.Whiteboard.Plumbing.{JsPlumb}
use product_private_paas.Whiteboard.Targets.{sources, targets}

-- Graphs of dagre.graphlib, directed and with one edge between two nodes. An edge brings its nodes with
-- it. `place` is what `dagre.layout` finds for a node.
pub record Dagre (G : Type 0) : Type 0 where
  pub new_graph : G
  pub set_node : Text → G → G
  pub set_edge : Text → Text → G → G
  pub has_node : G → Text → Bool
  pub has_edge : G → Text → Text → Bool
  pub place : G → Text → ℕ × ℕ
  pub has_node-new_graph : (x : Text) → has_node new_graph x ≡ false
  pub has_edge-new_graph : (x y : Text) → has_edge new_graph x y ≡ false
  pub has_node-set_node :
      (k x : Text) (g : G) → has_node (set_node k g) x ≡ (text_eq x k || has_node g x)
  pub has_edge-set_node : (k x y : Text) (g : G) → has_edge (set_node k g) x y ≡ has_edge g x y
  pub has_node-set_edge :
      (a b x : Text) (g : G)
      → has_node (set_edge a b g) x ≡ (text_eq x a || text_eq x b || has_node g x)
  pub has_edge-set_edge :
      (a b x y : Text) (g : G)
      → has_edge (set_edge a b g) x y ≡ ((text_eq x a && text_eq y b) || has_edge g x y)

-- Does a connection lead from the first node to the second?
unfoldable pub leads : Text → Text → List Connection → Bool
leads x y [] = false
leads x y (c ∷ cs) = (text_eq x c.source_id && text_eq y c.target_id) || leads x y cs

module _ {S G : Type 0} (p : JsPlumb S) (d : Dagre G) where
  -- The two loops.
  unfoldable pub set_nodes : List Node → G → G
  set_nodes [] g = g
  set_nodes (n ∷ ns) g = set_nodes ns (d.set_node n.id g)

  unfoldable pub set_edges : List Connection → G → G
  set_edges [] g = g
  set_edges (c ∷ cs) g = set_edges cs (d.set_edge c.source_id c.target_id g)

  unfoldable pub dagre_graph : Board S → G
  unfolding set_nodes set_edges
  dagre_graph b = set_edges (p.get_connections b.plumb) (set_nodes b.nodes d.new_graph)

  -- What the last loop writes into `left` and `top` of the element with the id, if anything.
  unfoldable pub dagre_position : Board S → Text → Option (ℕ × ℕ)
  unfolding dagre_graph
  dagre_position b id =
      if d.has_node (dagre_graph b) id then some (d.place (dagre_graph b) id) else none

  has_node-set_nodes :
      (ns : List Node) (g : G) (x : Text)
      → d.has_node (set_nodes ns g) x ≡ (mem x (node_ids ns) || d.has_node g x)
  unfolding set_nodes mem
  has_node-set_nodes [] g x = refl
  has_node-set_nodes (n ∷ ns) g x =
      ground (arith, has_node-set_nodes ns (d.set_node n.id g) x, d.has_node-set_node n.id x g)

  has_edge-set_nodes :
      (ns : List Node) (g : G) (x y : Text) → d.has_edge (set_nodes ns g) x y ≡ d.has_edge g x y
  unfolding set_nodes
  has_edge-set_nodes [] g x y = refl
  has_edge-set_nodes (n ∷ ns) g x y =
      has_edge-set_nodes ns (d.set_node n.id g) x y ∙ d.has_edge-set_node n.id x y g

  has_node-set_edges :
      (cs : List Connection) (g : G) (x : Text)
      → d.has_node (set_edges cs g) x ≡ (mem x (sources cs) || mem x (targets cs) || d.has_node g x)
  unfolding set_edges mem
  has_node-set_edges [] g x = refl
  has_node-set_edges (c ∷ cs) g x = ground (
    arith,
    has_node-set_edges cs (d.set_edge c.source_id c.target_id g) x,
    d.has_node-set_edge c.source_id c.target_id x g,
  )

  has_edge-set_edges :
      (cs : List Connection) (g : G) (x y : Text)
      → d.has_edge (set_edges cs g) x y ≡ (leads x y cs || d.has_edge g x y)
  unfolding set_edges leads
  has_edge-set_edges [] g x y = refl
  has_edge-set_edges (c ∷ cs) g x y = ground (
    arith,
    has_edge-set_edges cs (d.set_edge c.source_id c.target_id g) x y,
    d.has_edge-set_edge c.source_id c.target_id x y g,
  )

  -- The nodes of the graph are the page's and the ends of the connections.
  pub has_node-dagre_graph :
      (b : Board S) (x : Text)
      → d.has_node (dagre_graph b) x ≡ (
          mem x (sources (p.get_connections b.plumb))
          || mem x (targets (p.get_connections b.plumb))
          || mem x (node_ids b.nodes))
  unfolding dagre_graph
  has_node-dagre_graph b x = ground (
    arith,
    has_node-set_edges (p.get_connections b.plumb) (set_nodes b.nodes d.new_graph) x,
    has_node-set_nodes b.nodes d.new_graph x,
    d.has_node-new_graph x,
  )

  pub has_edge-dagre_graph :
      (b : Board S) (x y : Text)
      → d.has_edge (dagre_graph b) x y ≡ leads x y (p.get_connections b.plumb)
  unfolding dagre_graph
  has_edge-dagre_graph b x y = ground (
    arith,
    has_edge-set_edges (p.get_connections b.plumb) (set_nodes b.nodes d.new_graph) x y,
    has_edge-set_nodes b.nodes d.new_graph x y,
    d.has_edge-new_graph x y,
  )
