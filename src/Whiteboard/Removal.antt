-- ===== src/Whiteboard/Removal.antt =====
-- `deleteNode` of the two editors.
pub mod Drawing
use product_private_paas.Common.{
  Text, codes, text_eq, mem, ◌≡◌, refl, sym, ap, ◌∙◌, Bool, true, false, not, ◌&&◌, ◌||◌, List, [],
  ◌∷◌, ◌++◌, arith, if◌then◌else◌, map, Bool-cases, inl, inr,
}
use product_private_paas.Export.{Connection, DataType, is_group}
use product_private_paas.Whiteboard.{Node, Board}
use product_private_paas.Whiteboard.Keys.{key}
use product_private_paas.Whiteboard.Plumbing.{JsPlumb, End, without}

pub data Editor : Type 0 where
  application_editor group_editor : Editor

abbrev pub base_id : Editor → Text
base_id application_editor = codes "applicationId"
base_id group_editor = codes "group-base"

abbrev refusal : Editor → Text
refusal application_editor = codes "Sorry you can't remove application node"
refusal group_editor = codes "Sorry you can't remove root group node"

abbrev type_name : DataType → Text
type_name DataType.cartridge = codes "cartridge"
type_name DataType.group = codes "group"

abbrev question : Node → Text
question n =
    (if is_group n.data_type
      then codes "This will remove related nodes from the Editor. Are you sure you want to delete "
      else codes "Are you sure you want to delete ")
    ++ type_name n.data_type
    ++ codes ": "
    ++ n.data_ctype
    ++ codes "?"

-- The connections that end at none of the elements.
unfoldable pub without_all : List Text → List Connection → List Connection
without_all ids [] = []
without_all ids (c ∷ cs) =
    let rest = without_all ids cs in
    if mem c.source_id ids || mem c.target_id ids then rest else c ∷ rest

-- The nodes with another key, and the ids of those with the key.
unfoldable pub others : Text → List Node → List Node
others k [] = []
others k (n ∷ ns) = let rest = others k ns in if text_eq (key n.id) k then rest else n ∷ rest

unfoldable pub ids_with : Text → List Node → List Text
ids_with k [] = []
ids_with k (n ∷ ns) = let rest = ids_with k ns in if text_eq (key n.id) k then n.id ∷ rest else rest

without_all-nil : (cs : List Connection) → without_all [] cs ≡ cs
unfolding without_all mem
without_all-nil [] = refl
without_all-nil (c ∷ cs) = ap (λ r. c ∷ r) (without_all-nil cs)

without_all-without :
    (id : Text) (ids : List Text) (cs : List Connection)
    → without_all ids (without id cs) ≡ without_all (id ∷ ids) cs
unfolding without_all without mem
without_all-without id ids [] = refl
without_all-without id ids (c ∷ cs) = ground (arith, without_all-without id ids cs)

-- `jsPlumb.deleteEndpoint` of each endpoint of the element.
unfoldable pub drop_ends : Text → List End → List End
drop_ends id [] = []
drop_ends id (e ∷ es) =
    let rest = drop_ends id es in if text_eq e.element id then rest else e ∷ rest

-- The endpoints of none of the elements.
unfoldable pub ends_outside : List Text → List End → List End
ends_outside ids [] = []
ends_outside ids (e ∷ es) =
    let rest = ends_outside ids es in if mem e.element ids then rest else e ∷ rest

ends_outside-nil : (es : List End) → ends_outside [] es ≡ es
unfolding ends_outside mem
ends_outside-nil [] = refl
ends_outside-nil (e ∷ es) = ap (λ r. e ∷ r) (ends_outside-nil es)

ends_outside-drop_ends :
    (id : Text) (ids : List Text) (es : List End)
    → ends_outside ids (drop_ends id es) ≡ ends_outside (id ∷ ids) es
unfolding ends_outside drop_ends mem
ends_outside-drop_ends id ids [] = refl
ends_outside-drop_ends id ids (e ∷ es) = ground (arith, ends_outside-drop_ends id ids es)

-- What the loop leaves: the nodes, jsPlumb's state and the endpoints.
pub record Remains (S : Type 0) : Type 0 where
  pub nodes : List Node
  pub plumb : S
  pub ends : List End

module _ {S : Type 0} (p : JsPlumb S) where
  -- The body of the `if` in `allnodes.each`, up to the removal of the element.
  abbrev clear : Text → S → S
  clear id s = p.detach_all_connections id (p.drop_endpoints id s)

  -- `allnodes.each`.
  unfoldable pub remove_nodes : Text → List Node → S → List End → Remains S
  unfolding drop_ends
  remove_nodes k [] s es = record { nodes = []; plumb = s; ends = es }
  remove_nodes k (n ∷ ns) s es =
      let gone = text_eq (key n.id) k in
      let rest =
        remove_nodes k ns (if gone then clear n.id s else s)
          (if gone then drop_ends n.id es else es) in
      record rest { nodes = if gone then rest.nodes else n ∷ rest.nodes }

  -- The application editor also empties the form and goes to the first tab.
  abbrev leave_form : Editor → Board S → Board S
  leave_form application_editor b = record b { component_data = []; tab = codes "general" }
  leave_form group_editor b = b

  unfoldable pub confirmed : Editor → Text → Board S → Board S
  unfolding remove_nodes
  confirmed editor k b =
      let left = remove_nodes k b.nodes b.plumb b.ends in
      leave_form editor (record b { nodes = left.nodes; plumb = left.plumb; ends = left.ends })

  abbrev pub note : Text → Board S → Board S
  note t b = record b { notes = b.notes ++ t ∷ [] }

  -- The node is the one that the menu was opened on, and `sure` the answer, which comes before anything
  -- else changes the page.
  unfoldable pub delete_node : Editor → Bool → Node → Board S → Board S
  unfolding confirmed
  delete_node editor sure n b =
      if text_eq n.id (base_id editor)
      then note (refusal editor) b
      else if sure
      then confirmed editor (key n.id) (note (question n) b)
      else note (question n) b

  pub nodes-remove_nodes :
      (k : Text) (ns : List Node) (s : S) (es : List End)
      → (remove_nodes k ns s es).nodes ≡ others k ns
  unfolding remove_nodes others
  nodes-remove_nodes k [] s es = refl
  nodes-remove_nodes k (n ∷ ns) s es = elim (Bool-cases (text_eq (key n.id) k)) [
    | inl e ↦ rw e (nodes-remove_nodes k ns (clear n.id s) (drop_ends n.id es))
    | inr e ↦ rw e (ap (λ r. n ∷ r) (nodes-remove_nodes k ns s es))
  ]

  ends-remove_nodes :
      (k : Text) (ns : List Node) (s : S) (es : List End)
      → (remove_nodes k ns s es).ends ≡ ends_outside (ids_with k ns) es
  unfolding remove_nodes ids_with
  ends-remove_nodes k [] s es = sym (ends_outside-nil es)
  ends-remove_nodes k (n ∷ ns) s es = elim (Bool-cases (text_eq (key n.id) k)) [
    | inl e ↦ rw e (
        ends-remove_nodes k ns (clear n.id s) (drop_ends n.id es)
        ∙ ends_outside-drop_ends n.id (ids_with k ns) es)
    | inr e ↦ rw e (ends-remove_nodes k ns s es)
  ]

  connections-clear :
      (id : Text) (s : S) → p.get_connections (clear id s) ≡ without id (p.get_connections s)
  connections-clear id s =
      p.get-detach_all_connections id (p.drop_endpoints id s) ∙ p.get-drop_endpoints id s

  connections-remove_nodes :
      (k : Text) (ns : List Node) (s : S) (es : List End)
      → p.get_connections (remove_nodes k ns s es).plumb
        ≡ without_all (ids_with k ns) (p.get_connections s)
  unfolding remove_nodes ids_with
  connections-remove_nodes k [] s es = sym (without_all-nil (p.get_connections s))
  connections-remove_nodes k (n ∷ ns) s es = elim (Bool-cases (text_eq (key n.id) k)) [
    | inl e ↦ rw e (
        connections-remove_nodes k ns (clear n.id s) (drop_ends n.id es)
        ∙ ap (without_all (ids_with k ns)) (connections-clear n.id s)
        ∙ without_all-without n.id (ids_with k ns) (p.get_connections s))
    | inr e ↦ rw e (connections-remove_nodes k ns s es)
  ]

  -- What a page loses when the nodes with the key go.
  pub record IsRemoved (k : Text) (b b' : Board S) : Type 0 where
    pub nodes_left : b'.nodes ≡ others k b.nodes
    pub connections_left :
        p.get_connections b'.plumb ≡ without_all (ids_with k b.nodes) (p.get_connections b.plumb)
    pub endpoints_left : b'.ends ≡ ends_outside (ids_with k b.nodes) b.ends

  confirmed-IsRemoved :
      (editor : Editor) (k : Text) (b : Board S) → IsRemoved k b (confirmed editor k b)
  unfolding confirmed
  confirmed-IsRemoved application_editor k b = record {
    nodes_left = nodes-remove_nodes k b.nodes b.plumb b.ends;
    connections_left = connections-remove_nodes k b.nodes b.plumb b.ends;
    endpoints_left = ends-remove_nodes k b.nodes b.plumb b.ends;
  }
  confirmed-IsRemoved group_editor k b = record {
    nodes_left = nodes-remove_nodes k b.nodes b.plumb b.ends;
    connections_left = connections-remove_nodes k b.nodes b.plumb b.ends;
    endpoints_left = ends-remove_nodes k b.nodes b.plumb b.ends;
  }

  -- Deleting a node other than the base node, and answering yes, takes from the page exactly the
  -- nodes with the node's key, and exactly the connections that end at one of them and the endpoints
  -- that are on one of them.
  pub delete_node-removes :
      (editor : Editor) (n : Node) (b : Board S)
      → text_eq n.id (base_id editor) ≡ false
      → IsRemoved (key n.id) b (delete_node editor true n b)
  unfolding delete_node
  delete_node-removes editor n b h = rw h (
      let r = confirmed-IsRemoved editor (key n.id) (note (question n) b) in
      record {
        nodes_left = r.nodes_left;
        connections_left = r.connections_left;
        endpoints_left = r.endpoints_left;
      })

  -- Without a yes, and for the base node, the nodes, the connections and the endpoints stay.
  pub delete_node-keeps :
      (editor : Editor) (sure : Bool) (n : Node) (b : Board S)
      → (sure && not (text_eq n.id (base_id editor))) ≡ false
      → ((delete_node editor sure n b).nodes ≡ b.nodes)
        × ((delete_node editor sure n b).plumb ≡ b.plumb)
        × ((delete_node editor sure n b).ends ≡ b.ends)
  unfolding delete_node
  delete_node-keeps editor false n b h = (ground arith, ground arith, ground arith)
  delete_node-keeps editor true n b h = (ground arith, ground arith, ground arith)
