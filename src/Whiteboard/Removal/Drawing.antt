-- ===== src/Whiteboard/Removal/Drawing.antt =====
-- Deleting a node of a group that was drawn.
use product_private_paas.Common.{
  ℕ, zero, suc, Text, text_eq, text_eq_iff, text_eq_sound, ◌≡◌, refl, sym, ap, ◌∙◌, true, false,
  Option, none, some, List, [], ◌∷◌, ◌++◌, arith, map, get_elem?, append-nil, subst, Bool-cases,
  inl, inr,
}
use mathlib.Core.List.{map-append}
use product_private_paas.GroupJson.{Group, group}
use product_private_paas.Forest.{Row}
use product_private_paas.Forest.Layout.{flatten, flatten_all}
use product_private_paas.Forest.Trees.{Rose, Roses, node, nil, cons}
use product_private_paas.GroupTree.{NodeType}
use product_private_paas.GroupTree.Preview.{document_tree, parts}
use product_private_paas.Whiteboard.{Node, Board, dash, add_jsplumb_group}
use product_private_paas.Whiteboard.Drawn.{add_jsplumb_group-Draws}
use product_private_paas.Whiteboard.Keys.{
  key, before_dash, after_dash, key-below, key-root, after_dash-dash, after_dash-dash_absent,
}
use product_private_paas.Whiteboard.Paths.{Shape, paths, paths_all, row_node}
use product_private_paas.Whiteboard.Plumbing.{JsPlumb}
use product_private_paas.Whiteboard.Removal.{
  Editor, base_id, others, delete_node, delete_node-removes,
}

others-append : (k : Text) (xs ys : List Node) → others k (xs ++ ys) ≡ others k xs ++ others k ys
unfolding others
others-append k [] ys = refl
others-append k (n ∷ xs) ys = ground (arith, others-append k xs ys)

others-cons :
    (k : Text) (n : Node) (ns : List Node)
    → key n.id ≡ k
    → others k ns ≡ []
    → others k (n ∷ ns) ≡ []
unfolding others
others-cons k n ns e h = ground (arith, e, h, text_eq_iff (key n.id) k)

key_of_others :
    (k : Text) (ns : List Node) (i : ℕ) (n : Node)
    → others k ns ≡ []
    → get_elem? ns i ≡ some n
    → key n.id ≡ k
unfolding others
key_of_others k [] i n h at_i = cc
key_of_others k (m ∷ ns) zero n h at_i = elim (Bool-cases (text_eq (key m.id) k)) [
  | inl e ↦
      let same : m ≡ n = cc in sym (ap (λ (x : Node). key x.id) same) ∙ text_eq_sound (key m.id) k e
  | inr e ↦ cc
]
key_of_others k (m ∷ ns) (suc i) n h at_i = elim (Bool-cases (text_eq (key m.id) k)) [
  | inl e ↦ key_of_others k ns i n (ground (arith, e, h)) at_i
  | inr e ↦ cc
]

others-nil : (k : Text) → others k [] ≡ []
unfolding others
others-nil k = refl

abbrev drawn_nodes : List (Row (Shape NodeType)) → List Node
drawn_nodes rows = map row_node rows

mutual
  unfolding flatten paths

  -- All nodes drawn below a node have its key.
  keyed :
      (x r : Text) (q : Option Text) (t : Rose NodeType)
      → after_dash x ≡ some r
      → others (key x) (drawn_nodes (flatten q (paths x t))) ≡ []
  keyed x r q (node n a ts) h = others-cons (key x) _ _ (key-below x n r h) (
      subst
        (λ k. others k (drawn_nodes (flatten_all (some (dash x n)) (paths_all (dash x n) ts))) ≡ [])
        (key-below x n r h)
        (keyed_all (dash x n) (dash r n) (some (dash x n)) ts (after_dash-dash x n r h)))

  keyed_all :
      (x r : Text) (q : Option Text) (ts : Roses NodeType)
      → after_dash x ≡ some r
      → others (key x) (drawn_nodes (flatten_all q (paths_all x ts))) ≡ []
  keyed_all x r q nil h = others-nil (key x)
  keyed_all x r q (cons t ts) h =
      ap (others (key x))
        (map-append row_node (flatten q (paths x t)) (flatten_all q (paths_all x ts)))
      ∙ others-append (key x) (drawn_nodes (flatten q (paths x t)))
          (drawn_nodes (flatten_all q (paths_all x ts)))
      ∙ ap (λ l. l ++ others (key x) (drawn_nodes (flatten_all q (paths_all x ts))))
          (keyed x r q t h)
      ∙ keyed_all x r q ts h

abbrev pub group_name : Group → Text
group_name (group n ps) = n

-- The nodes that a group is drawn as.
abbrev pub nodes_of_group : Group → Text → List Node
nodes_of_group g counter = drawn_nodes (flatten none (paths counter (document_tree g)))

keyed_group :
    (g : Group) (counter : Text)
    → after_dash counter ≡ none
    → others (counter ++ before_dash (group_name g)) (nodes_of_group g counter) ≡ []
unfolding document_tree flatten paths
keyed_group (group n ps) counter h =
    others-cons (counter ++ before_dash n) _ _ (key-root counter n h) (
      subst
        (λ k.
          others k (
            drawn_nodes
              (flatten_all (some (dash counter n)) (paths_all (dash counter n) (parts ps))))
          ≡ [])
        (key-root counter n h)
        (keyed_all (dash counter n) n (some (dash counter n)) (parts ps)
          (after_dash-dash_absent counter n h)))

module _ {S : Type 0} (p : JsPlumb S) where
  -- Drawing a group and then deleting any one of its nodes takes all of them from the page, and of the
  -- older nodes exactly those whose key is the counter with the group's name up to its first dash. The
  -- counter has no dash, and the node is not called like the base node.
  pub delete_node-drawn :
      (editor : Editor) (g : Group) (counter : Text) (b : Board S) (i : ℕ) (n : Node)
      → after_dash counter ≡ none
      → get_elem? (nodes_of_group g counter) i ≡ some n
      → text_eq n.id (base_id editor) ≡ false
      → (delete_node p editor true n (add_jsplumb_group p g counter b)).nodes
        ≡ others (counter ++ before_dash (group_name g)) b.nodes
  delete_node-drawn editor g counter b i n h at_i ne =
      let k = counter ++ before_dash (group_name g) in
      let gone = keyed_group g counter h in
      let named = key_of_others k (nodes_of_group g counter) i n gone at_i in
      (delete_node-removes p editor n (add_jsplumb_group p g counter b) ne).nodes_left
      ∙ ap (λ x. others x (add_jsplumb_group p g counter b).nodes) named
      ∙ ap (others k) (add_jsplumb_group-Draws p g counter b).nodes_drawn
      ∙ others-append k b.nodes (nodes_of_group g counter)
      ∙ ap (λ l. others k b.nodes ++ l) gone
      ∙ append-nil (others k b.nodes)
