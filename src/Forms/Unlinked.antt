-- ===== src/Forms/Unlinked.antt =====
-- Saving an application on which a group was drawn but not linked.
use product_private_paas.Common.{
  ℕ, Text, text_eq, mem, distinct, ◌≡◌, refl, sym, ap, ◌∙◌, true, false, ◌&&◌, some, List, [], ◌∷◌,
  ◌++◌, arith, Option-cases, inl, inr,
}
use product_private_paas.GroupJson.{Group, group}
use product_private_paas.Json.{Fields}
use product_private_paas.Export.{
  Result, ok, throw, type_error, Attributes, Connection, RawTree, hierarchy,
}
use product_private_paas.Export.Assemble.{raw_tree, generate_jsplumb_tree, connection_row}
use product_private_paas.Export.Parents.{hierarchy_throws_first}
use product_private_paas.Forest.{names_of, parent_key}
use product_private_paas.Forest.Layout.{flatten, flatten_all}
use product_private_paas.Forest.Trees.{Roses, node, nil, cons}
use product_private_paas.Forms.{Workspace, Schema, attributes_in, drop_group, saved_application}
use product_private_paas.Forms.Saving.{is_filled, all_filled}
use product_private_paas.GroupTree.Preview.{document_tree, parts}
use product_private_paas.GroupTree.{NodeType}
use product_private_paas.Whiteboard.{Board, dash, add_jsplumb_group}
use product_private_paas.Whiteboard.Drawn.{add_jsplumb_group-Draws}
use product_private_paas.Whiteboard.Paths.{Shape, paths, paths_all, links_of}
use product_private_paas.Whiteboard.Plumbing.{JsPlumb}
use product_private_paas.Whiteboard.Removal.{application_editor, base_id}
use product_private_paas.Whiteboard.Removal.Drawing.{group_name}
use product_private_paas.Whiteboard.Targets.{sources, targets, targets_of_trees}

abbrev pub parents : RawTree → List Text
parents [] = []
parents (r ∷ rows) = parent_key r.parent ∷ parents rows

-- The rows that the export reads from filled nodes.
pub record Reads (cs : List Connection) (result : Result RawTree) : Type 0 where
  pub rows : RawTree
  pub returned : result ≡ ok rows
  pub names_read : names_of rows ≡ targets cs
  pub parents_read : parents rows ≡ sources cs

pub raw_tree-Reads :
    (attr : Text → Attributes) (cs : List Connection)
    → all_filled attr cs ≡ true
    → Reads cs (raw_tree attr cs)
unfolding raw_tree all_filled
raw_tree-Reads attr [] h = record {
  rows = [];
  returned = refl;
  names_read = refl;
  parents_read = refl;
}
raw_tree-Reads attr (c ∷ cs) h = elim (Option-cases (attr c.target_id).data_generated) [
  | inl e ↦
      let unfilled : false ≡ true = sym (ap (λ o. is_filled o && all_filled attr cs) e) ∙ h in
      cc unfilled
  | inr (v, e) ↦
      let f = raw_tree-Reads attr cs (ground (arith, e, h)) in
      record {
        rows = connection_row c (attr c.target_id).data_type v ∷ f.rows;
        returned = ground (arith, e, f.returned);
        names_read = ap (λ l. c.target_id ∷ l) f.names_read;
        parents_read = ap (λ l. c.source_id ∷ l) f.parents_read;
      }
]

stray_throws :
    (base k : Text) (ks : List Text) (rows : RawTree)
    → parents rows ≡ k ∷ ks
    → text_eq k base ≡ false
    → mem k (names_of rows) ≡ false
    → distinct (names_of rows) ≡ true
    → hierarchy base rows ≡ throw type_error
stray_throws base k ks [] h n m d = cc h
stray_throws base k ks (r ∷ rows) h n m d =
    let same : k ≡ parent_key r.parent = cc h in
    hierarchy_throws_first base r rows d (ap (λ x. text_eq x base) (sym same) ∙ n)
      (ap (λ x. mem x (names_of (r ∷ rows))) (sym same) ∙ m)

first_source :
    {A : Type 0} (x m : Text) (rest : List Text) (ts : Roses (Shape A))
    → names_of (flatten_all (some x) ts) ≡ m ∷ rest
    → (ks : List Text) × (sources (links_of (flatten_all (some x) ts)) ≡ x ∷ ks)
unfolding flatten links_of
first_source x m rest nil h = cc h
first_source x m rest (cons (node n a us) ts) h = (_, refl)

fresh_head :
    (x : Text) (xs : List Text)
    → distinct (x ∷ xs) ≡ true
    → (mem x xs ≡ false) × (distinct xs ≡ true)
unfolding distinct
fresh_head x xs h = (ground (arith, h), ground (arith, h))

stray_generate :
    (attr : Text → Attributes) (cs : List Connection) (value : Fields) (k : Text) (ks : List Text)
    → all_filled attr cs ≡ true
    → sources cs ≡ k ∷ ks
    → text_eq k (base_id application_editor) ≡ false
    → mem k (targets cs) ≡ false
    → distinct (targets cs) ≡ true
    → generate_jsplumb_tree attr cs value ≡ throw type_error
unfolding generate_jsplumb_tree
stray_generate attr cs value k ks filled h n m d =
    let f : Reads cs (raw_tree attr cs) = raw_tree-Reads attr cs filled in
    let thrown : hierarchy (base_id application_editor) f.rows ≡ throw type_error =
      stray_throws (base_id application_editor) k ks f.rows (f.parents_read ∙ h) n
        (ap (mem k) f.names_read ∙ m) (ap distinct f.names_read ∙ d) in
    rw (f.returned, thrown) refl

-- The ids of the nodes below the group's own.
abbrev pub ids_below : Group → Text → List Text
ids_below (group n ps) counter =
    names_of (flatten_all (some (dash counter n)) (paths_all (dash counter n) (parts ps)))

module _ {S : Type 0} (p : JsPlumb S) (opened : Schema → Fields → Fields) where
  links_below :
      (g : Group) (counter : Text) (b : Board S)
      → p.get_connections b.plumb ≡ []
      → (ts : Roses (Shape NodeType)) × (p.get_connections (add_jsplumb_group p g counter b).plumb
          ≡ links_of (flatten_all (some (dash counter (group_name g))) ts))
        × (ids_below g counter ≡ names_of (flatten_all (some (dash counter (group_name g))) ts))
  unfolding document_tree flatten paths links_of
  links_below (group n ps) counter b e = (
    paths_all (dash counter n) (parts ps),
    (add_jsplumb_group-Draws p (group n ps) counter b).links_drawn
        ∙ ap
            (λ cs.
              cs
              ++ links_of
                  (flatten_all (some (dash counter n)) (paths_all (dash counter n) (parts ps))))
            e,
    refl,
  )

  -- A group with at least one node below its own is drawn on a page without connections, and then
  -- no connection is added, and above all none from the application's node to the group: though all
  -- nodes have been updated, Save ends in a TypeError, if the ids of the group's nodes are distinct and the
  -- group's node is not called like the application's.
  pub unlinked_group_throws :
      (number : ℕ → Text) (value : Fields) (g : Group) (m : Text) (rest : List Text)
      → (s q : Workspace S) → p.get_connections s.board.plumb ≡ []
      → q.board.plumb ≡ (drop_group p opened number g s).board.plumb
      → all_filled (attributes_in q.board.nodes) (p.get_connections q.board.plumb) ≡ true
      → ids_below g (number s.counter) ≡ m ∷ rest
      → distinct (dash (number s.counter) (group_name g) ∷ ids_below g (number s.counter)) ≡ true
      → text_eq (dash (number s.counter) (group_name g)) (base_id application_editor) ≡ false
      → saved_application p opened value q ≡ throw type_error
  unfolding drop_group saved_application
  unlinked_group_throws number value g m rest s q bare same filled below apart other =
      let (ts, links, names) = links_below g (number s.counter) s.board bare in
      let root : Text = dash (number s.counter) (group_name g) in
      let cs : List Connection = p.get_connections q.board.plumb in
      let drawn : cs ≡ links_of (flatten_all (some root) ts) = ap p.get_connections same ∙ links in
      let ends : targets cs ≡ ids_below g (number s.counter) =
        ap targets drawn ∙ targets_of_trees root ts ∙ sym names in
      let (ks, first) = first_source root m rest ts (sym names ∙ below) in
      let (absent, distinct_ends) = fresh_head root (ids_below g (number s.counter)) apart in
      stray_generate (attributes_in q.board.nodes) cs value root ks filled
        (ap sources drawn ∙ first) other (ap (mem root) ends ∙ absent)
        (ap distinct ends ∙ distinct_ends)
