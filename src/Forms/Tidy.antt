-- ===== src/Forms/Tidy.antt =====
-- Pages on which no two nodes have the same id.
use product_private_paas.Common.{
  codes, ℕ, suc, ◌≤◌, Text, text_eq, text_eq_complete, mem, distinct, mem-append, ◌≡◌, refl, sym,
  ap, ◌∙◌, subst, true, false, none, List, [], ◌∷◌, ◌++◌, arith, Bool-cases, inl, inr,
}
use product_private_paas.GroupJson.{Group}
use product_private_paas.Json.{Fields}
use product_private_paas.Export.{DataType}
use product_private_paas.Forms.{Workspace, Schema, drop_cartridge, drop_group, drop_group_node}
use product_private_paas.Forms.Clicks.{node_ids}
use product_private_paas.GroupTree.Preview.{document_tree}
use product_private_paas.Whiteboard.{add_group_node, Node, dash, node_of, add_jsplumb_cartridge}
use product_private_paas.Whiteboard.Drawn.{add_jsplumb_group-Draws}
use product_private_paas.Whiteboard.Keys.{before_dash, before_dash-dash, before_dash_absent}
use product_private_paas.Whiteboard.Plumbing.{JsPlumb}
use product_private_paas.Whiteboard.Removal.{others}
use product_private_paas.Whiteboard.Removal.Drawing.{nodes_of_group}
use product_private_paas.Forms.Prefixes.{
  begin_with, node_ids-append, distinct-others, distinct_of_append, mem-begin_with, begin_with_cons,
  begin_with-tree, mem_of_others,
}
use product_private_paas.Forms.Events.{IsNumbering}

module _ {S : Type 0} (p : JsPlumb S) (opened : Schema → Fields → Fields) (number : ℕ → Text) where
  -- No id occurs twice, and none begins with a number that the counter has still to reach.
  pub record Tidy (nodes : List Node) (counter : ℕ) : Type 0 where
    pub ids_distinct : distinct (node_ids nodes) ≡ true
    pub ids_old :
        (k : ℕ) (x : Text)
        → counter ≤ k
        → mem x (node_ids nodes) ≡ true
        → text_eq (before_dash x) (number k) ≡ false

  module _ (numbering : IsNumbering number) where
    number_ne : (c k : ℕ) → suc c ≤ k → text_eq (number c) (number k) ≡ false
    number_ne c k l = elim (Bool-cases (text_eq (number c) (number k))) [
      | inl e ↦ let same : c ≡ k = numbering.injective c k e in grind (arith, same, l)
      | inr e ↦ e
    ]

    pub old_absent :
        (ns : List Node) (c : ℕ) (x : Text)
        → Tidy ns c
        → before_dash x ≡ number c
        → mem x (node_ids ns) ≡ false
    old_absent ns c x t e = elim (Bool-cases (mem x (node_ids ns))) [
      | inl m ↦ cc (t.ids_old c x (omega arith) m, text_eq_complete (before_dash x) (number c) e)
      | inr m ↦ m
    ]

    ids_old-append :
        (ns new : List Node) (c k : ℕ) (x : Text)
        → Tidy ns c
        → begin_with (number c) (node_ids new) ≡ true
        → suc c ≤ k
        → mem x (node_ids (ns ++ new)) ≡ true
        → text_eq (before_dash x) (number k) ≡ false
    ids_old-append ns new c k x t b l m = elim (Bool-cases (mem x (node_ids ns))) [
      | inl here ↦ t.ids_old k x (omega (arith, l)) here
      | inr absent ↦
          let both : mem x (node_ids ns ++ node_ids new) ≡ true =
            ap (mem x) (sym (node_ids-append ns new)) ∙ m in
          let later : mem x (node_ids new) ≡ true =
            ground (arith, absent, both, mem-append x (node_ids ns) (node_ids new)) in
          ap (λ y. text_eq y (number k)) (mem-begin_with (number c) x (node_ids new) b later)
          ∙ number_ne c k l
    ]

    Tidy-append :
        (ns new : List Node) (c : ℕ)
        → Tidy ns c
        → begin_with (number c) (node_ids new) ≡ true
        → distinct (node_ids new) ≡ true
        → Tidy (ns ++ new) (suc c)
    Tidy-append ns new c t b d = record {
      ids_distinct =
          ap distinct (node_ids-append ns new)
          ∙ distinct_of_append (node_ids ns) (node_ids new) t.ids_distinct d
              (λ x m. old_absent ns c x t (mem-begin_with (number c) x (node_ids new) b m));
      ids_old = λ k x l m. ids_old-append ns new c k x t b l m;
    }

    -- The same ids, and fewer of them.
    pub Tidy-same :
        (ns new : List Node) (c : ℕ) → node_ids new ≡ node_ids ns → Tidy ns c → Tidy new c
    Tidy-same ns new c e t = record {
      ids_distinct = ap distinct e ∙ t.ids_distinct;
      ids_old = λ k x l m. t.ids_old k x l (ap (mem x) (sym e) ∙ m);
    }

    pub Tidy-others : (ns : List Node) (id : Text) (c : ℕ) → Tidy ns c → Tidy (others id ns) c
    Tidy-others ns id c t = record {
      ids_distinct = distinct-others id ns t.ids_distinct;
      ids_old = λ k x l m. t.ids_old k x l (mem_of_others x id ns m);
    }

    pub begin_with-number : (c : ℕ) (name : Text) → before_dash (dash (number c) name) ≡ number c
    begin_with-number c name =
        before_dash-dash (number c) name ∙ before_dash_absent (number c) (numbering.no_dash c)

    pub Tidy-cartridge :
        (name : Text) (s : Workspace S)
        → Tidy s.board.nodes s.counter
        → Tidy (drop_cartridge p opened number name s).board.nodes (suc s.counter)
    unfolding drop_cartridge add_jsplumb_cartridge begin_with distinct mem
    Tidy-cartridge name s t =
        Tidy-append s.board.nodes
          (node_of DataType.cartridge (dash (number s.counter) name) name ∷ []) s.counter t
          (begin_with_cons (number s.counter) (dash (number s.counter) name) []
            (begin_with-number s.counter name) refl)
          refl

    pub begin_with-group :
        (g : Group) (c : ℕ) → begin_with (number c) (node_ids (nodes_of_group g (number c))) ≡ true
    begin_with-group g c =
        subst (λ k. begin_with k (node_ids (nodes_of_group g (number c))) ≡ true)
          (before_dash_absent (number c) (numbering.no_dash c))
          (begin_with-tree (number c) none (document_tree g))

    pub Tidy-group :
        (g : Group) (s : Workspace S)
        → distinct (node_ids (nodes_of_group g (number s.counter))) ≡ true
        → Tidy s.board.nodes s.counter
        → Tidy (drop_group p opened number g s).board.nodes (suc s.counter)
    unfolding drop_group
    Tidy-group g s d t =
        subst (λ ns. Tidy ns (suc s.counter))
          (sym (add_jsplumb_group-Draws p g (number s.counter) s.board).nodes_drawn)
          (Tidy-append s.board.nodes (nodes_of_group g (number s.counter)) s.counter t
            (begin_with-group g s.counter) d)

    pub Tidy-group_node :
        (s : Workspace S)
        → Tidy s.board.nodes s.counter
        → Tidy (drop_group_node p opened number s).board.nodes (suc s.counter)
    unfolding drop_group_node add_group_node begin_with distinct mem
    Tidy-group_node s t =
        Tidy-append s.board.nodes _ s.counter t
          (begin_with_cons (number s.counter) (dash (number s.counter) (codes "group")) []
            (begin_with-number s.counter (codes "group")) refl)
          refl
