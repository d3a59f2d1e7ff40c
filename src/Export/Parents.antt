-- ===== src/Export/Parents.antt =====
-- The loops over `rawtree` and `nodes` in the two exporters: where each node goes.
use product_private_paas.Common.{
  ℕ, suc, ◌<◌, Text, text_eq, text_eq_iff, mem, distinct, ◌≡◌, refl, sym, ap, ◌∙◌, Bool, true,
  false, some, [], ◌∷◌, ◌++◌, arith, length, get_elem?, get_or, replicate, append-nil, Bool-cases,
  inl, inr, eqb, eqb_iff,
}
use product_private_paas.Forest.{Row, names_of, parent_key, data_map}
use product_private_paas.Forest.Attach.{get_or-replicate, length-replicate}
use product_private_paas.Forest.Linked.{get_elem?-names_of, lt-length_of_get_elem?}
use product_private_paas.Export.{
  ok, throw, Thrown, type_error, Entry, RawTree, Hierarchy, start, at_base, push_child, gather,
  parent_group, merge, hierarchy,
}
use product_private_paas.Export.Sources.{
  group_ids, has_group_sources, parent_group_ok, parent_group_throw, parent_group_absent, are_plain,
}
use product_private_paas.Export.Merge.{
  of_kind, lists, tops, push_child-lists, length-push_child, tops-push_child, tops-gather,
  lists-gather, position_inj,
}

module _ (base : Text) (nodes : RawTree) where
  merge-at_base :
      (i : ℕ) (r : Row Entry) (rows : RawTree) (h : Hierarchy)
      → at_base base r ≡ true
      → merge base nodes i (r ∷ rows) h ≡ merge base nodes (suc i) rows h
  unfolding merge
  merge-at_base i r rows h e = rw e

  merge-at_group :
      (i j : ℕ) (r : Row Entry) (rows : RawTree) (h : Hierarchy)
      → at_base base r ≡ false
      → parent_group (data_map nodes) nodes r.payload.dtype (parent_key r.parent) ≡ ok j
      → merge base nodes i (r ∷ rows) h
        ≡ merge base nodes (suc i) rows (push_child r.payload.dtype j i h)
  unfolding merge
  merge-at_group i j r rows h e q = rw (e, q)

  merge-throws :
      (i : ℕ) (x : Thrown) (r : Row Entry) (rows : RawTree) (h : Hierarchy)
      → at_base base r ≡ false
      → parent_group (data_map nodes) nodes r.payload.dtype (parent_key r.parent) ≡ throw x
      → merge base nodes i (r ∷ rows) h ≡ throw x
  unfolding merge
  merge-throws i x r rows h e q = rw (e, q)

  module _ (d : distinct (names_of nodes) ≡ true) where
    -- `h'` is `h` with the nodes of `rows`, counted from `i`, put under their parents.
    pub record Follows (i : ℕ) (rows : RawTree) (h h' : Hierarchy) : Type 0 where
      pub same_tops : (g : Bool) → tops g h' ≡ tops g h
      pub grown :
          (g : Bool) (a : ℕ) (r : Row Entry)
          → get_elem? nodes a ≡ some r
          → text_eq base r.name ≡ false
          → a < length (lists g h)
          → get_or (lists g h') a [] ≡ get_or (lists g h) a [] ++ of_kind g r.name i rows

    Follows-base :
        (i : ℕ) (r : Row Entry) (rows : RawTree) (h h' : Hierarchy)
        → at_base base r ≡ true
        → Follows (suc i) rows h h'
        → Follows i (r ∷ rows) h h'
    unfolding of_kind
    Follows-base i r rows h h' e f = record {
      same_tops = f.same_tops;
      grown = λ g a p at_a ne lt. ground (
        arith,
        f.grown g a p at_a ne lt,
        text_eq_iff (parent_key r.parent) base,
        text_eq_iff (parent_key r.parent) p.name,
        text_eq_iff base p.name,
      );
    }

    eqb-parent :
        (j a : ℕ) (k : Text) (p q : Row Entry)
        → get_elem? nodes j ≡ some q
        → q.name ≡ k
        → get_elem? nodes a ≡ some p
        → eqb j a ≡ text_eq k p.name
    eqb-parent j a k p q at_j named_k at_a = elim (Bool-cases (eqb j a)) [
      | inl e ↦
          let same : q ≡ p = cc (at_j, at_a, ap (get_elem? nodes) ((eqb_iff j a).0 e)) in
          let equal : k ≡ p.name = sym named_k ∙ ap (λ (x : Row Entry). x.name) same in
          e ∙ sym ((text_eq_iff k p.name).1 equal)
      | inr e ↦ elim (Bool-cases (text_eq k p.name)) [
        | inr t ↦ cc
        | inl t ↦
            let at_k =
              get_elem?-names_of nodes a p at_a ∙ ap some (sym ((text_eq_iff k p.name).0 t)) in
            let pos =
              position_inj (names_of nodes) j a k d
                (get_elem?-names_of nodes j q at_j ∙ ap some named_k) at_k in
            cc ((eqb_iff j a).1 pos)
      ]
    ]

    Follows-group :
        (i j : ℕ) (r q : Row Entry) (rows : RawTree) (h h' : Hierarchy)
        → get_elem? nodes j ≡ some q
        → q.name ≡ parent_key r.parent
        → Follows (suc i) rows (push_child r.payload.dtype j i h) h'
        → Follows i (r ∷ rows) h h'
    unfolding of_kind
    Follows-group i j r q rows h h' at_j named f = record {
      same_tops = λ g. f.same_tops g ∙ tops-push_child g r.payload.dtype j i h;
      grown = λ g a p at_a ne lt.
          f.grown g a p at_a ne (omega (arith, length-push_child g r.payload.dtype j i h))
          ∙ push_child-lists g r.payload.dtype j i a h (of_kind g p.name (suc i) rows)
              (text_eq (parent_key r.parent) p.name) lt
              (eqb-parent j a (parent_key r.parent) p q at_j named at_a);
    }

    merge_total :
        (i : ℕ) (rows : RawTree) (h : Hierarchy)
        → has_group_sources base (group_ids nodes) rows ≡ true
        → (h' : Hierarchy) × (merge base nodes i rows h ≡ ok h') × Follows i rows h h'
    unfolding has_group_sources
    merge_total i [] h s = (
      h,
      unfold merge in refl,
      record {
        same_tops = λ g. refl;
        grown = λ g a p at_a ne lt. unfold of_kind in sym (append-nil (get_or (lists g h) a []));
      },
    )
    merge_total i (r ∷ rows) h s = elim (Bool-cases (at_base base r)) [
      | inl e ↦
          let (h', done, f) = merge_total (suc i) rows h (ground arith) in
          (h', merge-at_base i r rows h e ∙ done, Follows-base i r rows h h' e f)
      | inr e ↦
          let (j, q, at_j, row_j, named) =
            parent_group_ok nodes d r.payload.dtype (parent_key r.parent) (ground arith) in
          let (h', done, f) =
            merge_total (suc i) rows (push_child r.payload.dtype j i h) (ground arith) in
          (
            h',
            merge-at_group i j r rows h e at_j ∙ done,
            Follows-group i j r q rows h h' row_j named f,
          )
    ]

    merge_throws :
        (i : ℕ) (rows : RawTree) (h : Hierarchy)
        → are_plain nodes ≡ true
        → has_group_sources base (group_ids nodes) rows ≡ false
        → merge base nodes i rows h ≡ throw type_error
    unfolding has_group_sources
    merge_throws i [] h plain s = cc
    merge_throws i (r ∷ rows) h plain s = elim (Bool-cases (at_base base r)) [
      | inl e ↦ merge-at_base i r rows h e ∙ merge_throws (suc i) rows h plain (ground arith)
      | inr e ↦ elim (Bool-cases (mem (parent_key r.parent) (group_ids nodes))) [
        | inr m ↦
            merge-throws i type_error r rows h e
              (parent_group_throw nodes d r.payload.dtype (parent_key r.parent) plain m)
        | inl m ↦
            let (j, q, at_j, row_j, named) =
              parent_group_ok nodes d r.payload.dtype (parent_key r.parent) m in
            merge-at_group i j r rows h e at_j
            ∙ merge_throws (suc i) rows (push_child r.payload.dtype j i h) plain (ground arith)
      ]
    ]

-- The result of the two loops: the parts of the document, and of each group, are the nodes of the
-- kind that have it as their parent, in the order of the connections.
pub record IsHierarchy (base : Text) (nodes : RawTree) (h : Hierarchy) : Type 0 where
  pub top_level : (g : Bool) → tops g h ≡ of_kind g base 0 nodes
  pub below :
      (g : Bool) (a : ℕ) (r : Row Entry)
      → get_elem? nodes a ≡ some r
      → text_eq base r.name ≡ false
      → get_or (lists g h) a [] ≡ of_kind g r.name 0 nodes

lists-start : (g : Bool) (nodes : RawTree) → lists g (start nodes) ≡ replicate (length nodes) []
lists-start true nodes = refl
lists-start false nodes = refl

tops-start : (g : Bool) (nodes : RawTree) → tops g (start nodes) ≡ []
tops-start true nodes = refl
tops-start false nodes = refl

-- For connections to distinct nodes, where every source is the base node or a group that a connection
-- leads to: the two loops return, each node stands in the list of its kind of its own parent, in the
-- order of the connections, and the nodes below the base node stand in the lists of the document.
pub hierarchy_places :
    (base : Text) (nodes : RawTree)
    → distinct (names_of nodes) ≡ true
    → has_group_sources base (group_ids nodes) nodes ≡ true
    → (h : Hierarchy) × (hierarchy base nodes ≡ ok h) × IsHierarchy base nodes h
unfolding hierarchy
hierarchy_places base nodes d s =
    let gathered = gather base 0 nodes (start nodes) in
    let lists_at = λ (g : Bool). lists-gather g base 0 nodes (start nodes) ∙ lists-start g nodes in
    let long = λ (g : Bool). ap length (lists_at g) ∙ length-replicate (length nodes) in
    let (h, done, f) = merge_total base nodes d 0 nodes gathered s in
    (
      h,
      done,
      record {
        top_level = λ g.
            f.same_tops g
            ∙ tops-gather g base 0 nodes (start nodes)
            ∙ ap (λ t. t ++ of_kind g base 0 nodes) (tops-start g nodes);
        below = λ g a r at_a ne.
            f.grown g a r at_a ne (rw (long g) (lt-length_of_get_elem? nodes a r at_a))
            ∙ ap (λ c. c ++ of_kind g r.name 0 nodes)
                (ap (λ l. get_or l a []) (lists_at g) ∙ get_or-replicate (length nodes) a);
      },
    )

-- For connections to distinct nodes, where some source is neither the base node nor a group that a
-- connection leads to, and where the value of no cartridge has a list (or a text) as its property groups
-- or cartridges: the export ends in a TypeError.
pub hierarchy_throws :
    (base : Text) (nodes : RawTree)
    → distinct (names_of nodes) ≡ true
    → are_plain nodes ≡ true
    → has_group_sources base (group_ids nodes) nodes ≡ false
    → hierarchy base nodes ≡ throw type_error
unfolding hierarchy
hierarchy_throws base nodes d plain s =
    merge_throws base nodes d 0 nodes (gather base 0 nodes (start nodes)) plain s

-- The first connection starts at no node at all.
pub hierarchy_throws_first :
    (base : Text) (r : Row Entry) (rows : RawTree)
    → distinct (names_of (r ∷ rows)) ≡ true
    → at_base base r ≡ false
    → mem (parent_key r.parent) (names_of (r ∷ rows)) ≡ false
    → hierarchy base (r ∷ rows) ≡ throw type_error
unfolding hierarchy
hierarchy_throws_first base r rows d n m =
    merge-throws base (r ∷ rows) 0 type_error r rows _ n
      (parent_group_absent (r ∷ rows) d r.payload.dtype (parent_key r.parent) m)
