-- ===== src/Export/Roundtrip.antt =====
-- The two exporters on connections in the order of a drawn forest.
use product_private_paas.Common.{
  ℕ, Text, codes, ◌≡◌, sym, ap, ◌∙◌, Bool, true, false, Option, some, List, [], arith, length,
  get_elem?, get_or,
}
use product_private_paas.Json.{Items, Fields, obj}
use product_private_paas.Forest.{Row}
use product_private_paas.Forest.Attach.{named}
use product_private_paas.Forest.Layout.{flatten_all, length-flatten_all, positions}
use product_private_paas.Forest.Linked.{zero_add}
use product_private_paas.Forest.Segments.{named_roots}
use product_private_paas.Forest.Trees.{Roses}
use product_private_paas.Export.{
  ok, Entry, RawTree, Hierarchy, Connection, Attributes, hierarchy, ◌>>=◌,
}
use product_private_paas.Export.Assemble.{
  raw_tree, group_raw_tree, collect_items, component, top_items, finish, with_items,
  application_fields, group_document, generate_jsplumb_tree, gen_group_json,
}
use product_private_paas.Export.Cleanup.{traverse}
use product_private_paas.Export.Drawing.{
  is_drawing, distinct-drawn, group_sources-drawn, base_apart, base_not_inner, below_node,
  below_node-named, drawn_laid,
}
use product_private_paas.Export.Merge.{lists, tops, of_kind}
use product_private_paas.Export.Parents.{IsHierarchy, hierarchy_places}
use product_private_paas.Export.Pick.{pick, of_kind-pick}
use product_private_paas.Export.Walk.{items_of, items-laid}

module _ (base : Text) (ts : Roses Entry) (drawn : is_drawing base ts ≡ true) where
  abbrev rows : RawTree
  rows = flatten_all (some base) ts

  kind-pick :
      (g : Bool) (n : Text) → of_kind g n 0 rows ≡ pick g (λ j. get_elem? rows j) (named n 0 rows)
  kind-pick g n =
      of_kind-pick g n (λ j. get_elem? rows j) 0 rows
        (λ j r h. ap (get_elem? rows) (sym (zero_add j)) ∙ h)

  module _ (h : Hierarchy) (placed : IsHierarchy base rows h) (whole : Bool) where
    filed :
        (g : Bool) (a : ℕ) (r : Row Entry)
        → get_elem? rows a ≡ some r
        → get_or (lists g h) a [] ≡ pick g (λ j. get_elem? rows j) (below_node rows a)
    filed g a r at_a =
        placed.below g a r at_a (base_apart base ts drawn a r at_a)
        ∙ kind-pick g r.name
        ∙ ap (pick g (λ j. get_elem? rows j)) (sym (below_node-named base ts drawn a r at_a))

    tops-drawn : (g : Bool) → tops g h ≡ pick g (λ j. get_elem? rows j) (positions 0 ts)
    tops-drawn g =
        placed.top_level g
        ∙ kind-pick g base
        ∙ ap (pick g (λ j. get_elem? rows j)) (named_roots base 0 ts (base_not_inner base ts drawn))

    items-drawn :
        (g : Bool)
        → collect_items (λ j. component whole rows h (length rows) j) (tops g h)
          ≡ some (items_of g whole (some base) ts)
    items-drawn g =
        ap (collect_items (λ j. component whole rows h (length rows) j)) (tops-drawn g)
        ∙ items-laid rows (below_node rows) h whole filed g (some base) (length rows) 0 ts
            (omega (arith, length-flatten_all (some base) ts)) (drawn_laid base ts drawn)

    top_items-drawn :
        top_items whole rows h
        ≡ some (items_of true whole (some base) ts, items_of false whole (some base) ts)
    unfolding top_items
    top_items-drawn = ground (arith, items-drawn true, items-drawn false)

  exported :
      (whole : Bool) (f : Items → Items → Fields)
      → (hierarchy base rows >>= λ h. with_items (top_items whole rows h) f)
        ≡ finish (
            traverse
              (obj (f (items_of true whole (some base) ts) (items_of false whole (some base) ts))))
  exported whole f =
      let (h, done, placed) =
        hierarchy_places base rows (distinct-drawn base ts drawn)
          (group_sources-drawn base ts drawn) in
      ap (λ r. r >>= λ h. with_items (top_items whole rows h) f) done
      ∙ ap (λ o. with_items o f) (top_items-drawn h placed whole)

-- Whenever the connections, with the attributes of their targets, are the preorder of a forest of
-- nodes below the application node, with distinct ids and nothing below a cartridge, the application
-- editor writes that forest: the document's value with every group and cartridge nested where it is
-- drawn, after the clean-up.
pub generate_jsplumb_tree-drawn :
    (attr : Text → Attributes) (connections : List Connection) (value : Fields) (ts : Roses Entry)
    → is_drawing (codes "applicationId") ts ≡ true
    → raw_tree attr connections ≡ ok (flatten_all (some (codes "applicationId")) ts)
    → generate_jsplumb_tree attr connections value
      ≡ finish (
          traverse (
            obj (
              application_fields value
                (items_of true true (some (codes "applicationId")) ts)
                (items_of false true (some (codes "applicationId")) ts))))
unfolding generate_jsplumb_tree
generate_jsplumb_tree-drawn attr connections value ts drawn read =
    ap
      (λ r. r >>= λ rows. hierarchy (codes "applicationId") rows >>= λ h.
        with_items (top_items true rows h) (application_fields value))
      read
    ∙ exported (codes "applicationId") ts drawn true (application_fields value)

-- The same for the group editor, below the group's own node: the document of the group's node with
-- the drawn groups and, as their `cname`, the drawn cartridges.
pub gen_group_json-drawn :
    (attr : Text → Attributes) (connections : List Connection) (base : Option Fields)
    (ts : Roses Entry)
    → is_drawing (codes "group-base") ts ≡ true
    → group_raw_tree attr connections ≡ flatten_all (some (codes "group-base")) ts
    → gen_group_json attr connections base
      ≡ finish (
          traverse (
            obj (
              group_document base
                (items_of true false (some (codes "group-base")) ts)
                (items_of false false (some (codes "group-base")) ts))))
unfolding gen_group_json
gen_group_json-drawn attr connections base ts drawn read =
    ap
      (λ rows. hierarchy (codes "group-base") rows >>= λ h.
        with_items (top_items false rows h) (group_document base))
      read
    ∙ exported (codes "group-base") ts drawn false (group_document base)
