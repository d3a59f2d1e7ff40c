-- ===== src/Export/Wired.antt =====
-- The two exporters on connections in any order.
pub mod Tests
use product_private_paas.Common.{
  ℕ, zero, suc, Text, codes, text_eq, mem, mem_ne, distinct, not, ◌&&◌, ◌≡◌, refl, sym, ap, ◌∙◌,
  Bool, true, false, Option, none, some, List, [], ◌∷◌, arith, length, get_elem?, get_or,
}
use product_private_paas.Json.{Json, Items, Fields, obj}
use product_private_paas.Objects.Index.{mem_of_get_elem?}
use product_private_paas.Forest.{Row, names_of}
use product_private_paas.Forest.Linked.{get_elem?-names_of, zero_add}
use product_private_paas.Forest.Trees.{Roses, node}
use product_private_paas.Export.{
  Result, ok, Entry, RawTree, Hierarchy, Connection, Attributes, hierarchy, ◌>>=◌, is_group,
}
use product_private_paas.Export.Assemble.{
  raw_tree, group_raw_tree, collect_items, component, node_json, top_items, finish, with_items,
  application_fields, group_document, generate_jsplumb_tree, gen_group_json,
}
use product_private_paas.Export.Cleanup.{traverse}
use product_private_paas.Export.Merge.{lists, tops, of_kind}
use product_private_paas.Export.Parents.{IsHierarchy, hierarchy_places}
use product_private_paas.Export.Reading.{read_rows, reading, read_items}
use product_private_paas.Export.Reading.Total.{is_parented, reading_total}
use product_private_paas.Common.{Option-cases, inl, inr, ◌⊎◌}
use product_private_paas.Export.{Thrown, throw}
use product_private_paas.Export.Assemble.{connection_row}
use product_private_paas.Export.Sources.{group_ids, has_group_sources}
use product_private_paas.Export.Walk.{component_json, items_of}

-- The targets are distinct, none is the base node, and every source is the base node or a group that
-- a connection leads to.
unfoldable pub is_wired : Text → RawTree → Bool
is_wired base rows =
    distinct (names_of rows)
    && not (mem base (names_of rows))
    && has_group_sources base (group_ids rows) rows

pub Result-cases {ℓ} :
    {A : Type ℓ} (r : Result A) → ((a : A) × (r ≡ ok a)) ⊎ ((x : Thrown) × (r ≡ throw x))
Result-cases (ok a) = inl (a, refl)
Result-cases (throw x) = inr (x, refl)

module _ (base : Text) (rows : RawTree) (wired : is_wired base rows ≡ true) where
  distinct-wired : distinct (names_of rows) ≡ true
  unfolding is_wired
  distinct-wired = ground arith

  base_absent : mem base (names_of rows) ≡ false
  unfolding is_wired
  base_absent = ground arith

  sources-wired : has_group_sources base (group_ids rows) rows ≡ true
  unfolding is_wired
  sources-wired = ground arith

  module _ (h : Hierarchy) (placed : IsHierarchy base rows h) (whole : Bool) where
    filed :
        (g : Bool) (a : ℕ) (r : Row Entry)
        → get_elem? rows a ≡ some r
        → get_or (lists g h) a [] ≡ of_kind g r.name 0 rows
    filed g a r at_a = placed.below g a r at_a (
        mem_ne base r.name (names_of rows) base_absent
          (mem_of_get_elem? (names_of rows) a r.name (get_elem?-names_of rows a r at_a)))

    -- The value of a node, from the items below it.
    step :
        (fuel i : ℕ) (r : Row Entry) (us : Roses Entry)
        → get_elem? rows i ≡ some r
        → ((g : Bool)
            → collect_items (λ j. component whole rows h fuel j) (of_kind g r.name 0 rows)
              ≡ some (items_of g whole (some r.name) us))
        → component whole rows h (suc fuel) i
          ≡ some (component_json whole r.parent (node r.name r.payload us))
    unfolding component component_json
    step fuel i r us at_i below =
        let groups_at =
          ap (collect_items (λ j. component whole rows h fuel j)) (filed true i r at_i)
          ∙ below true in
        let cartridges_at =
          ap (collect_items (λ j. component whole rows h fuel j)) (filed false i r at_i)
          ∙ below false in
        ground (arith, at_i, groups_at, cartridges_at)

    items_read :
        (fuel : ℕ) (g : Bool) (n : Text) (ts : Roses Entry)
        → reading rows fuel n ≡ some ts
        → collect_items (λ j. component whole rows h fuel j) (of_kind g n 0 rows)
          ≡ some (items_of g whole (some n) ts)
    unfolding reading
    items_read zero g n ts e =
        read_items rows whole (λ m. none) (λ j. component whole rows h 0 j)
          (λ i r us at_i absent. cc) g n 0 rows ts
          (λ j r at_j. ap (get_elem? rows) (sym (zero_add j)) ∙ at_j) e
    items_read (suc fuel) g n ts e =
        read_items rows whole (λ m. reading rows fuel m) (λ j. component whole rows h (suc fuel) j)
          (λ i r us at_i below. step fuel i r us at_i (λ k. items_read fuel k r.name us below)) g n
          0 rows ts (λ j r at_j. ap (get_elem? rows) (sym (zero_add j)) ∙ at_j) e

    top_items-wired :
        (ts : Roses Entry)
        → reading rows (length rows) base ≡ some ts
        → top_items whole rows h
          ≡ some (items_of true whole (some base) ts, items_of false whole (some base) ts)
    unfolding top_items
    top_items-wired ts e =
        let at = λ (g : Bool).
          ap (collect_items (λ j. component whole rows h (length rows) j)) (placed.top_level g)
          ∙ items_read (length rows) g base ts e in
        ground (arith, at true, at false)

  pub exported-wired :
      (whole : Bool) (f : Items → Items → Fields) (ts : Roses Entry)
      → reading rows (length rows) base ≡ some ts
      → (hierarchy base rows >>= λ h. with_items (top_items whole rows h) f)
        ≡ finish (
            traverse
              (obj (f (items_of true whole (some base) ts) (items_of false whole (some base) ts))))
  exported-wired whole f ts e =
      let (h, done, placed) = hierarchy_places base rows distinct-wired sources-wired in
      ap (λ r. r >>= λ h. with_items (top_items whole rows h) f) done
      ∙ ap (λ o. with_items o f) (top_items-wired h placed whole ts e)

is_parented-raw_tree :
    (attr : Text → Attributes) (connections : List Connection) (rows : RawTree)
    → raw_tree attr connections ≡ ok rows
    → is_parented rows ≡ true
unfolding raw_tree is_parented
is_parented-raw_tree attr [] rows h = let e : [] ≡ rows = cc in sym (ap is_parented e)
is_parented-raw_tree attr (c ∷ cs) rows h = elim (Option-cases (attr c.target_id).data_generated) [
  | inl e ↦ absurd (ground (arith, e, h))
  | inr (content, e) ↦ elim (Result-cases (raw_tree attr cs)) [
    | inr (x, u) ↦ absurd (ground (arith, e, u, h))
    | inl (rs, u) ↦
        let same : connection_row c (attr c.target_id).data_type content ∷ rs ≡ rows =
          ground (arith, e, u, h) in
        sym (ap is_parented same) ∙ is_parented-raw_tree attr cs rs u
  ]
]

is_parented-group_raw_tree :
    (attr : Text → Attributes) (connections : List Connection)
    → is_parented (group_raw_tree attr connections) ≡ true
unfolding group_raw_tree is_parented
is_parented-group_raw_tree attr [] = refl
is_parented-group_raw_tree attr (c ∷ cs) = is_parented-group_raw_tree attr cs

-- For connections in any order, whose targets, with the attributes the editor reads from them, are
-- distinct nodes other than the application node, and whose sources are the application node or
-- groups that a connection leads to: following the connections from the application node by the names
-- of the parents gives a forest, and the application editor writes that forest, each node in the list
-- of its kind of its parent, in the order of the connections, after the clean-up.
pub generate_jsplumb_tree-reading :
    (attr : Text → Attributes) (connections : List Connection) (value : Fields) (rows : RawTree)
    → raw_tree attr connections ≡ ok rows
    → is_wired (codes "applicationId") rows ≡ true
    → (ts : Roses Entry) × (reading rows (length rows) (codes "applicationId") ≡ some ts)
      × (generate_jsplumb_tree attr connections value
          ≡ finish (
              traverse (
                obj (
                  application_fields value
                    (items_of true true (some (codes "applicationId")) ts)
                    (items_of false true (some (codes "applicationId")) ts)))))
unfolding generate_jsplumb_tree
generate_jsplumb_tree-reading attr connections value rows read wired =
    let base = codes "applicationId" in
    let (ts, e) =
      reading_total rows (distinct-wired base rows wired) base
        (is_parented-raw_tree attr connections rows read) (base_absent base rows wired) in
    (
      ts,
      e,
      ap
            (λ r. r >>= λ rs. hierarchy (codes "applicationId") rs >>= λ h.
              with_items (top_items true rs h) (application_fields value))
            read
          ∙ exported-wired (codes "applicationId") rows wired true (application_fields value) ts e,
    )

-- For connections in any order, whose targets are distinct nodes other than the group's own node, and
-- whose sources are that node or groups that a connection leads to: following the connections from
-- the group's own node by the names of the parents gives a forest, and the group editor writes the
-- group's document with that forest, its cartridges by their cname, after the clean-up.
pub gen_group_json-reading :
    (attr : Text → Attributes) (connections : List Connection) (base : Option Fields)
    → is_wired (codes "group-base") (group_raw_tree attr connections) ≡ true
    → (ts : Roses Entry) × (reading
          (group_raw_tree attr connections)
          (length (group_raw_tree attr connections))
          (codes "group-base")
        ≡ some ts)
      × (gen_group_json attr connections base
          ≡ finish (
              traverse (
                obj (
                  group_document base
                    (items_of true false (some (codes "group-base")) ts)
                    (items_of false false (some (codes "group-base")) ts)))))
unfolding gen_group_json
gen_group_json-reading attr connections base wired =
    let rows = group_raw_tree attr connections in
    let (ts, e) =
      reading_total rows (distinct-wired (codes "group-base") rows wired) (codes "group-base")
        (is_parented-group_raw_tree attr connections)
        (base_absent (codes "group-base") rows wired) in
    (ts, e, exported-wired (codes "group-base") rows wired false (group_document base) ts e)
