-- ===== src/Export/Walk.antt =====
-- The documents that a drawn forest stands for, and the walk that writes them.
use product_private_paas.Common.{
  ℕ, zero, suc, ◌+◌, ◌≤◌, Text, ◌≡◌, refl, ap, ◌∙◌, Bool, true, false, Option, some, List, [], ◌∷◌,
  arith, get_elem?, get_or, if◌then◌else◌, Bool-cases, inl, inr,
}
use product_private_paas.Json.{Json, Items, obj, no_items, item}
use product_private_paas.Forest.{Row}
use product_private_paas.Forest.Trees.{Rose, Roses, node, nil, cons}
use product_private_paas.Forest.Layout.{size, size_all, positions}
use product_private_paas.Forest.Laid.{IsLaid, IsLaidAll}
use product_private_paas.Export.{Entry, RawTree, Hierarchy, is_group}
use product_private_paas.Export.Merge.{lists}
use product_private_paas.Export.Pick.{kind_at, pick}
use product_private_paas.Export.Assemble.{
  group_fields, cartridge_item, collect_items, node_json, component,
}

abbrev pub root_row : Option Text → Rose Entry → Row Entry
root_row p (node id e ts) = record { name = id; parent = p; payload = e }

-- A group has its groups and its cartridges in two lists, each in the order in which they were drawn.
unfoldable mutual
  unfolding kind_at

  pub component_json : Bool → Option Text → Rose Entry → Json
  component_json whole p (node id e ts) =
      if is_group e.dtype
      then obj (
          group_fields (record { name = id; parent = p; payload = e })
            (items_of true whole (some id) ts) (items_of false whole (some id) ts))
      else cartridge_item whole (record { name = id; parent = p; payload = e })

  pub items_of : Bool → Bool → Option Text → Roses Entry → Items
  items_of g whole p nil = no_items
  items_of g whole p (cons t ts) =
      let rest = items_of g whole p ts in
      if kind_at g (some (root_row p t)) then item (component_json whole p t) rest else rest

module _ (rows : RawTree) (links : ℕ → List ℕ) (h : Hierarchy) (whole : Bool)
    (filed : (g : Bool) (a : ℕ) (r : Row Entry)
      → get_elem? rows a ≡ some r
      → get_or (lists g h) a [] ≡ pick g (λ j. get_elem? rows j) (links a)) where
  row_at_root :
      (p : Option Text) (i : ℕ) (t : Rose Entry)
      → IsLaid (λ j. get_elem? rows j) links p i t
      → get_elem? rows i ≡ some (root_row p t)
  unfolding IsLaid
  row_at_root p i (node id e ts) at_i = at_i.0

  step :
      (fuel i : ℕ) (r : Row Entry) (gs cs : Items)
      → get_elem? rows i ≡ some r
      → collect_items (λ j. component whole rows h fuel j) (get_or h.groups i []) ≡ some gs
      → collect_items (λ j. component whole rows h fuel j) (get_or h.cartridges i []) ≡ some cs
      → component whole rows h (suc fuel) i ≡ node_json whole r (some gs) (some cs)
  unfolding component
  step fuel i r gs cs at_i eg ec = ground (arith, at_i, eg, ec)

  collect-cons :
      (g : Bool) (fuel i : ℕ) (r : Row Entry) (v : Json) (is : List ℕ) (vs : Items)
      → get_elem? rows i ≡ some r
      → component whole rows h fuel i ≡ some v
      → collect_items (λ j. component whole rows h fuel j) (pick g (λ j. get_elem? rows j) is)
        ≡ some vs
      → collect_items (λ j. component whole rows h fuel j) (pick g (λ j. get_elem? rows j) (i ∷ is))
        ≡ some (if kind_at g (some r) then item v vs else vs)
  unfolding pick
  collect-cons g fuel i r v is vs at_i ev evs =
      let kind = ap (kind_at g) at_i in
      elim (Bool-cases (kind_at g (some r))) [
        | inl k ↦ rw (at_i, k) (ground (arith, ev, evs))
        | inr k ↦ rw (at_i, k) evs
      ]

  collect-nil :
      (g : Bool) (fuel : ℕ)
      → collect_items (λ j. component whole rows h fuel j) (pick g (λ j. get_elem? rows j) [])
        ≡ some no_items
  unfolding pick
  collect-nil g fuel = refl

  mutual
    unfolding IsLaid size positions component_json

    component-laid :
        (p : Option Text) (fuel i : ℕ) (t : Rose Entry)
        → size t ≤ fuel
        → IsLaid (λ j. get_elem? rows j) links p i t
        → component whole rows h fuel i ≡ some (component_json whole p t)
    component-laid p zero i (node id e ts) lt at_i = absurd (omega arith)
    component-laid p (suc fuel) i (node id e ts) lt at_i =
        let below = λ (g : Bool). filed g i _ at_i.0 ∙ ap (pick g (λ j. get_elem? rows j)) at_i.1 in
        step fuel i _ _ _ at_i.0
          (ap (collect_items (λ j. component whole rows h fuel j)) (below true)
            ∙ items-laid true (some id) fuel (suc i) ts (omega arith) at_i.2)
          (ap (collect_items (λ j. component whole rows h fuel j)) (below false)
            ∙ items-laid false (some id) fuel (suc i) ts (omega arith) at_i.2)
        ∙ ground arith

    pub items-laid :
        (g : Bool) (p : Option Text) (fuel i : ℕ) (ts : Roses Entry)
        → size_all ts ≤ fuel
        → IsLaidAll (λ j. get_elem? rows j) links p i ts
        → collect_items
            (λ j. component whole rows h fuel j)
            (pick g (λ j. get_elem? rows j) (positions i ts))
          ≡ some (items_of g whole p ts)
    items-laid g p fuel i nil lt at_i = collect-nil g fuel
    items-laid g p fuel i (cons t ts) lt at_i =
        collect-cons g fuel i (root_row p t) (component_json whole p t) (positions (i + size t) ts)
          (items_of g whole p ts) (row_at_root p i t at_i.0)
          (component-laid p fuel i t (omega arith) at_i.0)
          (items-laid g p fuel (i + size t) ts (omega arith) at_i.1)
