-- ===== src/Export/Drawing.antt =====
-- A whiteboard on which a forest is drawn: what its names and its sources give the exporters.
use product_private_paas.Common.{
  ℕ, Text, text_eq, text_eq_refl, mem, mem-append, mem_ne, distinct, distinct_of_count,
  count_le_one_of_distinct, count_of_mem, count_of_not_mem, not_mem_of_count, not, ◌≡◌, refl, sym,
  ap, ◌∙◌, Bool, true, false, Option, none, some, List, [], ◌∷◌, ◌++◌, arith, get_elem?, ◌&&◌, ◌||◌,
}
use product_private_paas.Objects.Index.{mem_of_get_elem?}
use product_private_paas.Forest.{Row, names_of, parent_key}
use product_private_paas.Forest.Attach.{named}
use product_private_paas.Forest.Laid.{IsLaidAll, laid_all}
use product_private_paas.Forest.Layout.{flatten, flatten_all, inner_names_all, leaf_names_all}
use product_private_paas.Forest.Linked.{get_elem?-names_of, zero_add}
use product_private_paas.Forest.Names.{count_names_all}
use product_private_paas.Forest.Segments.{named_outside_all}
use product_private_paas.Forest.Trees.{Rose, Roses, node, nil, cons}
use product_private_paas.Export.{Entry, RawTree, is_group}
use product_private_paas.Export.Sources.{group_ids, has_group_sources}

abbrev is_nil : Roses Entry → Bool
is_nil nil = true
is_nil (cons t ts) = false

-- Nothing is drawn below a cartridge.
unfoldable mutual
  pub is_grouped : Rose Entry → Bool
  is_grouped (node n e ts) = (is_group e.dtype || is_nil ts) && is_grouped_all ts

  pub is_grouped_all : Roses Entry → Bool
  is_grouped_all nil = true
  is_grouped_all (cons t ts) = is_grouped t && is_grouped_all ts

-- A drawing below the base node: the nodes have distinct ids, none of them the base node's, and
-- nothing is drawn below a cartridge.
unfoldable pub is_drawing : Text → Roses Entry → Bool
unfolding is_grouped
is_drawing base ts =
    distinct (names_of (flatten_all (some base) ts))
    && not (mem base (names_of (flatten_all (some base) ts)))
    && is_grouped_all ts

group_ids-append : (xs ys : RawTree) → group_ids (xs ++ ys) ≡ group_ids xs ++ group_ids ys
unfolding group_ids
group_ids-append [] ys = refl
group_ids-append (r ∷ xs) ys = ground (arith, group_ids-append xs ys)

has_group_sources-append :
    (base : Text) (ids : List Text) (xs ys : RawTree)
    → has_group_sources base ids (xs ++ ys)
      ≡ (has_group_sources base ids xs && has_group_sources base ids ys)
unfolding has_group_sources
has_group_sources-append base ids [] ys = refl
has_group_sources-append base ids (r ∷ xs) ys =
    ground (arith, has_group_sources-append base ids xs ys)

module _ (base : Text) (ids : List Text) where
  abbrev IsKnown : RawTree → Type 0
  IsKnown rows = (k : Text) → mem k (group_ids rows) ≡ true → mem k ids ≡ true

  IsKnown-left : (xs ys : RawTree) → IsKnown (xs ++ ys) → IsKnown xs
  IsKnown-left xs ys known k m =
      known k
        (ground (arith, group_ids-append xs ys, mem-append k (group_ids xs) (group_ids ys), m))

  IsKnown-right : (xs ys : RawTree) → IsKnown (xs ++ ys) → IsKnown ys
  IsKnown-right xs ys known k m =
      known k
        (ground (arith, group_ids-append xs ys, mem-append k (group_ids xs) (group_ids ys), m))

  IsKnown-head :
      (r : Row Entry) (xs : RawTree)
      → IsKnown (r ∷ xs)
      → is_group r.payload.dtype ≡ true
      → mem r.name ids ≡ true
  unfolding group_ids mem
  IsKnown-head r xs known g = known r.name (ground (arith, text_eq_refl r.name))

  IsKnown-tail : (r : Row Entry) (xs : RawTree) → IsKnown (r ∷ xs) → IsKnown xs
  unfolding group_ids mem
  IsKnown-tail r xs known k m = known k (ground arith)

  mutual
    unfolding is_grouped flatten has_group_sources

    sources-drawn :
        (p : Option Text) (t : Rose Entry)
        → (text_eq (parent_key p) base || mem (parent_key p) ids) ≡ true
        → IsKnown (flatten p t)
        → is_grouped t ≡ true
        → has_group_sources base ids (flatten p t) ≡ true
    sources-drawn p (node n e nil) ok known g = ground arith
    sources-drawn p (node n e (cons t ts)) ok known g =
        let here =
          IsKnown-head (record { name = n; parent = p; payload = e })
            (flatten_all (some n) (cons t ts)) known (ground arith) in
        let below =
          sources-drawn_all (some n) (cons t ts) (ground (arith, here))
            (IsKnown-tail (record { name = n; parent = p; payload = e })
              (flatten_all (some n) (cons t ts)) known)
            (ground arith) in
        ground (arith, below)

    sources-drawn_all :
        (p : Option Text) (ts : Roses Entry)
        → (text_eq (parent_key p) base || mem (parent_key p) ids) ≡ true
        → IsKnown (flatten_all p ts)
        → is_grouped_all ts ≡ true
        → has_group_sources base ids (flatten_all p ts) ≡ true
    sources-drawn_all p nil ok known g = refl
    sources-drawn_all p (cons t ts) ok known g = ground (
      arith,
      has_group_sources-append base ids (flatten p t) (flatten_all p ts),
      sources-drawn p t ok (IsKnown-left (flatten p t) (flatten_all p ts) known) (ground arith),
      sources-drawn_all p ts ok (IsKnown-right (flatten p t) (flatten_all p ts) known)
          (ground arith),
    )

-- The places of the nodes that a node is the parent of.
abbrev pub below_node : RawTree → ℕ → List ℕ
below_node rows a = elim (get_elem? rows a) [ none ↦ [] | some r ↦ named r.name 0 rows ]

module _ (base : Text) (ts : Roses Entry) (ok : is_drawing base ts ≡ true) where
  abbrev rows : RawTree
  rows = flatten_all (some base) ts

  pub distinct-drawn : distinct (names_of rows) ≡ true
  unfolding is_drawing
  distinct-drawn = ground arith

  base_absent : mem base (names_of rows) ≡ false
  unfolding is_drawing
  base_absent = ground arith

  pub group_sources-drawn : has_group_sources base (group_ids rows) rows ≡ true
  unfolding is_drawing
  group_sources-drawn =
      sources-drawn_all base (group_ids rows) (some base) ts (ground (arith, text_eq_refl base))
        (λ k m. m) (ground arith)

  pub base_apart : (a : ℕ) (r : Row Entry) → get_elem? rows a ≡ some r → text_eq base r.name ≡ false
  base_apart a r at_a =
      mem_ne base r.name (names_of rows) base_absent
        (mem_of_get_elem? (names_of rows) a r.name (get_elem?-names_of rows a r at_a))

  pub base_not_inner : mem base (inner_names_all ts) ≡ false
  base_not_inner = not_mem_of_count base (inner_names_all ts) (
      omega (
        arith,
        count_names_all base (some base) ts,
        count_of_not_mem base (names_of rows) base_absent,
      ))

  distinct-inner_names_all : distinct (inner_names_all ts) ≡ true
  distinct-inner_names_all = distinct_of_count (inner_names_all ts) (λ k. omega (
    arith,
    count_names_all k (some base) ts,
    count_le_one_of_distinct k (names_of rows) distinct-drawn,
  ))

  leaf_not_inner :
      (k : Text) → mem k (leaf_names_all ts) ≡ true → mem k (inner_names_all ts) ≡ false
  leaf_not_inner k m = not_mem_of_count k (inner_names_all ts) (
      omega (
        arith,
        count_names_all k (some base) ts,
        count_of_mem k (leaf_names_all ts) m,
        count_le_one_of_distinct k (names_of rows) distinct-drawn,
      ))

  pub below_node-named :
      (a : ℕ) (r : Row Entry) → get_elem? rows a ≡ some r → below_node rows a ≡ named r.name 0 rows
  below_node-named a r at_a = ground (arith, at_a)

  pub drawn_laid : IsLaidAll (λ j. get_elem? rows j) (below_node rows) (some base) 0 ts
  drawn_laid =
      laid_all (λ j. get_elem? rows j) (below_node rows) (λ k. named k 0 rows) (inner_names_all ts)
        (record {
          at_inner = λ a r at_a m. below_node-named a r at_a;
          at_leaf = λ a r at_a m.
              below_node-named a r at_a
              ∙ named_outside_all r.name 0 (some base) ts m (base_apart a r at_a);
        })
        (some base) 0 ts (λ j r h. ap (get_elem? rows) (sym (zero_add j)) ∙ h) (λ k m. (m, refl))
        leaf_not_inner distinct-inner_names_all base_not_inner
