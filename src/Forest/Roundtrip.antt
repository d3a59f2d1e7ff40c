-- ===== src/Forest/Roundtrip.antt =====
-- The loop of `generateGroupPreview` and `genTree` on the rows of a tree.
use product_private_paas.Forest.Segments.{named_outside}
use product_private_paas.Forest.Names.{
  has_own_names, distinct-inner_names, not_null, count_names, leaf_not_inner, count_inner,
}
use product_private_paas.Forest.Linked.{
  walk_laid, roots-link_rows, children-link_rows, links-link_rows_unnamed, zero_add,
  get_elem?-names_of,
}
use product_private_paas.Common.{
  count_of_not_mem, not_mem_of_count, mem_ne, ℕ, codes, text_eq, mem, ◌≡◌, refl, true, false, none,
  some, [], arith, length, get_elem?, get_or, subst,
}
use product_private_paas.Objects.Index.{mem_of_get_elem?}
use product_private_paas.Forest.{Row, names_of, link_rows, tree_of_rows}
use product_private_paas.Forest.Attach.{named}
use product_private_paas.Forest.Layout.{flatten, length-flatten, inner_names}
use product_private_paas.Forest.Trees.{Rose, node}
use product_private_paas.Forest.Laid.{IsLaid, IsLinked, laid}

module _ {ℓ} {A : Type ℓ} (t : Rose A) (own : has_own_names t ≡ true) where
  null_apart :
      (i : ℕ) (r : Row A)
      → get_elem? (flatten none t) i ≡ some r
      → text_eq (codes "null") r.name ≡ false
  null_apart i r h = mem_ne (codes "null") r.name (names_of (flatten none t)) (not_null t own) (
      mem_of_get_elem? (names_of (flatten none t)) i r.name
        (get_elem?-names_of (flatten none t) i r h))

  linked :
      IsLinked
        (λ j. get_elem? (flatten none t) j)
        (λ j. get_or (link_rows (flatten none t)).children j [])
        (λ k. named k 0 (flatten none t))
        (inner_names t)
  linked = record {
    at_inner = λ i r h m. children-link_rows (flatten none t) i r h (count_inner t own r.name m);
    at_leaf = λ i r h m.
        links-link_rows_unnamed (flatten none t) i r h
          (named_outside r.name 0 none t m (null_apart i r h));
  }

  null_not_inner : mem (codes "null") (inner_names t) ≡ false
  null_not_inner = not_mem_of_count (codes "null") (inner_names t) (
      omega (
        arith,
        count_names (codes "null") none t,
        count_of_not_mem (codes "null") (names_of (flatten none t)) (not_null t own),
      ))

  placed :
      IsLaid
        (λ j. get_elem? (flatten none t) j)
        (λ j. get_or (link_rows (flatten none t)).children j [])
        none
        0
        t
  placed =
      laid _ _ (λ k. named k 0 (flatten none t)) (inner_names t) linked none 0 t
        (λ j r h. subst (λ x. get_elem? (flatten none t) x ≡ some r) (zero_add j) h)
        (λ k m. (m, refl)) (leaf_not_inner t own) (distinct-inner_names t own) null_not_inner

module _ {ℓ} {A : Type ℓ} where
  -- The rows of a tree in preorder link to the tree itself: provided that its inner nodes have
  -- names of their own and no node is called "null", no row is lost, moved or reordered.
  pub tree_of_rows-flatten :
      (t : Rose A) → has_own_names t ≡ true → tree_of_rows (flatten none t) ≡ some t
  unfolding tree_of_rows
  tree_of_rows-flatten (node n a ts) own =
      let t : Rose A = node n a ts in
      let rows = flatten none t in
      let whole =
        walk_laid rows (link_rows rows) none (length rows) 0 t
          (omega (arith, length-flatten none t)) (placed t own) in
      let (rest, first) = roots-link_rows n a ts (not_null t own) in ground (arith, whole, first)
