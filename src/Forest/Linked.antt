-- ===== src/Forest/Linked.antt =====
-- What the linking loop leaves at each row, and the walk over a tree that is laid out.
use product_private_paas.Common.{
  ℕ, zero, suc, ◌+◌, ◌≤◌, ◌<◌, Text, codes, text_eq, text_eq_iff, mem, count, ◌≡◌, ◌↔◌, refl, sym,
  ap, ◌∙◌, true, false, Bool-cases, inl, inr, Option, none, some, List, [], ◌∷◌, ◌++◌, arith,
  length, get_elem?, get_or, text_eq_sound, replicate,
}
use product_private_paas.Objects.{get_key}
use product_private_paas.Objects.Index.{
  get_key-index_from, get_key-index_from_absent, get_key-index_from_inv,
}
use product_private_paas.Forest.{Row, Links, names_of, data_map, link_rows, collect, walk}
use product_private_paas.Forest.Attach.{
  named, orphans, roots-attach, children-attach, children-attach_unnamed, get_or-replicate,
  length-replicate,
}
use product_private_paas.Forest.Layout.{flatten, flatten_all, size, size_all, positions}
use product_private_paas.Forest.Trees.{Rose, Roses, node, nil, cons}
use product_private_paas.Forest.Laid.{IsLaid, IsLaidAll}

pub get_key-nil : (k : Text) → get_key {V = ℕ} k [] ≡ none
unfolding get_key
get_key-nil k = refl

pub zero_add : (j : ℕ) → j ≡ 0 + j
zero_add j = omega arith

module _ {ℓ} {A : Type ℓ} where
  -- Over the rows where a tree is laid out, the walk from its root gives the tree.
  module _ (rows : List (Row A)) (l : Links) where
    mutual
      unfolding IsLaid size walk positions

      pub walk_laid :
          (p : Option Text) (fuel i : ℕ) (t : Rose A)
          → size t ≤ fuel
          → IsLaid (λ j. get_elem? rows j) (λ j. get_or l.children j []) p i t
          → walk rows l fuel i ≡ some t
      walk_laid p zero i (node n a ts) h at_i = absurd (omega arith)
      walk_laid p (suc fuel) i (node n a ts) h at_i =
          let below = walk_laid_all (some n) fuel (suc i) ts (omega arith) at_i.2 in
          ground (arith, at_i.0, at_i.1, below, ap (collect (λ j. walk rows l fuel j)) at_i.1)

      walk_laid_all :
          (p : Option Text) (fuel i : ℕ) (ts : Roses A)
          → size_all ts ≤ fuel
          → IsLaidAll (λ j. get_elem? rows j) (λ j. get_or l.children j []) p i ts
          → collect (λ j. walk rows l fuel j) (positions i ts) ≡ some ts
      walk_laid_all p fuel i nil h at_i = refl
      walk_laid_all p fuel i (cons t ts) h at_i =
          let first = walk_laid p fuel i t (omega arith) at_i.0 in
          let rest = walk_laid_all p fuel (i + size t) ts (omega arith) at_i.1 in
          ground (arith, first, rest)

  pub get_elem?-names_of :
      (rows : List (Row A)) (i : ℕ) (r : Row A)
      → get_elem? rows i ≡ some r
      → get_elem? (names_of rows) i ≡ some r.name
  get_elem?-names_of [] i r h = cc
  get_elem?-names_of (x ∷ rows) zero r h = ground arith
  get_elem?-names_of (x ∷ rows) (suc i) r h = get_elem?-names_of rows i r h

  pub lt-length_of_get_elem? :
      (rows : List (Row A)) (i : ℕ) (r : Row A) → get_elem? rows i ≡ some r → i < length rows
  lt-length_of_get_elem? [] i r h = cc
  lt-length_of_get_elem? (x ∷ rows) zero r h = omega arith
  lt-length_of_get_elem? (x ∷ rows) (suc i) r h = omega (arith, lt-length_of_get_elem? rows i r h)

  -- The root has no parent, so it is the first of the roots.
  pub roots-link_rows :
      (n : Text) (a : A) (ts : Roses A)
      → mem (codes "null") (names_of (flatten none (node n a ts))) ≡ false
      → (rest : List ℕ) × ((link_rows (flatten none (node n a ts))).roots ≡ 0 ∷ rest)
  unfolding link_rows data_map orphans flatten
  roots-link_rows n a ts m =
      let rows = flatten none (node n a ts) in
      let no_parent =
        get_key-index_from_absent 0 (codes "null") (names_of rows) [] m
        ∙ get_key-nil (codes "null") in
      (
        orphans (data_map rows) 1 (flatten_all (some n) ts),
        roots-attach (data_map rows) 0 rows
              (record { children = replicate (length rows) []; roots = [] })
            ∙ ground (arith, no_parent),
      )

  module _ (rows : List (Row A)) where
    found_name :
        (i : ℕ) (r : Row A) (k : Text)
        → get_elem? rows i ≡ some r
        → get_key k (data_map rows) ≡ some i
        → text_eq k r.name ≡ true
    unfolding data_map
    found_name i r k h e = elim (Bool-cases (mem k (names_of rows))) [
      | inl m ↦
          let (j, q, g) = get_key-index_from_inv 0 i k (names_of rows) [] e m in
          let place : i ≡ j = omega arith in
          ground (
            arith,
            text_eq_iff k r.name,
            g,
            get_elem?-names_of rows i r h,
            ap (get_elem? (names_of rows)) place,
          )
      | inr m ↦ cc (get_key-index_from_absent 0 k (names_of rows) [] m, get_key-nil k)
    ]

    data_map-found :
        (i : ℕ) (r : Row A) (k : Text)
        → get_elem? rows i ≡ some r
        → count r.name (names_of rows) ≡ 1
        → (get_key k (data_map rows) ≡ some i) ↔ (text_eq k r.name ≡ true)
    unfolding data_map
    data_map-found i r k h once = (
      found_name i r k h,
      λ e. rw (text_eq_sound k r.name e) (
          get_key-index_from 0 i r.name (names_of rows) [] once (get_elem?-names_of rows i r h)
          ∙ ap some (sym (zero_add i))),
    )

    -- The children of a row whose name no other row has are the rows that name it.
    pub children-link_rows :
        (i : ℕ) (r : Row A)
        → get_elem? rows i ≡ some r
        → count r.name (names_of rows) ≡ 1
        → get_or (link_rows rows).children i [] ≡ named r.name 0 rows
    unfolding link_rows
    children-link_rows i r h once =
        children-attach (data_map rows) i r.name (λ k. data_map-found i r k h once) 0 rows
          (record { children = replicate (length rows) []; roots = [] })
          (omega (arith, length-replicate (length rows), lt-length_of_get_elem? rows i r h))
        ∙ ap (λ c. c ++ named r.name 0 rows) (get_or-replicate (length rows) i)

    pub links-link_rows_unnamed :
        (i : ℕ) (r : Row A)
        → get_elem? rows i ≡ some r
        → named r.name 0 rows ≡ []
        → get_or (link_rows rows).children i [] ≡ []
    unfolding link_rows
    links-link_rows_unnamed i r h e =
        children-attach_unnamed (data_map rows) i r.name (λ k. found_name i r k h) 0 rows
          (record { children = replicate (length rows) []; roots = [] })
          (omega (arith, length-replicate (length rows), lt-length_of_get_elem? rows i r h)) e
        ∙ get_or-replicate (length rows) i
