-- ===== src/Forest/Names.antt =====
-- The names of the rows of a tree, as its inner nodes and its leaves.
use mathlib.Core.List.{map-append}
use product_private_paas.Forest.Segments.{apart_sym}
use product_private_paas.Common.{
  not_mem_of_disjoint, count_of_distinct, count_of_not_mem, ◌+◌, Text, codes, mem, distinct, count,
  count-append, disjoint, not, ◌&&◌, Bool, ◌≡◌, ap, ◌∙◌, true, false, Option, none, some, List, [],
  ◌∷◌, ◌++◌, arith,
}
use product_private_paas.Forest.{Row, names_of}
use product_private_paas.Forest.Layout.{
  flatten, flatten_all, if_inner, inner_names, inner_names_all, if_leaf, leaf_names, leaf_names_all,
}
use product_private_paas.Forest.Trees.{Rose, Roses, node, nil, cons}

count_none : (k : Text) → count k [] ≡ count k [] + count k []
unfolding count
count_none k = omega arith

module _ {ℓ} {A : Type ℓ} where
  count_names-append :
      (k : Text) (xs ys : List (Row A))
      → count k (names_of (xs ++ ys)) ≡ count k (names_of xs) + count k (names_of ys)
  count_names-append k xs ys =
      ap (count k) (map-append (λ (r : Row A). r.name) xs ys)
      ∙ count-append k (names_of xs) (names_of ys)

  count_node :
      (k n : Text) (ts : Roses A)
      → count k (n ∷ []) ≡ count k (if_inner n ts) + count k (if_leaf n ts)
  unfolding count if_inner if_leaf
  count_node k n nil = omega arith
  count_node k n (cons t ts) = omega arith

  mutual
    unfolding flatten inner_names leaf_names

    pub count_names :
        (k : Text) (p : Option Text) (t : Rose A)
        → count k (names_of (flatten p t)) ≡ count k (inner_names t) + count k (leaf_names t)
    count_names k p (node n a ts) = omega (
      arith,
      count_names_all k (some n) ts,
      count-append k (if_inner n ts) (inner_names_all ts),
      count-append k (if_leaf n ts) (leaf_names_all ts),
      count_node k n ts,
      count-append k (n ∷ []) (names_of (flatten_all (some n) ts)),
    )

    pub count_names_all :
        (k : Text) (p : Option Text) (ts : Roses A)
        → count k (names_of (flatten_all p ts))
          ≡ count k (inner_names_all ts) + count k (leaf_names_all ts)
    count_names_all k p nil = count_none k
    count_names_all k p (cons t ts) = omega (
      arith,
      count_names k p t,
      count_names_all k p ts,
      count_names-append k (flatten p t) (flatten_all p ts),
      count-append k (inner_names t) (inner_names_all ts),
      count-append k (leaf_names t) (leaf_names_all ts),
    )

  -- The names that a tree may have to be drawn: its inner nodes have names of their own, which no
  -- leaf has, and no node is called "null".
  unfoldable pub has_own_names : Rose A → Bool
  has_own_names t =
      distinct (inner_names t)
      && disjoint (leaf_names t) (inner_names t)
      && not (mem (codes "null") (names_of (flatten none t)))

  module _ (t : Rose A) (own : has_own_names t ≡ true) where
    pub distinct-inner_names : distinct (inner_names t) ≡ true
    unfolding has_own_names
    distinct-inner_names = ground arith

    pub not_null : mem (codes "null") (names_of (flatten none t)) ≡ false
    unfolding has_own_names
    not_null = ground arith

    pub leaf_not_inner : (k : Text) → mem k (leaf_names t) ≡ true → mem k (inner_names t) ≡ false
    unfolding has_own_names
    leaf_not_inner k m = not_mem_of_disjoint k (leaf_names t) (inner_names t) (ground arith) m

    -- The name of an inner node is the name of one row.
    pub count_inner :
        (k : Text) → mem k (inner_names t) ≡ true → count k (names_of (flatten none t)) ≡ 1
    count_inner k m = omega (
      arith,
      count_names k none t,
      count_of_distinct k (inner_names t) distinct-inner_names m,
      count_of_not_mem k (leaf_names t)
          (apart_sym k (leaf_names t) (inner_names t) leaf_not_inner m),
    )
