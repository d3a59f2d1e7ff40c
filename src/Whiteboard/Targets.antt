-- ===== src/Whiteboard/Targets.antt =====
-- The ends of the connections that a drawn tree has.
use product_private_paas.Common.{
  text_eq, mem, mem-append, true, ◌||◌, arith, Bool-cases, inl, inr, Text, ◌≡◌, refl, sym, ap, ◌∙◌,
  none, some, List, [], ◌∷◌, ◌++◌, drop,
}
use product_private_paas.Export.{Connection}
use mathlib.Core.List.{map-append}
use product_private_paas.Forest.{Row, names_of}
use product_private_paas.Forest.Layout.{flatten, flatten_all}
use product_private_paas.Forest.Trees.{Rose, Roses, node, nil, cons}
use product_private_paas.Whiteboard.Paths.{Shape, links_of, links_of-append}

abbrev pub targets : List Connection → List Text
targets [] = []
targets (c ∷ cs) = c.target_id ∷ targets cs

pub targets-append : (xs ys : List Connection) → targets (xs ++ ys) ≡ targets xs ++ targets ys
targets-append [] ys = refl
targets-append (c ∷ xs) ys = ap (λ l. c.target_id ∷ l) (targets-append xs ys)

abbrev pub sources : List Connection → List Text
sources [] = []
sources (c ∷ cs) = c.source_id ∷ sources cs

pub sources-append : (xs ys : List Connection) → sources (xs ++ ys) ≡ sources xs ++ sources ys
sources-append [] ys = refl
sources-append (c ∷ xs) ys = ap (λ l. c.source_id ∷ l) (sources-append xs ys)

module _ {A : Type 0} where
  mutual
    unfolding flatten links_of

    targets_of_tree :
        (x : Text) (t : Rose (Shape A))
        → targets (links_of (flatten (some x) t)) ≡ names_of (flatten (some x) t)
    targets_of_tree x (node n a ts) = ap (λ l. n ∷ l) (targets_of_trees n ts)

    pub targets_of_trees :
        (x : Text) (ts : Roses (Shape A))
        → targets (links_of (flatten_all (some x) ts)) ≡ names_of (flatten_all (some x) ts)
    targets_of_trees x nil = refl
    targets_of_trees x (cons t ts) =
        ap targets (links_of-append (flatten (some x) t) (flatten_all (some x) ts))
        ∙ targets-append (links_of (flatten (some x) t)) (links_of (flatten_all (some x) ts))
        ∙ ap (λ l. l ++ targets (links_of (flatten_all (some x) ts))) (targets_of_tree x t)
        ∙ ap (λ l. names_of (flatten (some x) t) ++ l) (targets_of_trees x ts)
        ∙ sym (
            map-append (λ (r : Row (Shape A)). r.name) (flatten (some x) t)
              (flatten_all (some x) ts))

  pub targets_of_drawing :
      (t : Rose (Shape A))
      → targets (links_of (flatten none t)) ≡ drop 1 (names_of (flatten none t))
  unfolding flatten links_of
  targets_of_drawing (node n a ts) = targets_of_trees n ts

  mutual
    unfolding flatten links_of mem

    -- A connection of a drawn tree starts at its parent or at one of its nodes.
    sources_of_tree :
        (k x : Text) (t : Rose (Shape A))
        → mem k (sources (links_of (flatten (some x) t))) ≡ true
        → (text_eq k x || mem k (names_of (flatten (some x) t))) ≡ true
    sources_of_tree k x (node n a ts) m = elim (Bool-cases (text_eq k x)) [
      | inl e ↦ ground (arith, e)
      | inr e ↦ ground (arith, e, sources_of_trees k n ts (ground (arith, e, m)))
    ]

    sources_of_trees :
        (k x : Text) (ts : Roses (Shape A))
        → mem k (sources (links_of (flatten_all (some x) ts))) ≡ true
        → (text_eq k x || mem k (names_of (flatten_all (some x) ts))) ≡ true
    sources_of_trees k x nil m = cc m
    sources_of_trees k x (cons t ts) m =
        let one = flatten (some x) t in
        let rest = flatten_all (some x) ts in
        let both : (mem k (sources (links_of one)) || mem k (sources (links_of rest))) ≡ true =
          sym (mem-append k (sources (links_of one)) (sources (links_of rest)))
          ∙ ap (mem k) (sym (sources-append (links_of one) (links_of rest)))
          ∙ ap (λ cs. mem k (sources cs)) (sym (links_of-append one rest))
          ∙ m in
        let split : mem k (names_of (one ++ rest))
            ≡ (mem k (names_of one) || mem k (names_of rest)) =
          ap (mem k) (map-append (λ (r : Row (Shape A)). r.name) one rest)
          ∙ mem-append k (names_of one) (names_of rest) in
        elim (Bool-cases (mem k (sources (links_of one)))) [
          | inl e ↦ ground (arith, split, sources_of_tree k x t e)
          | inr e ↦ ground (arith, split, sources_of_trees k x ts (ground (arith, e, both)))
        ]

  pub sources_of_drawing :
      (k : Text) (t : Rose (Shape A))
      → mem k (sources (links_of (flatten none t))) ≡ true
      → mem k (names_of (flatten none t)) ≡ true
  unfolding flatten links_of mem
  sources_of_drawing k (node n a ts) m = sources_of_trees k n ts m
