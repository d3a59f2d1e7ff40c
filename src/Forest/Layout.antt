-- ===== src/Forest/Layout.antt =====
-- The rows of a tree in preorder, and where its nodes lie among them.
use product_private_paas.Common.{
  ℕ, suc, ◌+◌, Text, ◌≡◌, refl, sym, ap, append_assoc, ◌∙◌, Option, some, List, [], ◌∷◌, ◌++◌,
  arith, length, length-append,
}
use product_private_paas.Forest.{Row}
use product_private_paas.Forest.Attach.{named}
use product_private_paas.Forest.Trees.{Rose, Roses, node, nil, cons}

module _ {ℓ} {A : Type ℓ} where
  unfoldable mutual
    pub flatten : Option Text → Rose A → List (Row A)
    flatten p (node n a ts) =
        (record { name = n; parent = p; payload = a }) ∷ flatten_all (some n) ts

    pub flatten_all : Option Text → Roses A → List (Row A)
    flatten_all p nil = []
    flatten_all p (cons t ts) = flatten p t ++ flatten_all p ts

  unfoldable mutual
    pub size : Rose A → ℕ
    size (node n a ts) = suc (size_all ts)

    pub size_all : Roses A → ℕ
    size_all nil = 0
    size_all (cons t ts) = size t + size_all ts

  mutual
    unfolding flatten size

    length-flatten-mutual : (p : Option Text) (t : Rose A) → length (flatten p t) ≡ size t
    length-flatten-mutual p (node n a ts) = ap suc (length-flatten_all-mutual (some n) ts)

    length-flatten_all-mutual :
        (p : Option Text) (ts : Roses A) → length (flatten_all p ts) ≡ size_all ts
    length-flatten_all-mutual p nil = refl
    length-flatten_all-mutual p (cons t ts) = omega (
      arith,
      length-append (flatten p t) (flatten_all p ts),
      length-flatten-mutual p t,
      length-flatten_all-mutual p ts,
    )

  pub length-flatten : (p : Option Text) (t : Rose A) → length (flatten p t) ≡ size t
  length-flatten p t = length-flatten-mutual p t

  pub length-flatten_all :
      (p : Option Text) (ts : Roses A) → length (flatten_all p ts) ≡ size_all ts
  length-flatten_all p ts = length-flatten_all-mutual p ts

  -- The places of the roots of a forest that is laid out from `i` on.
  unfoldable pub positions : ℕ → Roses A → List ℕ
  positions i nil = []
  positions i (cons t ts) = i ∷ positions (i + size t) ts

  pub named-append :
      (k : Text) (i : ℕ) (xs ys : List (Row A))
      → named k i (xs ++ ys) ≡ named k i xs ++ named k (i + length xs) ys
  unfolding named
  named-append k i [] ys = ap (λ j. named k j ys) (omega arith)
  named-append k i (r ∷ xs) ys = ground (
    arith,
    named-append k (suc i) xs ys,
    ap (λ j. named k j ys) (let e : suc i + length xs ≡ i + suc (length xs) = omega arith in e),
  )

  -- The names of the nodes that have children, and of the leaves.
  unfoldable pub if_inner : Text → Roses A → List Text
  if_inner n nil = []
  if_inner n (cons t ts) = n ∷ []

  unfoldable pub if_leaf : Text → Roses A → List Text
  if_leaf n nil = n ∷ []
  if_leaf n (cons t ts) = []

  unfoldable mutual
    unfolding if_inner

    pub inner_names : Rose A → List Text
    inner_names (node n a ts) = if_inner n ts ++ inner_names_all ts

    pub inner_names_all : Roses A → List Text
    inner_names_all nil = []
    inner_names_all (cons t ts) = inner_names t ++ inner_names_all ts

  unfoldable mutual
    unfolding if_leaf

    pub leaf_names : Rose A → List Text
    leaf_names (node n a ts) = if_leaf n ts ++ leaf_names_all ts

    pub leaf_names_all : Roses A → List Text
    leaf_names_all nil = []
    leaf_names_all (cons t ts) = leaf_names t ++ leaf_names_all ts

  -- Two forests side by side.
  unfoldable pub join : Roses A → Roses A → Roses A
  join nil us = us
  join (cons t ts) us = cons t (join ts us)

  pub flatten_all-join :
      (p : Option Text) (ts us : Roses A)
      → flatten_all p (join ts us) ≡ flatten_all p ts ++ flatten_all p us
  unfolding join flatten
  flatten_all-join p nil us = refl
  flatten_all-join p (cons t ts) us =
      ap (λ r. flatten p t ++ r) (flatten_all-join p ts us)
      ∙ sym (append_assoc (flatten p t) (flatten_all p ts) (flatten_all p us))
