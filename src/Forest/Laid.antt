-- ===== src/Forest/Laid.antt =====
-- Where the nodes of a tree lie among its rows, before and after linking.
use product_private_paas.Common.{
  ℕ, suc, ◌+◌, Text, mem, distinct, distinct-append, mem_ne, text_eq_refl, ◌≡◌, ◌∙◌, true, false,
  Option, some, List, [], ◌∷◌, ◌++◌, arith, inl, inr, subst,
}
use product_private_paas.Forest.{Row, parent_key}
use product_private_paas.Forest.Attach.{named}
use product_private_paas.Forest.Layout.{
  flatten, flatten_all, size, length-flatten, positions, if_inner, inner_names, inner_names_all,
  if_leaf, leaf_names, leaf_names_all,
}
use product_private_paas.Forest.Trees.{Rose, Roses, node, nil, cons}
use product_private_paas.Forest.Segments.{
  mem-append_false, mem-append_true, apart_sym, named-cons_ne, named_roots, own_left, own_right,
  own_below, IsSegment, IsSegment-head, IsSegment-tail, IsSegment-left, IsSegment-right,
}

module _ {ℓ} {A : Type ℓ} where
  -- `t` lies at `i`: its row is there, its children are where the preorder puts them, and so on down.
  unfoldable mutual
    pub IsLaid : (ℕ → Option (Row A)) → (ℕ → List ℕ) → Option Text → ℕ → Rose A → Type ℓ
    IsLaid rows links p i (node n a ts) =
        (rows i ≡ some (record { name = n; parent = p; payload = a }))
        × (links i ≡ positions (suc i) ts)
        × IsLaidAll rows links (some n) (suc i) ts

    pub IsLaidAll : (ℕ → Option (Row A)) → (ℕ → List ℕ) → Option Text → ℕ → Roses A → Type ℓ
    IsLaidAll rows links p i nil = Unit
    IsLaidAll rows links p i (cons t ts) =
        IsLaid rows links p i t × IsLaidAll rows links p (i + size t) ts

  -- What linking does for the rows with the names in `inner`, and for the others.
  pub record IsLinked (rows : ℕ → Option (Row A)) (links : ℕ → List ℕ) (kids : Text → List ℕ)
      (inner : List Text) : Type ℓ where
    pub at_inner :
        (i : ℕ) (r : Row A) → rows i ≡ some r → mem r.name inner ≡ true → links i ≡ kids r.name
    pub at_leaf : (i : ℕ) (r : Row A) → rows i ≡ some r → mem r.name inner ≡ false → links i ≡ []

  module _ (rows : ℕ → Option (Row A)) (links : ℕ → List ℕ) (kids : Text → List ℕ)
      (inner : List Text) (linked : IsLinked rows links kids inner) where
    links_node :
        (p : Option Text) (i : ℕ) (n : Text) (a : A) (ts : Roses A)
        → rows i ≡ some (record { name = n; parent = p; payload = a })
        → ((k : Text)
            → mem k (if_inner n ts ++ inner_names_all ts) ≡ true
            → (mem k inner ≡ true) × (kids k ≡ named k i (flatten p (node n a ts))))
        → ((k : Text) → mem k (if_leaf n ts ++ leaf_names_all ts) ≡ true → mem k inner ≡ false)
        → mem n (inner_names_all ts) ≡ false
        → mem (parent_key p) (if_inner n ts ++ inner_names_all ts) ≡ false
        → links i ≡ positions (suc i) ts
    unfolding if_inner if_leaf flatten positions
    links_node p i n a nil here own leaf m mp =
        linked.at_leaf i _ here (leaf n (unfold mem in ground (arith, text_eq_refl n)))
    links_node p i n a (cons t ts) here own leaf m mp =
        let is_mem =
          mem-append_true n (n ∷ []) (inner_names_all (cons t ts))
            (inl (unfold mem in ground (arith, text_eq_refl n))) in
        linked.at_inner i _ here (own n is_mem).0
        ∙ (own n is_mem).1
        ∙ named-cons_ne n i _ _ (mem_ne (parent_key p) n _ mp is_mem)
        ∙ named_roots n (suc i) (cons t ts) m

    mutual
      unfolding IsLaid flatten size inner_names leaf_names

      pub laid :
          (p : Option Text) (i : ℕ) (t : Rose A)
          → IsSegment rows i (flatten p t)
          → ((k : Text)
              → mem k (inner_names t) ≡ true
              → (mem k inner ≡ true) × (kids k ≡ named k i (flatten p t)))
          → ((k : Text) → mem k (leaf_names t) ≡ true → mem k inner ≡ false)
          → distinct (inner_names t) ≡ true
          → mem (parent_key p) (inner_names t) ≡ false
          → IsLaid rows links p i t
      laid p i (node n a ts) seg own leaf d m =
          let here = IsSegment-head rows i _ _ seg in
          let below = own_below p n ts d m in
          (
            here,
            links_node p i n a ts here own leaf below.0 m,
            laid_all (some n) (suc i) ts (IsSegment-tail rows i _ _ seg)
                (λ k mk.
                  let at_k = own k (below.2 k mk).0 in
                  (at_k.0, at_k.1 ∙ named-cons_ne k i _ _ (below.2 k mk).1))
                (λ k mk. leaf k (mem-append_true k (if_leaf n ts) (leaf_names_all ts) (inr mk)))
                below.1 below.0,
          )

      pub laid_all :
          (p : Option Text) (i : ℕ) (ts : Roses A)
          → IsSegment rows i (flatten_all p ts)
          → ((k : Text)
              → mem k (inner_names_all ts) ≡ true
              → (mem k inner ≡ true) × (kids k ≡ named k i (flatten_all p ts)))
          → ((k : Text) → mem k (leaf_names_all ts) ≡ true → mem k inner ≡ false)
          → distinct (inner_names_all ts) ≡ true
          → mem (parent_key p) (inner_names_all ts) ≡ false
          → IsLaidAll rows links p i ts
      laid_all p i nil seg own leaf d m = tt
      laid_all p i (cons t ts) seg own leaf d m =
          let (dt, ds, apart) = distinct-append (inner_names t) (inner_names_all ts) d in
          let (mt, ms) = mem-append_false (parent_key p) (inner_names t) (inner_names_all ts) m in
          (
            laid p i t (IsSegment-left rows i _ _ seg)
                (λ k mk.
                  let at_k =
                    own k (mem-append_true k (inner_names t) (inner_names_all ts) (inl mk)) in
                  (
                    at_k.0,
                    at_k.1 ∙ own_left k i p t ts (mem_ne (parent_key p) k _ mt mk) (apart k mk),
                  ))
                (λ k mk. leaf k (mem-append_true k (leaf_names t) (leaf_names_all ts) (inl mk))) dt
                mt,
            laid_all p (i + size t) ts
                (subst (λ n. IsSegment rows (i + n) (flatten_all p ts)) (length-flatten p t)
                  (IsSegment-right rows i (flatten p t) (flatten_all p ts) seg))
                (λ k mk.
                  let at_k =
                    own k (mem-append_true k (inner_names t) (inner_names_all ts) (inr mk)) in
                  (
                    at_k.0,
                    at_k.1
                        ∙ own_right k i p t ts (mem_ne (parent_key p) k _ ms mk)
                            (apart_sym k (inner_names t) (inner_names_all ts) apart mk),
                  ))
                (λ k mk. leaf k (mem-append_true k (leaf_names t) (leaf_names_all ts) (inr mk))) ds
                ms,
          )
