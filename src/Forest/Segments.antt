-- ===== src/Forest/Segments.antt =====
-- Segments of the rows: which of them claim a node as their parent.
use product_private_paas.Common.{
  ℕ, zero, suc, ◌+◌, Text, text_eq, text_eq_iff, text_eq_refl, mem, distinct, mem-append, mem_ne,
  ◌≡◌, refl, ap, ◌∙◌, true, false, Option, some, List, [], ◌∷◌, ◌++◌, arith, length, get_elem?,
  append-nil, Bool-cases, inl, inr, ◌⊎◌,
}
use product_private_paas.Forest.{Row, parent_key}
use product_private_paas.Forest.Attach.{named}
use product_private_paas.Forest.Layout.{
  flatten, flatten_all, size, size_all, length-flatten, positions, named-append, if_inner,
  inner_names, inner_names_all,
}
use product_private_paas.Forest.Trees.{Rose, Roses, node, nil, cons}

pub mem-append_false :
    (k : Text) (xs ys : List Text)
    → mem k (xs ++ ys) ≡ false
    → (mem k xs ≡ false) × (mem k ys ≡ false)
mem-append_false k xs ys h = ground (arith, mem-append k xs ys)

pub mem-append_true :
    (k : Text) (xs ys : List Text) → (mem k xs ≡ true) ⊎ (mem k ys ≡ true) → mem k (xs ++ ys) ≡ true
mem-append_true k xs ys h = ground (arith, mem-append k xs ys)

pub apart_sym :
    (k : Text) (xs ys : List Text)
    → ((k : Text) → mem k xs ≡ true → mem k ys ≡ false)
    → mem k ys ≡ true
    → mem k xs ≡ false
apart_sym k xs ys apart m = elim (Bool-cases (mem k xs)) [ inl e ↦ cc (apart k e) | inr e ↦ e ]

module _ {ℓ} {A : Type ℓ} where
  -- A node without children has no row that names it, whatever its name is.
  named_below :
      (k n : Text) (i : ℕ) (ts : Roses A)
      → (text_eq n k ≡ false → named k i (flatten_all (some n) ts) ≡ [])
      → mem k (if_inner n ts) ≡ false
      → named k i (flatten_all (some n) ts) ≡ []
  unfolding if_inner mem flatten named
  named_below k n i nil rest m = refl
  named_below k n i (cons t ts) rest m = rest (ground (arith, text_eq_iff k n, text_eq_iff n k))

  pub named-cons_ne :
      (k : Text) (i : ℕ) (r : Row A) (xs : List (Row A))
      → text_eq (parent_key r.parent) k ≡ false
      → named k i (r ∷ xs) ≡ named k (suc i) xs
  unfolding named
  named-cons_ne k i r xs h = ground arith

  mutual
    unfolding flatten inner_names named

    pub named_outside :
        (k : Text) (i : ℕ) (p : Option Text) (t : Rose A)
        → mem k (inner_names t) ≡ false
        → text_eq (parent_key p) k ≡ false
        → named k i (flatten p t) ≡ []
    named_outside k i p (node n a ts) m h =
        let (here, below) = mem-append_false k (if_inner n ts) (inner_names_all ts) m in
        named-cons_ne k i (record { name = n; parent = p; payload = a }) (flatten_all (some n) ts) h
        ∙ named_below k n (suc i) ts (named_outside_all k (suc i) (some n) ts below) here

    pub named_outside_all :
        (k : Text) (i : ℕ) (p : Option Text) (ts : Roses A)
        → mem k (inner_names_all ts) ≡ false
        → text_eq (parent_key p) k ≡ false
        → named k i (flatten_all p ts) ≡ []
    named_outside_all k i p nil m h = refl
    named_outside_all k i p (cons t ts) m h =
        let (mt, ms) = mem-append_false k (inner_names t) (inner_names_all ts) m in
        cc (
          named-append k i (flatten p t) (flatten_all p ts),
          named_outside k i p t mt h,
          named_outside_all k (i + length (flatten p t)) p ts ms h,
        )

  -- The rows that name `n` are the roots of the forest below it.
  pub named_roots :
      (n : Text) (i : ℕ) (ts : Roses A)
      → mem n (inner_names_all ts) ≡ false
      → named n i (flatten_all (some n) ts) ≡ positions i ts
  unfolding flatten named positions size inner_names
  named_roots n i nil m = refl
  named_roots n i (cons (node k a us) ts) m =
      let (mk, ms) = mem-append_false n (inner_names (node k a us)) (inner_names_all ts) m in
      let (here, below) = mem-append_false n (if_inner k us) (inner_names_all us) mk in
      ground (
        arith,
        named-append n (suc i) (flatten_all (some k) us) (flatten_all (some n) ts),
        named_below n k (suc i) us (named_outside_all n (suc i) (some k) us below) here,
        text_eq_refl n,
        named_roots n (i + suc (size_all us)) ts ms,
        length-flatten (some n) (node k a us),
      )

  -- Where the rows of a forest claim the children of `k`, so do the rows of the part of it that has
  -- the inner node named `k`.
  pub own_left :
      (k : Text) (i : ℕ) (p : Option Text) (t : Rose A) (ts : Roses A)
      → text_eq (parent_key p) k ≡ false
      → mem k (inner_names_all ts) ≡ false
      → named k i (flatten p t ++ flatten_all p ts) ≡ named k i (flatten p t)
  own_left k i p t ts ne m = cc (
    named-append k i (flatten p t) (flatten_all p ts),
    named_outside_all k (i + length (flatten p t)) p ts m ne,
    append-nil (named k i (flatten p t)),
  )

  pub own_right :
      (k : Text) (i : ℕ) (p : Option Text) (t : Rose A) (ts : Roses A)
      → text_eq (parent_key p) k ≡ false
      → mem k (inner_names t) ≡ false
      → named k i (flatten p t ++ flatten_all p ts) ≡ named k (i + size t) (flatten_all p ts)
  own_right k i p t ts ne m =
      rw (← length-flatten p t)
        (cc (named-append k i (flatten p t) (flatten_all p ts), named_outside k i p t m ne))

  pub own_below :
      (p : Option Text) (n : Text) (ts : Roses A)
      → distinct (if_inner n ts ++ inner_names_all ts) ≡ true
      → mem (parent_key p) (if_inner n ts ++ inner_names_all ts) ≡ false
      → (mem n (inner_names_all ts) ≡ false)
        × (distinct (inner_names_all ts) ≡ true)
        × ((k : Text)
            → mem k (inner_names_all ts) ≡ true
            → (mem k (if_inner n ts ++ inner_names_all ts) ≡ true)
              × (text_eq (parent_key p) k ≡ false))
  unfolding mem distinct if_inner
  own_below p n nil d m = unfold inner_names in (refl, refl, λ k mk. cc)
  own_below p n (cons t ts) d m = (
    ground arith,
    ground arith,
    λ k mk. (ground arith, mem_ne (parent_key p) k _ (ground arith) mk),
  )

  abbrev pub IsSegment : (ℕ → Option (Row A)) → ℕ → List (Row A) → Type ℓ
  IsSegment rows i seg = (j : ℕ) (r : Row A) → get_elem? seg j ≡ some r → rows (i + j) ≡ some r

  get_elem?-append_left :
      (xs ys : List (Row A)) (j : ℕ) (r : Row A)
      → get_elem? xs j ≡ some r
      → get_elem? (xs ++ ys) j ≡ some r
  get_elem?-append_left [] ys j r h = cc
  get_elem?-append_left (x ∷ xs) ys zero r h = h
  get_elem?-append_left (x ∷ xs) ys (suc j) r h = get_elem?-append_left xs ys j r h

  get_elem?-append_right :
      (xs ys : List (Row A)) (j : ℕ) → get_elem? (xs ++ ys) (length xs + j) ≡ get_elem? ys j
  get_elem?-append_right [] ys j = ap (get_elem? ys) (omega arith)
  get_elem?-append_right (x ∷ xs) ys j =
      let e : suc (length xs) + j ≡ suc (length xs + j) = omega arith in
      rw e (get_elem?-append_right xs ys j)

  pub IsSegment-head :
      (rows : ℕ → Option (Row A)) (i : ℕ) (x : Row A) (xs : List (Row A))
      → IsSegment rows i (x ∷ xs)
      → rows i ≡ some x
  IsSegment-head rows i x xs seg = let e : i ≡ i + 0 = omega arith in rw e (seg 0 x refl)

  pub IsSegment-tail :
      (rows : ℕ → Option (Row A)) (i : ℕ) (x : Row A) (xs : List (Row A))
      → IsSegment rows i (x ∷ xs)
      → IsSegment rows (suc i) xs
  IsSegment-tail rows i x xs seg j r h =
      let e : suc i + j ≡ i + suc j = omega arith in rw e (seg (suc j) r h)

  pub IsSegment-left :
      (rows : ℕ → Option (Row A)) (i : ℕ) (xs ys : List (Row A))
      → IsSegment rows i (xs ++ ys)
      → IsSegment rows i xs
  IsSegment-left rows i xs ys seg j r h = seg j r (get_elem?-append_left xs ys j r h)

  pub IsSegment-right :
      (rows : ℕ → Option (Row A)) (i : ℕ) (xs ys : List (Row A))
      → IsSegment rows i (xs ++ ys)
      → IsSegment rows (i + length xs) ys
  IsSegment-right rows i xs ys seg j r h =
      let e : i + length xs + j ≡ i + (length xs + j) = omega arith in
      rw e (seg (length xs + j) r (get_elem?-append_right xs ys j ∙ h))
