-- ===== src/Forest/Attach.antt =====
-- What the linking loop leaves in `children` and in `treeData`.
use product_private_paas.Common.{
  ℕ, zero, suc, ◌<◌, Text, text_eq, ◌≡◌, refl, sym, ◌∙◌, ◌↔◌, Bool, true, false, Option, none, some,
  List, [], ◌∷◌, ◌++◌, arith, length, get_or, eqb, eqb_iff, if◌then◌else◌, append-nil, append_assoc,
  replicate,
}
use product_private_paas.Objects.{Object, get_key}
use product_private_paas.Forest.{Row, Links, parent_key, push_at, place, attach}

pub get_or-push_at :
    (a i j : ℕ) (cs : List (List ℕ))
    → j < length cs
    → get_or (push_at a i cs) j [] ≡ (if eqb a j then get_or cs j [] ++ i ∷ [] else get_or cs j [])
unfolding push_at
get_or-push_at a i j [] h = absurd (omega arith)
get_or-push_at zero i zero (c ∷ cs) h = refl
get_or-push_at zero i (suc j) (c ∷ cs) h = ground arith
get_or-push_at (suc a) i zero (c ∷ cs) h = ground arith
get_or-push_at (suc a) i (suc j) (c ∷ cs) h = ground (arith, get_or-push_at a i j cs)

pub length-push_at : (a i : ℕ) (cs : List (List ℕ)) → length (push_at a i cs) ≡ length cs
unfolding push_at
length-push_at a i [] = refl
length-push_at zero i (c ∷ cs) = refl
length-push_at (suc a) i (c ∷ cs) = ground (arith, length-push_at a i cs)

pub get_or-replicate : (n j : ℕ) → get_or {A = List ℕ} (replicate n []) j [] ≡ []
get_or-replicate zero j = refl
get_or-replicate (suc n) zero = refl
get_or-replicate (suc n) (suc j) = get_or-replicate n j

pub length-replicate : (n : ℕ) → length (replicate {A = List ℕ} n []) ≡ n
length-replicate zero = refl
length-replicate (suc n) = ground (arith, length-replicate n)

length-place :
    (o : Option ℕ) (i : ℕ) (l : Links) → length (place o i l).children ≡ length l.children
unfolding place
length-place none i l = refl
length-place (some a) i l = length-push_at a i l.children

place-roots :
    (o : Option ℕ) (i : ℕ) (l : Links) (rest : List ℕ)
    → (place o i l).roots ++ rest ≡ l.roots ++ (elim o [ none ↦ i ∷ rest | some _ ↦ rest ])
unfolding place
place-roots none i l rest = append_assoc l.roots (i ∷ []) rest
place-roots (some a) i l rest = refl

place-children :
    (o : Option ℕ) (i j : ℕ) (l : Links) (rest : List ℕ) (b : Bool)
    → j < length l.children
    → (o ≡ some j) ↔ (b ≡ true)
    → get_or (place o i l).children j [] ++ rest
      ≡ get_or l.children j [] ++ (if b then i ∷ rest else rest)
unfolding place
place-children none i j l rest b h iff = ground arith
place-children (some a) i j l rest b h iff = ground (
  arith,
  get_or-push_at a i j l.children,
  eqb_iff a j,
  append_assoc (get_or l.children j []) (i ∷ []) rest,
)

module _ {ℓ} {A : Type ℓ} where
  -- The places of the rows whose parent has the name `n`, counted from `i`.
  unfoldable pub named : Text → ℕ → List (Row A) → List ℕ
  named n i [] = []
  named n i (r ∷ rows) =
      let rest = named n (suc i) rows in if text_eq (parent_key r.parent) n then i ∷ rest else rest

  -- The places of the rows whose parent is not found.
  unfoldable pub orphans : Object ℕ → ℕ → List (Row A) → List ℕ
  orphans m i [] = []
  orphans m i (r ∷ rows) =
      let rest = orphans m (suc i) rows in
      elim (get_key (parent_key r.parent) m) [ none ↦ i ∷ rest | some _ ↦ rest ]

  pub roots-attach :
      (m : Object ℕ) (i : ℕ) (rows : List (Row A)) (l : Links)
      → (attach m i rows l).roots ≡ l.roots ++ orphans m i rows
  unfolding attach orphans
  roots-attach m i [] l = sym (append-nil l.roots)
  roots-attach m i (r ∷ rows) l =
      roots-attach m (suc i) rows (place (get_key (parent_key r.parent) m) i l)
      ∙ place-roots (get_key (parent_key r.parent) m) i l (orphans m (suc i) rows)

  module _ (m : Object ℕ) (j : ℕ) (n : Text)
      (found : (k : Text) → (get_key k m ≡ some j) ↔ (text_eq k n ≡ true)) where
    -- The row at `j` gathers the rows that name it, in the order of the rows.
    pub children-attach :
        (i : ℕ) (rows : List (Row A)) (l : Links)
        → j < length l.children
        → get_or (attach m i rows l).children j [] ≡ get_or l.children j [] ++ named n i rows
    unfolding attach named
    children-attach i [] l h = sym (append-nil (get_or l.children j []))
    children-attach i (r ∷ rows) l h =
        let o = get_key (parent_key r.parent) m in
        children-attach (suc i) rows (place o i l) (omega (arith, length-place o i l))
        ∙ place-children o i j l (named n (suc i) rows) (text_eq (parent_key r.parent) n) h
            (found (parent_key r.parent))

  -- A row that no row names gathers none.
  pub children-attach_unnamed :
      (m : Object ℕ) (j : ℕ) (n : Text)
      → ((k : Text) → get_key k m ≡ some j → text_eq k n ≡ true)
      → (i : ℕ) (rows : List (Row A)) (l : Links) → j < length l.children
      → named n i rows ≡ []
      → get_or (attach m i rows l).children j [] ≡ get_or l.children j []
  unfolding attach named
  children-attach_unnamed m j n found i [] l h e = refl
  children-attach_unnamed m j n found i (r ∷ rows) l h e =
      let o = get_key (parent_key r.parent) m in
      let named_r : text_eq (parent_key r.parent) n ≡ false = ground arith in
      children-attach_unnamed m j n found (suc i) rows (place o i l)
        (omega (arith, length-place o i l)) (ground arith)
      ∙ sym (append-nil (get_or (place o i l).children j []))
      ∙ place-children o i j l [] false h
          (λ q. cc (found (parent_key r.parent) q, named_r), λ q. cc)
      ∙ append-nil (get_or l.children j [])
