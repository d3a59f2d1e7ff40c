-- ===== src/Export/Merge.antt =====
-- One step of the loops over `rawtree` and `nodes` in the two exporters.
use product_private_paas.Common.{
  ℕ, zero, suc, ◌<◌, Text, text_eq, mem, distinct, ◌≡◌, refl, sym, ap, ◌∙◌, Bool, true, false, some,
  List, [], ◌∷◌, ◌++◌, arith, length, get_elem?, get_or, append-nil, append_assoc, if◌then◌else◌,
  ◌&&◌, eqb,
}
use product_private_paas.Forest.{parent_key}
use product_private_paas.Forest.Attach.{get_or-push_at, length-push_at}
use product_private_paas.Objects.Index.{mem_of_get_elem?}
use product_private_paas.Export.{
  DataType, cartridge, group, RawTree, Hierarchy, is_group, at_base, push_top, push_child, gather,
}

abbrev pub same_kind : Bool → Bool → Bool
same_kind true b = b
same_kind false true = false
same_kind false false = true

-- The places, counted from `i`, of the nodes that have the parent `n`: of the groups among them, or
-- of the cartridges.
unfoldable pub of_kind : Bool → Text → ℕ → RawTree → List ℕ
of_kind g n i [] = []
of_kind g n i (r ∷ rows) =
    let rest = of_kind g n (suc i) rows in
    if text_eq (parent_key r.parent) n && same_kind g (is_group r.payload.dtype)
    then i ∷ rest
    else rest

abbrev pub lists : Bool → Hierarchy → List (List ℕ)
lists true h = h.groups
lists false h = h.cartridges

abbrev pub tops : Bool → Hierarchy → List ℕ
tops true h = h.top_groups
tops false h = h.top_cartridges

pub push_child-lists :
    (g : Bool) (dt : DataType) (j i a : ℕ) (h : Hierarchy) (rest : List ℕ) (b : Bool)
    → a < length (lists g h)
    → eqb j a ≡ b
    → get_or (lists g (push_child dt j i h)) a [] ++ rest
      ≡ get_or (lists g h) a [] ++ (if b && same_kind g (is_group dt) then i ∷ rest else rest)
push_child-lists true group j i a h rest b lt e =
    ground (arith, get_or-push_at j i a h.groups, append_assoc (get_or h.groups a []) (i ∷ []) rest)
push_child-lists false cartridge j i a h rest b lt e = ground (
  arith,
  get_or-push_at j i a h.cartridges,
  append_assoc (get_or h.cartridges a []) (i ∷ []) rest,
)
push_child-lists true cartridge j i a h rest b lt e = ground arith
push_child-lists false group j i a h rest b lt e = ground arith

pub length-push_child :
    (g : Bool) (dt : DataType) (j i : ℕ) (h : Hierarchy)
    → length (lists g (push_child dt j i h)) ≡ length (lists g h)
length-push_child true group j i h = length-push_at j i h.groups
length-push_child false cartridge j i h = length-push_at j i h.cartridges
length-push_child true cartridge j i h = refl
length-push_child false group j i h = refl

pub tops-push_child :
    (g : Bool) (dt : DataType) (j i : ℕ) (h : Hierarchy) → tops g (push_child dt j i h) ≡ tops g h
tops-push_child true group j i h = refl
tops-push_child false cartridge j i h = refl
tops-push_child true cartridge j i h = refl
tops-push_child false group j i h = refl

pub push_top-tops :
    (g : Bool) (dt : DataType) (i : ℕ) (h : Hierarchy) (rest : List ℕ) (b : Bool)
    → tops g (if b then push_top dt i h else h) ++ rest
      ≡ tops g h ++ (if b && same_kind g (is_group dt) then i ∷ rest else rest)
push_top-tops true group i h rest b = ground (arith, append_assoc h.top_groups (i ∷ []) rest)
push_top-tops false cartridge i h rest b =
    ground (arith, append_assoc h.top_cartridges (i ∷ []) rest)
push_top-tops true cartridge i h rest b = ground arith
push_top-tops false group i h rest b = ground arith

lists-push_top :
    (g : Bool) (dt : DataType) (i : ℕ) (h : Hierarchy) (b : Bool)
    → lists g (if b then push_top dt i h else h) ≡ lists g h
lists-push_top true group i h b = ground arith
lists-push_top false cartridge i h b = ground arith
lists-push_top true cartridge i h b = ground arith
lists-push_top false group i h b = ground arith

pub tops-gather :
    (g : Bool) (base : Text) (i : ℕ) (rows : RawTree) (h : Hierarchy)
    → tops g (gather base i rows h) ≡ tops g h ++ of_kind g base i rows
unfolding gather of_kind
tops-gather g base i [] h = sym (append-nil (tops g h))
tops-gather g base i (r ∷ rows) h =
    tops-gather g base (suc i) rows _
    ∙ push_top-tops g r.payload.dtype i h (of_kind g base (suc i) rows) (at_base base r)

pub lists-gather :
    (g : Bool) (base : Text) (i : ℕ) (rows : RawTree) (h : Hierarchy)
    → lists g (gather base i rows h) ≡ lists g h
unfolding gather
lists-gather g base i [] h = refl
lists-gather g base i (r ∷ rows) h =
    lists-gather g base (suc i) rows _ ∙ lists-push_top g r.payload.dtype i h (at_base base r)

pub position_inj :
    (ks : List Text) (i j : ℕ) (k : Text)
    → distinct ks ≡ true
    → get_elem? ks i ≡ some k
    → get_elem? ks j ≡ some k
    → i ≡ j
unfolding distinct
position_inj [] i j k d p q = cc
position_inj (x ∷ ks) zero zero k d p q = refl
position_inj (x ∷ ks) zero (suc j) k d p q =
    let e : x ≡ k = cc in ground (arith, mem_of_get_elem? ks j k q, ap (λ (y : Text). mem y ks) e)
position_inj (x ∷ ks) (suc i) zero k d p q =
    let e : x ≡ k = cc in ground (arith, mem_of_get_elem? ks i k p, ap (λ (y : Text). mem y ks) e)
position_inj (x ∷ ks) (suc i) (suc j) k d p q = ground (arith, position_inj ks i j k)
