-- ===== src/Export/Sources.antt =====
-- Which sources of a connection the exporters accept.
use product_private_paas.Json.{Fields}
use product_private_paas.Common.{
  not, Option, none, ℕ, zero, suc, Text, text_eq, text_eq_iff, text_eq_sound, sym, mem, distinct,
  count_of_distinct, ◌≡◌, refl, ap, ◌∙◌, Bool, true, false, some, List, [], ◌∷◌, arith, get_elem?,
  Bool-cases, inl, inr, if◌then◌else◌, ◌||◌, ◌&&◌,
}
use product_private_paas.Objects.{get_key}
use product_private_paas.Objects.Index.{
  get_key-index_from, get_key-index_from_absent, mem_of_get_elem?,
}
use product_private_paas.Forest.{Row, names_of, parent_key, data_map}
use product_private_paas.Forest.Linked.{get_key-nil, zero_add, get_elem?-names_of}
use product_private_paas.Export.{
  ok, throw, type_error, Entry, RawTree, is_group, at_base, parent_group, DataType, cartridge,
  group, has_list, cartridge_parent,
}

-- The ids of the groups among the nodes.
unfoldable pub group_ids : RawTree → List Text
group_ids [] = []
group_ids (r ∷ rows) =
    let rest = group_ids rows in if is_group r.payload.dtype then r.name ∷ rest else rest

-- A value of a cartridge has no list of groups or of cartridges, so that nothing can be joined to it.
abbrev pub plain_value : DataType → Option Fields → Bool
plain_value group content = true
plain_value cartridge none = true
plain_value cartridge (some fs) = not (has_list cartridge fs || has_list group fs)

unfoldable pub are_plain : RawTree → Bool
are_plain [] = true
are_plain (r ∷ rows) = plain_value r.payload.dtype (some r.payload.content) && are_plain rows

plain-get_elem? :
    (rows : RawTree) (j : ℕ) (p : Row Entry)
    → are_plain rows ≡ true
    → get_elem? rows j ≡ some p
    → plain_value p.payload.dtype (some p.payload.content) ≡ true
unfolding are_plain
plain-get_elem? [] j p a h = cc h
plain-get_elem? (r ∷ rows) zero p a h =
    let same : r ≡ p = cc h in
    ap (λ (x : Row Entry). plain_value x.payload.dtype (some x.payload.content)) (sym same)
    ∙ ground (arith, a)
plain-get_elem? (r ∷ rows) (suc j) p a h = plain-get_elem? rows j p (ground (arith, a)) h

-- A cartridge with a plain value has no list for nodes of either type.
plain_list :
    (type parent : DataType) (fs : Fields)
    → is_group parent ≡ false
    → plain_value parent (some fs) ≡ true
    → has_list type fs ≡ false
plain_list cartridge cartridge fs g a = ground (arith, a)
plain_list group cartridge fs g a = ground (arith, a)
plain_list type group fs g a = cc g

-- Every source is the base node or a group that a connection leads to.
unfoldable pub has_group_sources : Text → List Text → RawTree → Bool
has_group_sources base ids [] = true
has_group_sources base ids (r ∷ rows) =
    (at_base base r || mem (parent_key r.parent) ids) && has_group_sources base ids rows

pub not_mem-group_ids :
    (k : Text) (rows : RawTree) → mem k (names_of rows) ≡ false → mem k (group_ids rows) ≡ false
unfolding group_ids mem
not_mem-group_ids k [] h = refl
not_mem-group_ids k (r ∷ rows) h = ground (arith, not_mem-group_ids k rows)

mem-group_ids :
    (j : ℕ) (p : Row Entry) (rows : RawTree)
    → get_elem? rows j ≡ some p
    → is_group p.payload.dtype ≡ true
    → mem p.name (group_ids rows) ≡ true
unfolding group_ids mem
mem-group_ids j p [] h g = cc
mem-group_ids zero p (r ∷ rows) h g =
    let e : r ≡ p = cc in
    ground (
      arith,
      text_eq_iff p.name r.name,
      ap (λ (x : Row Entry). x.name) e,
      ap (λ (x : Row Entry). is_group x.payload.dtype) e,
    )
mem-group_ids (suc j) p (r ∷ rows) h g = ground (arith, mem-group_ids j p rows)

cartridge-group_ids :
    (j : ℕ) (p : Row Entry) (rows : RawTree)
    → distinct (names_of rows) ≡ true
    → get_elem? rows j ≡ some p
    → is_group p.payload.dtype ≡ false
    → mem p.name (group_ids rows) ≡ false
unfolding group_ids mem distinct
cartridge-group_ids j p [] d h g = cc
cartridge-group_ids zero p (r ∷ rows) d h g =
    let e : r ≡ p = cc in
    ground (
      arith,
      not_mem-group_ids r.name rows,
      ap (λ (x : Row Entry). x.name) e,
      ap (λ (x : Row Entry). is_group x.payload.dtype) e,
    )
cartridge-group_ids (suc j) p (r ∷ rows) d h g = ground (
  arith,
  cartridge-group_ids j p rows,
  text_eq_iff p.name r.name,
  mem_of_get_elem? (names_of rows) j p.name,
  get_elem?-names_of rows j p,
)

get_elem?-of_names_of :
    (rows : RawTree) (j : ℕ) (k : Text)
    → get_elem? (names_of rows) j ≡ some k
    → (p : Row Entry) × (get_elem? rows j ≡ some p) × (p.name ≡ k)
get_elem?-of_names_of [] j k h = cc
get_elem?-of_names_of (r ∷ rows) zero k h = (r, refl, cc)
get_elem?-of_names_of (r ∷ rows) (suc j) k h = get_elem?-of_names_of rows j k h

mem_position : (k : Text) (ks : List Text) → mem k ks ≡ true → (j : ℕ) × (get_elem? ks j ≡ some k)
unfolding mem
mem_position k [] h = cc
mem_position k (x ∷ ks) h = elim (Bool-cases (text_eq k x)) [
  | inl e ↦ (0, cc (text_eq_sound k x e))
  | inr e ↦ let (j, at_j) = mem_position k ks (ground arith) in (suc j, at_j)
]

mem-names_of-group_ids :
    (k : Text) (rows : RawTree) → mem k (group_ids rows) ≡ true → mem k (names_of rows) ≡ true
mem-names_of-group_ids k rows h = elim (Bool-cases (mem k (names_of rows))) [
  | inl e ↦ e
  | inr e ↦ cc (not_mem-group_ids k rows e)
]

module _ (rows : RawTree) (d : distinct (names_of rows) ≡ true) where
  found_at :
      (k : Text)
      → mem k (names_of rows) ≡ true
      → (j : ℕ) × (p : Row Entry) × (get_key k (data_map rows) ≡ some j)
        × (get_elem? rows j ≡ some p)
        × (p.name ≡ k)
  unfolding data_map
  found_at k m =
      let (j, at_j) = mem_position k (names_of rows) m in
      let (p, row_j, named_k) = get_elem?-of_names_of rows j k at_j in
      (
        j,
        p,
        get_key-index_from 0 j k (names_of rows) [] (count_of_distinct k (names_of rows) d m) at_j
            ∙ ap some (sym (zero_add j)),
        row_j,
        named_k,
      )

  parent_group-found :
      (type : DataType) (k : Text) (j : ℕ) (p : Row Entry)
      → get_key k (data_map rows) ≡ some j
      → get_elem? rows j ≡ some p
      → parent_group (data_map rows) rows type k ≡ (
          if is_group p.payload.dtype
          then ok j
          else cartridge_parent (has_list type p.payload.content))
  unfolding parent_group
  parent_group-found type k j p e at_j = ground (arith, e, at_j)

  pub parent_group_absent :
      (type : DataType) (k : Text)
      → mem k (names_of rows) ≡ false
      → parent_group (data_map rows) rows type k ≡ throw type_error
  unfolding parent_group data_map
  parent_group_absent type k absent =
      let e = get_key-index_from_absent 0 k (names_of rows) [] absent ∙ get_key-nil k in
      ground (arith, e)

  -- The look-up of a parent succeeds for the groups' ids, with the group's place, and throws for
  -- every other text, if the values of the cartridges are plain.
  pub parent_group_ok :
      (type : DataType) (k : Text)
      → mem k (group_ids rows) ≡ true
      → (j : ℕ) × (p : Row Entry) × (parent_group (data_map rows) rows type k ≡ ok j)
        × (get_elem? rows j ≡ some p)
        × (p.name ≡ k)
  parent_group_ok type k m =
      let (j, p, e, at_j, named_k) = found_at k (mem-names_of-group_ids k rows m) in
      let is_g : is_group p.payload.dtype ≡ true = elim (Bool-cases (is_group p.payload.dtype)) [
        | inl g ↦ g
        | inr g ↦
            cc (cartridge-group_ids j p rows d at_j g, ap (λ x. mem x (group_ids rows)) named_k, m)
      ] in
      (j, p, parent_group-found type k j p e at_j ∙ rw is_g, at_j, named_k)

  pub parent_group_throw :
      (type : DataType) (k : Text)
      → are_plain rows ≡ true
      → mem k (group_ids rows) ≡ false
      → parent_group (data_map rows) rows type k ≡ throw type_error
  parent_group_throw type k plain m = elim (Bool-cases (mem k (names_of rows))) [
    | inr absent ↦ parent_group_absent type k absent
    | inl present ↦
        let (j, p, e, at_j, named_k) = found_at k present in
        let is_c : is_group p.payload.dtype ≡ false = elim (Bool-cases (is_group p.payload.dtype)) [
          | inr g ↦ g
          | inl g ↦ cc (mem-group_ids j p rows at_j g, ap (λ x. mem x (group_ids rows)) named_k, m)
        ] in
        let no_list : has_list type p.payload.content ≡ false =
          plain_list type p.payload.dtype p.payload.content is_c
            (plain-get_elem? rows j p plain at_j) in
        parent_group-found type k j p e at_j
        ∙ ap (λ b. if b then ok j else cartridge_parent (has_list type p.payload.content)) is_c
        ∙ ap cartridge_parent no_list
  ]
