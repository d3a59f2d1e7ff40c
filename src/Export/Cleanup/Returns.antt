-- ===== src/Export/Cleanup/Returns.antt =====
-- When `traverse` returns.
use product_private_paas.Common.{
  Text, codes, text_eq, mem, ◌≡◌, refl, Bool, true, false, ◌&&◌, ◌||◌, not, Option, none, some,
  List, [], ◌∷◌, arith,
}
use product_private_paas.Json.{
  Json, Items, Fields, null, bool, num, str, arr, obj, no_items, item, no_fields, field,
}
use product_private_paas.Export.Cleanup.{
  is_helper, length_is_zero, is_dropped, keep_field, keep_item, as_arr, as_obj, traverse,
  traverse_items, traverse_fields,
}

abbrev is_null : Json → Bool
is_null null = true
is_null (bool b) = false
is_null (num n) = false
is_null (str s) = false
is_null (arr vs) = false
is_null (obj fs) = false

abbrev helper_names : List Text
helper_names = codes "id" ∷ codes "parent_id" ∷ codes "dtype" ∷ []

-- Has an object a property `groups` that is null, outside the values of helper properties?
unfoldable mutual
  pub has_null_groups : Json → Bool
  has_null_groups null = false
  has_null_groups (bool b) = false
  has_null_groups (num n) = false
  has_null_groups (str s) = false
  has_null_groups (arr vs) = has_null_groups_items vs
  has_null_groups (obj fs) = has_null_groups_fields fs

  has_null_groups_items : Items → Bool
  has_null_groups_items no_items = false
  has_null_groups_items (item v vs) = has_null_groups v || has_null_groups_items vs

  has_null_groups_fields : Fields → Bool
  has_null_groups_fields no_fields = false
  has_null_groups_fields (field k v fs) =
      (not (mem k helper_names) && (has_null_groups v || (text_eq k (codes "groups") && is_null v)))
      || has_null_groups_fields fs

abbrev pub is_some {ℓ} : {A : Type ℓ} → Option A → Bool
is_some none = false
is_some (some a) = true

is_some-keep_item :
    (v : Option Json) (vs : Option Items) → is_some (keep_item v vs) ≡ (is_some v && is_some vs)
is_some-keep_item none vs = refl
is_some-keep_item (some v) none = refl
is_some-keep_item (some v) (some vs) = refl

is_some-as_arr : (vs : Option Items) → is_some (as_arr vs) ≡ is_some vs
is_some-as_arr none = refl
is_some-as_arr (some vs) = refl

is_some-as_obj : (fs : Option Fields) → is_some (as_obj fs) ≡ is_some fs
is_some-as_obj none = refl
is_some-as_obj (some fs) = refl

-- Is the value of a property read, and not deleted?
abbrev is_kept : Option Bool → Bool
is_kept none = false
is_kept (some b) = not b

is_some-keep_field :
    (o : Option Bool) (k : Text) (v : Option Json) (fs : Option Fields)
    → is_some (keep_field o k v fs) ≡ (is_some o && (not (is_kept o) || is_some v) && is_some fs)
is_some-keep_field none k v fs = refl
is_some-keep_field (some true) k v fs = refl
is_some-keep_field (some false) k none fs = refl
is_some-keep_field (some false) k (some v) none = refl
is_some-keep_field (some false) k (some v) (some fs) = refl

is_some-is_dropped :
    (k : Text) (v : Json)
    → is_some (is_dropped k v)
      ≡ not (not (mem k helper_names) && text_eq k (codes "groups") && is_null v)
unfolding is_dropped is_helper length_is_zero mem
is_some-is_dropped k null = ground arith
is_some-is_dropped k (bool b) = ground arith
is_some-is_dropped k (num n) = ground arith
is_some-is_dropped k (str s) = ground arith
is_some-is_dropped k (arr no_items) = ground arith
is_some-is_dropped k (arr (item v vs)) = ground arith
is_some-is_dropped k (obj fs) = ground arith

-- A value below which something is null is not deleted, unless it is a helper property.
is_kept-is_dropped :
    (k : Text) (v : Json)
    → (not (is_kept (is_dropped k v)) || not (has_null_groups v))
      ≡ (mem k helper_names || (text_eq k (codes "groups") && is_null v) || not (has_null_groups v))
unfolding is_dropped is_helper length_is_zero mem has_null_groups
is_kept-is_dropped k null = ground arith
is_kept-is_dropped k (bool b) = ground arith
is_kept-is_dropped k (num n) = ground arith
is_kept-is_dropped k (str s) = ground arith
is_kept-is_dropped k (arr no_items) = ground arith
is_kept-is_dropped k (arr (item v vs)) = ground arith
is_kept-is_dropped k (obj fs) = ground arith

mutual
  unfolding traverse has_null_groups

  is_some-traverse : (v : Json) → is_some (traverse v) ≡ not (has_null_groups v)
  is_some-traverse null = refl
  is_some-traverse (bool b) = refl
  is_some-traverse (num n) = refl
  is_some-traverse (str s) = refl
  is_some-traverse (arr vs) =
      ground (arith, is_some-as_arr (traverse_items vs), is_some-traverse_items vs)
  is_some-traverse (obj fs) =
      ground (arith, is_some-as_obj (traverse_fields fs), is_some-traverse_fields fs)

  is_some-traverse_items :
      (vs : Items) → is_some (traverse_items vs) ≡ not (has_null_groups_items vs)
  is_some-traverse_items no_items = refl
  is_some-traverse_items (item v vs) = ground (
    arith,
    is_some-keep_item (traverse v) (traverse_items vs),
    is_some-traverse v,
    is_some-traverse_items vs,
  )

  is_some-traverse_fields :
      (fs : Fields) → is_some (traverse_fields fs) ≡ not (has_null_groups_fields fs)
  is_some-traverse_fields no_fields = refl
  is_some-traverse_fields (field k v fs) = ground (
    arith,
    is_some-keep_field (is_dropped k v) k (traverse v) (traverse_fields fs),
    is_some-traverse v,
    is_some-traverse_fields fs,
    is_some-is_dropped k v,
    is_kept-is_dropped k v,
  )

-- The clean-up throws for exactly the documents in which some object, outside the values of helper
-- properties, has a property `groups` that is null; from every other document it returns.
pub traverse_returns : (v : Json) → is_some (traverse v) ≡ not (has_null_groups v)
traverse_returns v = is_some-traverse v
