-- ===== src/Export/Cleanup.antt =====
-- `traverse` of the two exporters: it takes the helper properties out of the document again.
pub mod Clean
pub mod Returns
pub mod Gets
pub mod Partial
use product_private_paas.Common.{
  ℕ, Text, codes, text_eq, text_eq_iff, ◌≡◌, refl, Bool, true, false, ◌&&◌, ◌||◌, not, Option, none,
  some, arith, Option-cases, inl, inr, if◌then◌else◌,
}
use product_private_paas.Json.{
  Json, Items, Fields, null, bool, num, str, arr, obj, no_items, item, no_fields, field,
}

-- `i == 'id' || i == 'parent_id' || i == 'dtype'`
unfoldable pub is_helper : Text → Bool
is_helper k = text_eq k (codes "id") || text_eq k (codes "parent_id") || text_eq k (codes "dtype")

-- `o[i].length == 0`, for the property `groups`; `none` is the throw of a read from `null`. An object
-- under `groups` is taken to have no property `length`.
unfoldable pub length_is_zero : Json → Option Bool
length_is_zero null = none
length_is_zero (arr no_items) = some true
length_is_zero (arr (item v vs)) = some false
length_is_zero (str s) = some (text_eq s (codes ""))
length_is_zero (bool b) = some false
length_is_zero (num n) = some false
length_is_zero (obj fs) = some false

-- Is the property deleted?
unfoldable pub is_dropped : Text → Json → Option Bool
unfolding is_helper length_is_zero
is_dropped k v =
    if is_helper k
    then some true
    else if text_eq k (codes "groups")
    then length_is_zero v
    else some false

abbrev pub keep_field : Option Bool → Text → Option Json → Option Fields → Option Fields
keep_field none k v fs = none
keep_field (some true) k v fs = fs
keep_field (some false) k none fs = none
keep_field (some false) k (some v) none = none
keep_field (some false) k (some v) (some fs) = some (field k v fs)

abbrev keep_item : Option Json → Option Items → Option Items
keep_item none vs = none
keep_item (some v) none = none
keep_item (some v) (some vs) = some (item v vs)

abbrev as_arr : Option Items → Option Json
as_arr none = none
as_arr (some vs) = some (arr vs)

abbrev as_obj : Option Fields → Option Json
as_obj none = none
as_obj (some fs) = some (obj fs)

-- What is left of a value; a deleted property is not gone into. `none` is a throw.
unfoldable mutual
  unfolding is_dropped

  pub traverse : Json → Option Json
  traverse null = some null
  traverse (bool b) = some (bool b)
  traverse (num n) = some (num n)
  traverse (str s) = some (str s)
  traverse (arr vs) = as_arr (traverse_items vs)
  traverse (obj fs) = as_obj (traverse_fields fs)

  pub traverse_items : Items → Option Items
  traverse_items no_items = some no_items
  traverse_items (item v vs) = keep_item (traverse v) (traverse_items vs)

  pub traverse_fields : Fields → Option Fields
  traverse_fields no_fields = some no_fields
  traverse_fields (field k v fs) = keep_field (is_dropped k v) k (traverse v) (traverse_fields fs)
