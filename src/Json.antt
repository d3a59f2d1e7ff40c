-- ===== src/Json.antt =====
-- JSON values, and the writes and deletions of a property that the exporters make.
pub mod Laws
use product_private_paas.Common.{ℕ, Text, text_eq, Bool, Option, none, some, if◌then◌else◌}

mutual
  pub data Json : Type 0 where
    null : Json
    bool : Bool → Json
    num : ℕ → Json
    str : Text → Json
    arr : Items → Json
    obj : Fields → Json

  pub data Items : Type 0 where
    no_items : Items
    item : Json → Items → Items

  pub data Fields : Type 0 where
    no_fields : Fields
    field : Text → Json → Fields → Fields

unfoldable pub get_field : Text → Fields → Option Json
get_field k no_fields = none
get_field k (field j v fs) = if text_eq k j then some v else get_field k fs

-- `o[k] = v`: a property that is there keeps its place.
unfoldable pub put_field : Text → Json → Fields → Fields
put_field k v no_fields = field k v no_fields
put_field k v (field j w fs) = if text_eq k j then field j v fs else field j w (put_field k v fs)

-- `delete o[k]`
unfoldable pub delete_field : Text → Fields → Fields
delete_field k no_fields = no_fields
delete_field k (field j w fs) =
    let rest = delete_field k fs in if text_eq k j then rest else field j w rest
