-- ===== src/Json/Laws.antt =====
-- Reading a property after a write or a delete.
use product_private_paas.Common.{Text, text_eq, text_eq_iff, ◌≡◌, none, some, arith, if◌then◌else◌}
use product_private_paas.Json.{Json, Fields, no_fields, field, get_field, put_field, delete_field}

pub get_field-put_field :
    (k j : Text) (v : Json) (fs : Fields)
    → get_field k (put_field j v fs) ≡ (if text_eq k j then some v else get_field k fs)
unfolding get_field put_field
get_field-put_field k j v no_fields = ground arith
get_field-put_field k j v (field i w fs) =
    ground (arith, text_eq_iff j i, text_eq_iff k i, text_eq_iff k j, get_field-put_field k j v fs)

pub get_field-delete_field :
    (k j : Text) (fs : Fields)
    → get_field k (delete_field j fs) ≡ (if text_eq k j then none else get_field k fs)
unfolding get_field delete_field
get_field-delete_field k j no_fields = ground arith
get_field-delete_field k j (field i w fs) =
    ground (arith, text_eq_iff j i, text_eq_iff k i, text_eq_iff k j, get_field-delete_field k j fs)
