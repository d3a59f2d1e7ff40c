-- ===== src/Export/Cleanup/Partial.antt =====
-- What the clean-up leaves of a document when it throws on its way.
use product_private_paas.Common.{
  Text, text_eq, ◌≡◌, refl, Bool, true, false, Option, none, some, arith, inl, inr, Bool-cases,
}
use product_private_paas.Json.{
  Json, Items, Fields, null, bool, num, str, arr, obj, no_items, item, no_fields, field, get_field,
}
use product_private_paas.Export.Cleanup.{traverse, is_dropped}

-- A property: deleted, thrown at, thrown at inside, or cleaned; `inside` is what is left of the value and
-- `rest` of the properties after it.
abbrev pub step_field : Option Bool → Text → Json → Option Json → Json → Fields → Fields → Fields
step_field none k v cleaned inside after rest = field k v after
step_field (some true) k v cleaned inside after rest = rest
step_field (some false) k v none inside after rest = field k inside after
step_field (some false) k v (some w) inside after rest = field k w rest

abbrev pub step_item : Json → Option Json → Items → Items → Items
step_item inside none after rest = item inside after
step_item inside (some w) after rest = item w rest

unfoldable mutual
  unfolding traverse is_dropped

  pub left_of : Json → Json
  left_of null = null
  left_of (bool b) = bool b
  left_of (num n) = num n
  left_of (str s) = str s
  left_of (arr vs) = arr (left_of_items vs)
  left_of (obj fs) = obj (left_of_fields fs)

  pub left_of_items : Items → Items
  left_of_items no_items = no_items
  left_of_items (item v vs) = step_item (left_of v) (traverse v) vs (left_of_items vs)

  pub left_of_fields : Fields → Fields
  left_of_fields no_fields = no_fields
  left_of_fields (field k v fs) =
      step_field (is_dropped k v) k v (traverse v) (left_of v) fs (left_of_fields fs)

step_field_absent :
    (j k : Text) (d : Option Bool) (v inside : Json) (cleaned : Option Json) (after rest : Fields)
    → text_eq j k ≡ false
    → get_field j after ≡ none
    → get_field j rest ≡ none
    → get_field j (step_field d k v cleaned inside after rest) ≡ none
unfolding get_field
step_field_absent j k none v inside cleaned after rest n a r = ground (arith, n, a)
step_field_absent j k (some true) v inside cleaned after rest n a r = r
step_field_absent j k (some false) v inside none after rest n a r = ground (arith, n, a)
step_field_absent j k (some false) v inside (some w) after rest n a r = ground (arith, n, r)

-- A property that is not there does not come.
pub left_of_fields_absent :
    (j : Text) (fs : Fields) → get_field j fs ≡ none → get_field j (left_of_fields fs) ≡ none
unfolding left_of_fields get_field
left_of_fields_absent j no_fields h = refl
left_of_fields_absent j (field k v fs) h = elim (Bool-cases (text_eq j k)) [
  | inl e ↦ absurd (ground (arith, e, h))
  | inr e ↦
      let after : get_field j fs ≡ none = ground (arith, e, h) in
      unfold_step e after (left_of_fields_absent j fs after)
]
  where
    unfold_step :
        text_eq j k ≡ false
        → get_field j fs ≡ none
        → get_field j (left_of_fields fs) ≡ none
        → get_field j
            (step_field (is_dropped k v) k v (traverse v) (left_of v) fs (left_of_fields fs))
          ≡ none
    unfold_step e a r =
        step_field_absent j k (is_dropped k v) v (left_of v) (traverse v) fs (left_of_fields fs) e a
          r
