-- ===== src/Export/Cleanup/Gets.antt =====
-- What the clean-up leaves of single properties.
use product_private_paas.Common.{
  Text, text_eq, text_eq_iff, ◌≡◌, refl, sym, ap, ◌∙◌, Bool, true, false, Option, none, some, arith,
  Bool-cases, inl, inr, ◌⊎◌,
}
use product_private_paas.Json.{Json, Fields, no_fields, field, get_field}
use product_private_paas.Export.Cleanup.{traverse, traverse_fields, is_dropped, keep_field}

-- The ways in which the clean-up of a property and the rest returns.
kept_cases :
    (d : Option Bool) (k : Text) (v : Option Json) (fs : Option Fields) (gs : Fields)
    → keep_field d k v fs ≡ some gs
    → ((d ≡ some true) × (fs ≡ some gs))
      ⊎ ((w : Json) × (hs : Fields) × (d ≡ some false)
          × (v ≡ some w)
          × (fs ≡ some hs)
          × (field k w hs ≡ gs))
kept_cases none k v fs gs h = cc h
kept_cases (some true) k v fs gs h = inl (refl, h)
kept_cases (some false) k none fs gs h = cc h
kept_cases (some false) k (some w) none gs h = cc h
kept_cases (some false) k (some w) (some hs) gs h = inr (w, hs, refl, refl, refl, cc h)

-- A property that is not there does not come.
pub traverse_fields_absent :
    (k : Text) (fs gs : Fields)
    → traverse_fields fs ≡ some gs
    → get_field k fs ≡ none
    → get_field k gs ≡ none
unfolding traverse_fields get_field
traverse_fields_absent k no_fields gs t h =
    let same : no_fields ≡ gs = cc t in ap (get_field k) (sym same)
traverse_fields_absent k (field j v fs) gs t h =
    elim (kept_cases (is_dropped j v) j (traverse v) (traverse_fields fs) gs t) [
      | inl (d, rest) ↦ traverse_fields_absent k fs gs rest (ground (arith, h))
      | inr (w, hs, d, u, rest, same) ↦
          ap (get_field k) (sym same)
          ∙ ground (arith, h, traverse_fields_absent k fs hs rest (ground (arith, h)))
    ]

-- A property whose name is neither a helper's nor `groups` is cleaned in its place.
pub traverse_fields_present :
    (k : Text) (v : Json) (fs gs : Fields)
    → ((w : Json) → is_dropped k w ≡ some false)
    → traverse_fields fs ≡ some gs
    → get_field k fs ≡ some v
    → (w : Json) × (traverse v ≡ some w) × (get_field k gs ≡ some w)
unfolding traverse_fields get_field
traverse_fields_present k v no_fields gs stays t h = cc h
traverse_fields_present k v (field j u fs) gs stays t h =
    elim (kept_cases (is_dropped j u) j (traverse u) (traverse_fields fs) gs t) [
      | inl (d, rest) ↦ elim (Bool-cases (text_eq k j)) [
        | inl e ↦ cc (stays u, ap (λ i. is_dropped i u) ((text_eq_iff k j).0 e), d)
        | inr e ↦ traverse_fields_present k v fs gs stays rest (ground (arith, e, h))
      ]
      | inr (w, hs, d, x, rest, same) ↦ elim (Bool-cases (text_eq k j)) [
        | inl e ↦
            let here : v ≡ u = ground (arith, e, h) in
            (w, ap traverse here ∙ x, ap (get_field k) (sym same) ∙ ground (arith, e))
        | inr e ↦
            let (y, cleaned, at_k) =
              traverse_fields_present k v fs hs stays rest (ground (arith, e, h)) in
            (y, cleaned, ap (get_field k) (sym same) ∙ ground (arith, e, at_k))
      ]
    ]
