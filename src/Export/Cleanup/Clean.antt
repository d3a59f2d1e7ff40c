-- ===== src/Export/Cleanup/Clean.antt =====
-- What is left of a document after `traverse`.
use product_private_paas.Common.{
  Text, codes, text_eq, mem, List, [], ◌∷◌, ◌≡◌, refl, Bool, true, false, ◌&&◌, not, none, some,
  arith, Option-cases, inl, inr,
}
use product_private_paas.Export.Cleanup.{
  is_helper, length_is_zero, is_dropped, keep_field, keep_item, as_arr, as_obj, traverse,
  traverse_items, traverse_fields,
}
use product_private_paas.Json.{
  Json, Items, Fields, null, bool, num, str, arr, obj, no_items, item, no_fields, field,
}

-- An empty list or text, or null.
unfoldable is_blank : Json → Bool
is_blank null = true
is_blank (arr no_items) = true
is_blank (arr (item v vs)) = false
is_blank (str s) = text_eq s []
is_blank (bool b) = false
is_blank (num n) = false
is_blank (obj fs) = false

abbrev helper_names : List Text
helper_names = codes "id" ∷ codes "parent_id" ∷ codes "dtype" ∷ []

-- May an object of the finished document have the property?
unfoldable may_stay : Text → Json → Bool
unfolding is_blank
may_stay k v = not (mem k helper_names) && not (text_eq k (codes "groups") && is_blank v)

-- No object at any depth has a property that may not stay.
unfoldable mutual
  unfolding may_stay

  pub is_clean : Json → Bool
  is_clean null = true
  is_clean (bool b) = true
  is_clean (num n) = true
  is_clean (str s) = true
  is_clean (arr vs) = is_clean_items vs
  is_clean (obj fs) = is_clean_fields fs

  is_clean_items : Items → Bool
  is_clean_items no_items = true
  is_clean_items (item v vs) = is_clean v && is_clean_items vs

  is_clean_fields : Fields → Bool
  is_clean_fields no_fields = true
  is_clean_fields (field k v fs) = may_stay k v && is_clean v && is_clean_fields fs

may_stay-is_dropped :
    (k : Text) (v : Json) → may_stay k v ≡ (elim (is_dropped k v) [ none ↦ false | some b ↦ not b ])
unfolding may_stay is_blank mem is_dropped is_helper length_is_zero
may_stay-is_dropped k null = ground arith
may_stay-is_dropped k (bool b) = ground arith
may_stay-is_dropped k (num n) = ground arith
may_stay-is_dropped k (str s) = ground arith
may_stay-is_dropped k (arr no_items) = ground arith
may_stay-is_dropped k (arr (item v vs)) = ground arith
may_stay-is_dropped k (obj fs) = ground arith

-- Traversal does not change whether a property would be deleted.
is_dropped-traverse :
    (k : Text) (v w : Json) → traverse v ≡ some w → is_dropped k w ≡ is_dropped k v
unfolding is_dropped traverse
is_dropped-traverse k null w h = ground arith
is_dropped-traverse k (bool b) w h = ground arith
is_dropped-traverse k (num n) w h = ground arith
is_dropped-traverse k (str s) w h = ground arith
is_dropped-traverse k (arr no_items) w h = ground arith
is_dropped-traverse k (arr (item v vs)) w h = ground arith
is_dropped-traverse k (obj fs) w h = ground arith

arr_clean :
    (vs : Items) (w : Json)
    → ((ws : Items) → traverse_items vs ≡ some ws → is_clean_items ws ≡ true)
    → as_arr (traverse_items vs) ≡ some w
    → is_clean w ≡ true
unfolding is_clean
arr_clean vs w rec h = elim (Option-cases (traverse_items vs)) [
  | inl e ↦ ground (arith, e)
  | inr (ws, e) ↦ ground (arith, e, rec ws e)
]

obj_clean :
    (fs : Fields) (w : Json)
    → ((gs : Fields) → traverse_fields fs ≡ some gs → is_clean_fields gs ≡ true)
    → as_obj (traverse_fields fs) ≡ some w
    → is_clean w ≡ true
unfolding is_clean
obj_clean fs w rec h = elim (Option-cases (traverse_fields fs)) [
  | inl e ↦ ground (arith, e)
  | inr (gs, e) ↦ ground (arith, e, rec gs e)
]

item_clean :
    (v : Json) (vs ws : Items)
    → ((w : Json) → traverse v ≡ some w → is_clean w ≡ true)
    → ((us : Items) → traverse_items vs ≡ some us → is_clean_items us ≡ true)
    → keep_item (traverse v) (traverse_items vs) ≡ some ws
    → is_clean_items ws ≡ true
unfolding is_clean
item_clean v vs ws rec recs h = elim (Option-cases (traverse v)) [
  | inl e ↦ ground (arith, e)
  | inr (w, e) ↦ elim (Option-cases (traverse_items vs)) [
    | inl f ↦ ground (arith, e, f)
    | inr (us, f) ↦ ground (arith, e, f, rec w e, recs us f)
  ]
]

field_clean :
    (k : Text) (v : Json) (fs gs : Fields)
    → ((w : Json) → traverse v ≡ some w → is_clean w ≡ true)
    → ((us : Fields) → traverse_fields fs ≡ some us → is_clean_fields us ≡ true)
    → keep_field (is_dropped k v) k (traverse v) (traverse_fields fs) ≡ some gs
    → is_clean_fields gs ≡ true
unfolding is_clean
field_clean k v fs gs rec recs h = elim (Option-cases (is_dropped k v)) [
  | inl e ↦ ground (arith, e)
  | inr (true, e) ↦ recs gs (ground (arith, e))
  | inr (false, e) ↦ elim (Option-cases (traverse v)) [
    | inl f ↦ ground (arith, e, f)
    | inr (w, f) ↦ elim (Option-cases (traverse_fields fs)) [
      | inl g ↦ ground (arith, e, f, g)
      | inr (us, g) ↦
          ground (
            arith,
            e,
            f,
            g,
            rec w f,
            recs us g,
            is_dropped-traverse k v w f,
            may_stay-is_dropped k w,
          )
    ]
  ]
]

mutual
  unfolding traverse is_clean

  traverse-clean : (v w : Json) → traverse v ≡ some w → is_clean w ≡ true
  traverse-clean null w h = ground arith
  traverse-clean (bool b) w h = ground arith
  traverse-clean (num n) w h = ground arith
  traverse-clean (str s) w h = ground arith
  traverse-clean (arr vs) w h = arr_clean vs w (traverse_items-clean vs) h
  traverse-clean (obj fs) w h = obj_clean fs w (traverse_fields-clean fs) h

  traverse_items-clean : (vs ws : Items) → traverse_items vs ≡ some ws → is_clean_items ws ≡ true
  traverse_items-clean no_items ws h = ground arith
  traverse_items-clean (item v vs) ws h =
      item_clean v vs ws (traverse-clean v) (traverse_items-clean vs) h

  traverse_fields-clean :
      (fs gs : Fields) → traverse_fields fs ≡ some gs → is_clean_fields gs ≡ true
  traverse_fields-clean no_fields gs h = ground arith
  traverse_fields-clean (field k v fs) gs h =
      field_clean k v fs gs (traverse-clean v) (traverse_fields-clean fs) h

mutual
  unfolding traverse is_clean

  traverse-eq_of_clean : (v : Json) → is_clean v ≡ true → traverse v ≡ some v
  traverse-eq_of_clean null h = refl
  traverse-eq_of_clean (bool b) h = refl
  traverse-eq_of_clean (num n) h = refl
  traverse-eq_of_clean (str s) h = refl
  traverse-eq_of_clean (arr vs) h = ground (arith, traverse_items-eq_of_clean vs)
  traverse-eq_of_clean (obj fs) h = ground (arith, traverse_fields-eq_of_clean fs)

  traverse_items-eq_of_clean : (vs : Items) → is_clean_items vs ≡ true → traverse_items vs ≡ some vs
  traverse_items-eq_of_clean no_items h = refl
  traverse_items-eq_of_clean (item v vs) h =
      ground (arith, traverse-eq_of_clean v, traverse_items-eq_of_clean vs)

  traverse_fields-eq_of_clean :
      (fs : Fields) → is_clean_fields fs ≡ true → traverse_fields fs ≡ some fs
  traverse_fields-eq_of_clean no_fields h = refl
  traverse_fields-eq_of_clean (field k v fs) h =
      ground
        (arith, traverse-eq_of_clean v, traverse_fields-eq_of_clean fs, may_stay-is_dropped k v)

-- Whatever document `traverse` returns from, no object in it has a property `id`, `parent_id` or
-- `dtype`, or a `groups` that is empty or null, any more, and a second traversal would change nothing.
pub traverse_cleans :
    (v w : Json) → traverse v ≡ some w → (is_clean w ≡ true) × (traverse w ≡ some w)
traverse_cleans v w h = let clean = traverse-clean v w h in (clean, traverse-eq_of_clean w clean)
