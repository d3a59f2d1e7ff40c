-- ===== src/Objects.antt =====
-- A JavaScript object used as a dictionary: `o[k]`, `o[k] = v` and `delete o[k]`. The entries stand
-- in insertion order, which `for (k in o)` follows; a write to a present key keeps its place.
pub mod Index
use product_private_paas.Common.{
  Text, text_eq, text_eq_iff, text_eq_refl, ◌≡◌, refl, Option, none, some, List, [], ◌∷◌, arith,
  if◌then◌else◌,
}

abbrev pub Object {ℓ} : Type ℓ → Type ℓ
Object V = List (Text × V)

module _ {ℓ} {V : Type ℓ} where
  unfoldable pub get_key : Text → Object V → Option V
  get_key k [] = none
  get_key k ((j, v) ∷ o) = if text_eq k j then some v else get_key k o

  unfoldable pub put_key : Text → V → Object V → Object V
  put_key k v [] = (k, v) ∷ []
  put_key k v ((j, w) ∷ o) = if text_eq k j then (j, v) ∷ o else (j, w) ∷ put_key k v o

  unfoldable pub delete_key : Text → Object V → Object V
  delete_key k [] = []
  delete_key k ((j, w) ∷ o) =
      let rest = delete_key k o in if text_eq k j then rest else (j, w) ∷ rest

  pub get_key-put_key :
      (k j : Text) (v : V) (o : Object V)
      → get_key j (put_key k v o) ≡ (if text_eq j k then some v else get_key j o)
  unfolding get_key put_key
  get_key-put_key k j v [] = refl
  get_key-put_key k j v ((i, w) ∷ o) =
      ground (arith, text_eq_iff k i, text_eq_iff j i, text_eq_iff j k, get_key-put_key k j v o)

  pub get_key-delete_key :
      (k j : Text) (o : Object V)
      → get_key j (delete_key k o) ≡ (if text_eq j k then none else get_key j o)
  unfolding get_key delete_key
  get_key-delete_key k j [] = ground arith
  get_key-delete_key k j ((i, w) ∷ o) =
      ground (arith, text_eq_iff k i, text_eq_iff j i, text_eq_iff j k, get_key-delete_key k j o)
