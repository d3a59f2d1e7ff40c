-- ===== src/Renderers/Errors.antt =====
-- What all renderers do with `data.error`.
use product_private_paas.Common.{
  codes, ◌≡◌, refl, sym, ap, ◌∙◌, Bool, true, false, not, Option, none, some, if◌then◌else◌,
}
use product_private_paas.Json.{
  Json, Fields, null, bool, num, str, arr, obj, no_items, item, get_field,
}
use product_private_paas.Export.{Result, ok, throw, ◌>>=◌}
use product_private_paas.Export.Cleanup.{length_is_zero}
use product_private_paas.Renderers.{Page, choose, has_length_zero, has_no_error, index_error}
use product_private_paas.Renderers.Applications.{applications_form}
use product_private_paas.Renderers.Configure.{configure_form, users_form}
use product_private_paas.Renderers.Menus.{
  index, configure, applications, users, wizard, login, login_error,
}

pub data Renderer : Type 0 where
  index_js applications_js configure_js users_js wizard_js login_js : Renderer
  applications_form_js configure_form_js users_form_js : Renderer

-- `render` of the file.
unfoldable pub render : Renderer → Fields → Result Page
unfolding index applications configure users wizard login applications_form configure_form
    users_form
render index_js d = index d
render applications_js d = applications d
render configure_js d = configure d
render users_js d = users d
render wizard_js d = wizard d
render login_js d = login d
render applications_form_js d = applications_form d
render configure_form_js d = configure_form d
render users_form_js d = users_form d

abbrev pub is_null : Json → Bool
is_null null = true
is_null (bool b) = false
is_null (num n) = false
is_null (str s) = false
is_null (arr vs) = false
is_null (obj fs) = false

abbrev pub is_ok {ℓ} : {A : Type ℓ} → Result A → Bool
is_ok (ok a) = true
is_ok (throw e) = false

-- Is there an error value to read a length from?
abbrev pub is_readable : Option Json → Bool
is_readable none = false
is_readable (some e) = not (is_null e)

has_length_zero-is_readable : (e : Option Json) → is_ok (has_length_zero e) ≡ is_readable e
unfolding has_length_zero length_is_zero
has_length_zero-is_readable none = refl
has_length_zero-is_readable (some null) = refl
has_length_zero-is_readable (some (bool b)) = refl
has_length_zero-is_readable (some (num n)) = refl
has_length_zero-is_readable (some (str s)) = refl
has_length_zero-is_readable (some (arr no_items)) = refl
has_length_zero-is_readable (some (arr (item v vs))) = refl
has_length_zero-is_readable (some (obj fs)) = refl

is_ok->>= :
    (m : Result Bool) (good bad : Page) → is_ok (m >>= λ b. ok (if b then good else bad)) ≡ is_ok m
is_ok->>= (ok b) good bad = refl
is_ok->>= (throw e) good bad = refl

choose_returns :
    (d : Fields) (good bad : Page)
    → is_ok (choose d good bad) ≡ is_readable (get_field (codes "error") d)
unfolding has_no_error
choose_returns d good bad =
    is_ok->>= (has_length_zero (get_field (codes "error") d)) good bad
    ∙ has_length_zero-is_readable (get_field (codes "error") d)

-- Every renderer returns a page for exactly the data with an `error` that is not null, whatever else
-- the data holds, and throws for all other data.
pub render_returns :
    (r : Renderer) (d : Fields) → is_ok (render r d) ≡ is_readable (get_field (codes "error") d)
unfolding render index applications configure users wizard login applications_form configure_form
    users_form
render_returns index_js d = choose_returns d _ _
render_returns applications_js d = choose_returns d _ _
render_returns configure_js d = choose_returns d _ _
render_returns users_js d = choose_returns d _ _
render_returns wizard_js d = choose_returns d _ _
render_returns login_js d = choose_returns d _ _
render_returns applications_form_js d = choose_returns d _ _
render_returns configure_form_js d = choose_returns d _ _
render_returns users_form_js d = choose_returns d _ _

choose-error :
    (d d' : Fields) (good good' bad bad' : Page)
    → get_field (codes "error") d ≡ get_field (codes "error") d'
    → has_no_error d ≡ ok false
    → bad ≡ bad'
    → choose d good bad ≡ choose d' good' bad'
unfolding has_no_error
choose-error d d' good good' bad bad' e h same =
    let h' = ap has_length_zero (sym e) ∙ h in rw (h, h') (ap ok same)

index_error-eq :
    (d d' : Fields)
    → get_field (codes "error") d ≡ get_field (codes "error") d'
    → index_error d ≡ index_error d'
unfolding index_error
index_error-eq d d' e = cc e

login_error-eq :
    (d d' : Fields)
    → get_field (codes "error") d ≡ get_field (codes "error") d'
    → login_error d ≡ login_error d'
unfolding login_error
login_error-eq d d' e = cc e

-- With an error, every renderer shows the same page for all data that have this error: nothing else of
-- the data gets on the page.
pub render_hides :
    (r : Renderer) (d d' : Fields)
    → get_field (codes "error") d ≡ get_field (codes "error") d'
    → has_no_error d ≡ ok false
    → render r d ≡ render r d'
unfolding render index applications configure users wizard login applications_form configure_form
    users_form
render_hides index_js d d' e h = choose-error d d' _ _ _ _ e h (index_error-eq d d' e)
render_hides applications_js d d' e h = choose-error d d' _ _ _ _ e h (index_error-eq d d' e)
render_hides configure_js d d' e h = choose-error d d' _ _ _ _ e h (index_error-eq d d' e)
render_hides users_js d d' e h = choose-error d d' _ _ _ _ e h (index_error-eq d d' e)
render_hides wizard_js d d' e h = choose-error d d' _ _ _ _ e h (index_error-eq d d' e)
render_hides login_js d d' e h = choose-error d d' _ _ _ _ e h (login_error-eq d d' e)
render_hides applications_form_js d d' e h = choose-error d d' _ _ _ _ e h (index_error-eq d d' e)
render_hides configure_form_js d d' e h = choose-error d d' _ _ _ _ e h (index_error-eq d d' e)
render_hides users_form_js d d' e h = choose-error d d' _ _ _ _ e h (index_error-eq d d' e)
