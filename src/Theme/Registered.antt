-- ===== src/Theme/Registered.antt =====
-- The partials that the pages name, and those that are registered.
use product_private_paas.Common.{
  Text, codes, text_eq, mem, ◌≡◌, refl, sym, ap, ◌∙◌, Bool, true, false, List, [], ◌∷◌, ◌&&◌,
  if◌then◌else◌,
}
use product_private_paas.Json.{Fields}
use product_private_paas.Objects.{Object}
use product_private_paas.Export.{Result, ok, throw, ◌>>=◌}
use product_private_paas.Renderers.{Partial, Page, choose, has_no_error, index_error, is_hbs}
use product_private_paas.Renderers.Applications.{
  applications_form, application_page, application_view, application_topology, application_deploy,
  application_editor, application_signup, application_default,
}
use product_private_paas.Renderers.Configure.{
  configure_form, users_form, group_editor_page, configure_page,
}
use product_private_paas.Renderers.Errors.{
  Renderer, render, index_js, applications_js, configure_js, users_js, wizard_js, login_js,
  applications_form_js, configure_form_js, users_form_js,
}
use product_private_paas.Renderers.Menus.{
  index, configure, applications, users, wizard, login, login_error,
}

-- The files of the folder partials, without their ending.
abbrev pub partial_files : List Text
partial_files =
    codes "applications"
    ∷ codes "applications_deploy"
    ∷ codes "applications_editor"
    ∷ codes "applications_form"
    ∷ codes "applications_group_editor"
    ∷ codes "applications_signup"
    ∷ codes "applications_topology"
    ∷ codes "applications_view"
    ∷ codes "configure_form"
    ∷ codes "error_page"
    ∷ codes "index_header"
    ∷ codes "index_left_menu"
    ∷ codes "index_right_menu_help"
    ∷ codes "index_right_menu_log"
    ∷ codes "index_sub_header"
    ∷ codes "index_title"
    ∷ codes "login_body"
    ∷ codes "login_header"
    ∷ codes "metro_menu"
    ∷ codes "users_form"
    ∷ codes "wizard"
    ∷ []

unfoldable pub names_in : List Partial → List Text → Bool
names_in [] ns = true
names_in (p ∷ ps) ns = mem p.partial ns && names_in ps ns

-- Does the list hold the names of all partials of the page?
unfoldable pub areas_in : Object (List Partial) → List Text → Bool
unfolding names_in
areas_in [] ns = true
areas_in ((k, ps) ∷ rest) ns = names_in ps ns && areas_in rest ns

unfoldable pub is_in : Page → Bool
unfolding areas_in
is_in p = areas_in p.areas partial_files

in-if :
    (b : Bool) (p q : Page) → is_in p ≡ true → is_in q ≡ true → is_in (if b then p else q) ≡ true
in-if true p q h k = h
in-if false p q h k = k

in-bind :
    (m : Result Bool) (good bad page : Page)
    → is_in good ≡ true
    → is_in bad ≡ true
    → (m >>= λ b. ok (if b then good else bad)) ≡ ok page
    → is_in page ≡ true
in-bind (ok b) good bad page g k h =
    let same : (if b then good else bad) ≡ page = cc h in sym (ap is_in same) ∙ in-if b good bad g k
in-bind (throw e) good bad page g k h = cc h

in-choose :
    (d : Fields) (good bad page : Page)
    → choose d good bad ≡ ok page
    → is_in good ≡ true
    → is_in bad ≡ true
    → is_in page ≡ true
in-choose d good bad page h g k = in-bind (has_no_error d) good bad page g k h

in-index_error : (d : Fields) → is_in (index_error d) ≡ true
unfolding is_in areas_in mem text_eq index_error
in-index_error d = refl

in-application_view : (d : Fields) → is_in (application_view d) ≡ true
unfolding is_in areas_in mem text_eq application_view
in-application_view d = refl

in-application_topology : (d : Fields) → is_in (application_topology d) ≡ true
unfolding is_in areas_in mem text_eq application_topology
in-application_topology d = refl

in-application_deploy : (d : Fields) → is_in (application_deploy d) ≡ true
unfolding is_in areas_in mem text_eq application_deploy
in-application_deploy d = refl

in-application_editor : (d : Fields) → is_in (application_editor d) ≡ true
unfolding is_in areas_in mem text_eq application_editor
in-application_editor d = refl

in-application_signup : (d : Fields) → is_in (application_signup d) ≡ true
unfolding is_in areas_in mem text_eq application_signup
in-application_signup d = refl

in-application_default : (d : Fields) → is_in (application_default d) ≡ true
unfolding is_in areas_in mem text_eq application_default
in-application_default d = refl

in-application_page : (d : Fields) → is_in (application_page d) ≡ true
in-application_page d =
    unfold application_page in
    in-if (is_hbs (codes "applicationView") d) (application_view d) _ (in-application_view d) (
      in-if (is_hbs (codes "applicationTopology") d) (application_topology d) _
        (in-application_topology d)
        (in-if (is_hbs (codes "applicationDeploy") d) (application_deploy d) _
          (in-application_deploy d)
          (in-if (is_hbs (codes "applicationEditor") d) (application_editor d) _
            (in-application_editor d)
            (in-if (is_hbs (codes "applicationSignup") d) (application_signup d)
              (application_default d) (in-application_signup d) (in-application_default d)))))

in-group_editor_page : (d : Fields) → is_in (group_editor_page d) ≡ true
unfolding is_in areas_in mem text_eq group_editor_page
in-group_editor_page d = refl

in-configure_page : (d : Fields) → is_in (configure_page d) ≡ true
unfolding is_in areas_in mem text_eq configure_page
in-configure_page d = refl

-- Whatever the data are, every partial of a page that a renderer returns is a file of the theme.
pub in-render : (r : Renderer) (d : Fields) (p : Page) → render r d ≡ ok p → is_in p ≡ true
unfolding is_in areas_in mem text_eq render index applications configure users wizard login
    login_error applications_form configure_form users_form
in-render index_js d p h = in-choose d _ _ p h refl (in-index_error d)
in-render applications_js d p h = in-choose d _ _ p h refl (in-index_error d)
in-render configure_js d p h = in-choose d _ _ p h refl (in-index_error d)
in-render users_js d p h = in-choose d _ _ p h refl (in-index_error d)
in-render wizard_js d p h = in-choose d _ _ p h refl (in-index_error d)
in-render login_js d p h = in-choose d _ _ p h refl refl
in-render applications_form_js d p h =
    in-choose d _ _ p h (in-application_page d) (in-index_error d)
in-render configure_form_js d p h =
    in-choose d _ _ p h
      (in-if (is_hbs (codes "applicationsGroupEditor") d) (group_editor_page d) (configure_page d)
        (in-group_editor_page d) (in-configure_page d))
      (in-index_error d)
in-render users_form_js d p h = in-choose d _ _ p h refl (in-index_error d)
