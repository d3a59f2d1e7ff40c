-- ===== src/Theme/Tests.antt =====
-- Tests of theme.js.
use product_private_paas.Common.{
  Text, codes, text_eq, ◌≡◌, refl, true, false, none, some, List, [], ◌∷◌, ◌++◌, if◌then◌else◌,
}
use product_private_paas.Json.{Fields, no_fields, field, arr, no_items, get_field}
use product_private_paas.Objects.{get_key, put_key}
use product_private_paas.Export.{ok}
use product_private_paas.Export.Cleanup.{length_is_zero}
use product_private_paas.Renderers.{
  Page, page_meta, area, content, text, has_no_error, has_length_zero,
}
use product_private_paas.Renderers.Menus.{login}
use product_private_paas.Renderers.Errors.{render, login_js}
use product_private_paas.Theme.{
  FileTree, FileTrees, file, directory, no_files, add_file, is_hbs_file, register, partials,
  Session, is_super_tenant, is_allowed, user, domain,
}
use product_private_paas.Theme.Registered.{partial_files, areas_in}
use product_private_paas.Theme.Registry.{
  has_file, has_files, keys, or_else, own_partials, partials_registered,
}

abbrev parent_theme : FileTree
parent_theme = directory (codes "partials") (
    add_file (file (codes "wizard.hbs") (codes "parent")) (
      add_file
        (directory (codes "menu") (
          add_file (file (codes "main.hbs") (codes "menu"))
            (add_file (file (codes "notes.txt") (codes "notes")) no_files)))
        no_files))

abbrev own_theme : FileTree
own_theme =
    directory (codes "partials") (add_file (file (codes "wizard.hbs") (codes "own")) no_files)

test_partials :
    partials parent_theme own_theme
    ≡ ((codes "wizard", codes "own") ∷ (codes "menu.main", codes "menu") ∷ [])
unfolding partials register put_key is_hbs_file text_eq
test_partials = refl

own_partials_example :
    get_key (codes "menu.main") (partials parent_theme own_theme)
    ≡ or_else
        (get_key (codes "menu.main") (register [] own_theme []))
        (get_key (codes "menu.main") (register [] parent_theme []))
own_partials_example = own_partials (codes "menu.main") parent_theme own_theme

abbrev files_of : List Text → FileTrees
files_of [] = no_files
files_of (n ∷ ns) = add_file (file (n ++ codes ".hbs") n) (files_of ns)

abbrev no_error : Fields
no_error = field (codes "error") (arr no_items) no_fields

abbrev login_page : Page
login_page = record {
  template = codes "login";
  areas =
      page_meta (codes "WSO2 Private PaaS Login")
      ∷ area (codes "header") (codes "login_header") []
      ∷ content (codes "login_body") ((codes "content_title", text []) ∷ [])
      ∷ [];
}

test_login : render login_js no_error ≡ ok login_page
unfolding render login has_no_error has_length_zero get_field text_eq length_is_zero
test_login = refl

test_files : has_files partial_files (files_of partial_files) ≡ true
unfolding has_files has_file text_eq
test_files = refl

partials_registered_example :
    areas_in login_page.areas
      (keys (partials parent_theme (directory (codes "partials") (files_of partial_files))))
    ≡ true
partials_registered_example =
    partials_registered login_js no_error login_page (codes "partials") parent_theme
      (files_of partial_files) test_login test_files

abbrev super_session : Session
super_session key = if text_eq key (codes "TENANT_ID") then some (codes "-1234") else none

test_super_tenant : is_super_tenant super_session ≡ true
unfolding is_super_tenant text_eq
test_super_tenant = refl

test_domain : domain super_session ≡ []
unfolding domain text_eq
test_domain = refl

test_user : user (λ key. some key) ≡ codes "USER_NAME"
unfolding user
test_user = refl

test_is_allowed : is_allowed (some ((codes "add", false) ∷ [])) (codes "add") ≡ false
unfolding is_allowed get_key text_eq
test_is_allowed = refl

test_is_allowed_undefined : is_allowed none (codes "add") ≡ false
unfolding is_allowed
test_is_allowed_undefined = refl
