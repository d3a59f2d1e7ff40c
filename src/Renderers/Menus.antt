-- ===== src/Renderers/Menus.antt =====
-- The renderers of the menu pages, index.js, configure.js, applications.js and users.js, of the
-- wizard, wizard.js, and of the log-in page, login.js.
use product_private_paas.Common.{Text, codes, List, [], ◌∷◌}
use product_private_paas.Json.{Fields}
use product_private_paas.Export.{Result}
use product_private_paas.Renderers.{
  text, Context, Partial, Page, area, take_all, page_meta, index_header, left_menu, right_menu_help,
  content, content_body, index_page, error_content, error_title, index_error, choose,
}

abbrev pub menu_context : Text → Fields → Context
menu_context title d =
    (codes "content_menu", text (codes "links"))
    ∷ (codes "content_title", text title)
    ∷ content_body (codes "metro_menu") d
    ∷ []

-- The home page has no breadcrumbs.
unfoldable pub index : Fields → Result Page
unfolding index_error
index d =
    choose d
      (record {
        template = codes "index";
        areas =
            page_meta (codes "WSO2 Private PaaS Home")
            ∷ index_header
            ∷ left_menu d
            ∷ right_menu_help
            ∷ content (codes "metro_menu") (menu_context (codes "Welcome to WSO2 Private PaaS") d)
            ∷ [];
      })
      (index_error d)

unfoldable pub configure : Fields → Result Page
unfolding take_all index_error
configure d =
    choose d
      (index_page (codes "WSO2 Private PaaS - Configure")
        (take_all (codes "breadcrumbPathLevelOne" ∷ []) d) (codes "metro_menu")
        (menu_context (codes "Configure WSO2 Private PaaS") d) d)
      (index_error d)

abbrev first_crumb : Text → Context
first_crumb name =
    (codes "breadcrumbPathLevelOne", text name) ∷ (codes "breadcrumbPathLevelTwo", text []) ∷ []

unfoldable pub applications : Fields → Result Page
unfolding index_error
applications d =
    choose d
      (index_page (codes "WSO2 Private PaaS - Application Managment")
        (first_crumb (codes "applications")) (codes "metro_menu")
        (menu_context (codes "Application Management") d) d)
      (index_error d)

unfoldable pub users : Fields → Result Page
unfolding index_error
users d =
    choose d
      (index_page (codes "WSO2 Private PaaS - User Managment") (first_crumb (codes "users"))
        (codes "metro_menu") (menu_context (codes "User Management") d) d)
      (index_error d)

unfoldable pub wizard : Fields → Result Page
unfolding take_all index_error
wizard d =
    choose d
      (index_page (codes "WSO2 Private PaaS Wizard")
        ((codes "breadcrumbPathLevelOne", text (codes "wizard"))
          ∷ take_all (codes "breadcrumbPathLevelTwo" ∷ []) d)
        (codes "wizard")
        ((codes "content_menu", text (codes "links"))
          ∷ (codes "content_title", text (codes "Configuration Wizard"))
          ∷ take_all
              (codes "formData"
                ∷ codes "formDataRaw"
                ∷ codes "formTitle"
                ∷ codes "isSelection"
                ∷ codes "wizardstep"
                ∷ codes "nsettype"
                ∷ codes "step"
                ∷ codes "pstep"
                ∷ codes "steplast"
                ∷ [])
              d)
        d)
      (index_error d)

abbrev login_header : Text × List Partial
login_header = area (codes "header") (codes "login_header") []

unfoldable pub login_error : Fields → Page
login_error d = record {
  template = codes "login";
  areas = page_meta error_title ∷ login_header ∷ error_content d ∷ [];
}

unfoldable pub login : Fields → Result Page
unfolding login_error
login d =
    choose d
      (record {
        template = codes "login";
        areas =
            page_meta (codes "WSO2 Private PaaS Login")
            ∷ login_header
            ∷ content (codes "login_body") ((codes "content_title", text []) ∷ [])
            ∷ [];
      })
      (login_error d)
