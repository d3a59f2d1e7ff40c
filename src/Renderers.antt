-- ===== src/Renderers.antt =====
-- The renderers of the console:
-- components/org.wso2.ppaas.manager.console/console/themes/privatePaaS/renderers. A renderer gets the
-- data of a request and calls `theme` with a template and the partials of its areas. The partials that
-- many renderers name alike stand here, and what they all do with `data.error`.
pub mod Applications
pub mod Configure
pub mod Menus
pub mod Errors
pub mod Tests
use product_private_paas.Common.{
  Text, codes, text_eq, Bool, true, false, Option, none, some, List, [], ◌∷◌, ◌++◌, map,
  if◌then◌else◌,
}
use product_private_paas.Json.{Json, Fields, str, get_field}
use product_private_paas.Objects.{Object}
use product_private_paas.Export.{Result, ok, throw, type_error, ◌>>=◌}
use product_private_paas.Export.Cleanup.{length_is_zero}

-- A value of a context: a member of the data, which may be undefined, a constant, or an object of
-- members.
pub data Value : Type 0 where
  member : Option Json → Value
  text : Text → Value
  flag : Bool → Value
  members : Object (Option Json) → Value

abbrev pub Context : Type 0
Context = Object Value

pub record Partial : Type 0 where
  pub partial : Text
  pub context : Context

-- The arguments of `theme`: a template, and the partials of each area.
pub record Page : Type 0 where
  pub template : Text
  pub areas : Object (List Partial)

abbrev pub area : Text → Text → Context → Text × List Partial
area name partial context = (name, record { partial = partial; context = context } ∷ [])

-- `name: data.key`
abbrev pub take : Text → Text → Fields → Text × Value
take name key d = (name, member (get_field key d))

-- `key: data.key` for each key.
unfoldable pub take_all : List Text → Fields → Context
take_all [] d = []
take_all (k ∷ ks) d = take k k d ∷ take_all ks d

abbrev pub page_meta : Text → Text × List Partial
page_meta title =
    area (codes "page_meta") (codes "index_title")
      ((codes "page_title", text title) ∷ (codes "page_description", text title) ∷ [])

abbrev pub index_header : Text × List Partial
index_header = area (codes "header") (codes "index_header") []

abbrev pub sub_header : Context → Text × List Partial
sub_header context = area (codes "sub_header") (codes "index_sub_header") context

abbrev pub left_menu : Fields → Text × List Partial
left_menu d =
    area (codes "left_menu") (codes "index_left_menu")
      (take (codes "left_menu") (codes "left_menu") d ∷ [])

abbrev pub right_menu_help : Text × List Partial
right_menu_help = area (codes "right_menu_help") (codes "index_right_menu_help") []

abbrev pub content : Text → Context → Text × List Partial
content partial context = area (codes "content") partial context

-- The list of the items, `content_body: {sections: data.key}`.
abbrev pub content_body : Text → Fields → Text × Value
content_body key d = (codes "content_body", members ((codes "sections", get_field key d) ∷ []))

-- A page of the console with all areas.
abbrev pub index_page : Text → Context → Text → Context → Fields → Page
index_page title sub partial context d = record {
  template = codes "index";
  areas =
      page_meta title
      ∷ index_header
      ∷ sub_header sub
      ∷ left_menu d
      ∷ right_menu_help
      ∷ content partial context
      ∷ [];
}

abbrev pub error_content : Fields → Text × List Partial
error_content d = content (codes "error_page") (
    take (codes "error") (codes "error") d
    ∷ (codes "content_title", text (codes "Sorry Something went Wrong...! "))
    ∷ (codes "content_body", members [])
    ∷ [])

abbrev pub error_title : Text
error_title = codes "WSO2 Private PaaS Home - Error"

unfoldable pub index_error : Fields → Page
index_error d = record {
  template = codes "index";
  areas = page_meta error_title ∷ index_header ∷ error_content d ∷ [];
}

-- `error.length === 0`; the controllers send a list, and a text has a length too. A read of `length`
-- from undefined or null throws.
unfoldable pub has_length_zero : Option Json → Result Bool
has_length_zero none = throw type_error
has_length_zero (some e) = elim (length_is_zero e) [ none ↦ throw type_error | some b ↦ ok b ]

unfoldable pub has_no_error : Fields → Result Bool
unfolding has_length_zero
has_no_error d = has_length_zero (get_field (codes "error") d)

-- The test that each renderer starts with, and its two pages.
abbrev pub choose : Fields → Page → Page → Result Page
choose d good bad = has_no_error d >>= λ b. ok (if b then good else bad)

-- `data.applicationHbs` is the text.
unfoldable pub is_hbs : Text → Fields → Bool
is_hbs t d = elim (get_field (codes "applicationHbs") d) [ some (str s) ↦ text_eq s t | _ ↦ false ]
