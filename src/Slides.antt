-- ===== src/Slides.antt =====
-- The slide windows of all pages, js/custom.js beside
-- components/org.wso2.ppaas.manager.console/console/themes/privatePaaS/js/custom: what happens when a page
-- has loaded. Their widths and the animations are left out.
pub mod Menus
pub mod Offsets
pub mod Tabs
pub mod Tests
use product_private_paas.Common.{
  ℕ, suc, ◌+◌, Text, eqb, Bool, true, false, not, ◌&&◌, ◌||◌, List, [], ◌∷◌, ◌++◌, if◌then◌else◌,
}

-- `getSlideWindowPosition`
pub data Side : Type 0 where
  left right : Side

-- `leftOffset`, `rightOffset` and `menuOpened`.
pub record Slide : Type 0 where
  pub left_offset : ℕ
  pub right_offset : ℕ
  pub menu_opened : Bool

unfoldable pub begins : Text → Text → Bool
begins [] page = true
begins (c ∷ href) [] = false
begins (c ∷ href) (d ∷ page) = eqb c d && begins href page

-- `currentPage.indexOf(href) >= 0`; both texts are in lower case.
unfoldable pub contains : Text → Text → Bool
unfolding begins
contains href [] = begins href []
contains href (d ∷ page) = begins href (d ∷ page) || contains href page

-- The loop over the links of the menus: for each link whether its menu is opened, and `menuOpened`.
unfoldable pub open_links : Text → List Text → Bool → List Bool × Bool
unfolding contains
open_links page [] opened = ([], opened)
open_links page (href ∷ hrefs) opened =
    let hit = contains href page && not opened in
    let rest = open_links page hrefs (opened || hit) in (hit ∷ rest.0, rest.1)

-- `top` of a window, and the offset of the next one on its side.
abbrev pub window_top : Side → Slide → ℕ
window_top left s = s.left_offset
window_top right s = s.right_offset

abbrev pub place_window : Side → Slide → Slide
place_window left s = record s { left_offset = s.left_offset + 55 }
place_window right s = record s { right_offset = s.right_offset + 55 }

-- What the page shows: the tops of the windows, and the links whose menus were opened, of each pass.
pub record Loaded : Type 0 where
  pub tops : List ℕ
  pub opened_links : List Bool

abbrev pub after_window : ℕ → List Bool → Loaded → Loaded
after_window top flags l = record { tops = top ∷ l.tops; opened_links = flags ++ l.opened_links }

-- The loop over the windows.
unfoldable pub load_windows : Text → List Text → List Side → Slide → Loaded
unfolding open_links
load_windows page hrefs [] s = record { tops = []; opened_links = [] }
load_windows page hrefs (w ∷ ws) s =
    let links = open_links page hrefs s.menu_opened in
    after_window (window_top w s) links.0
      (load_windows page hrefs ws (place_window w (record s { menu_opened = links.1 })))
