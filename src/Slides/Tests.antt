-- ===== src/Slides/Tests.antt =====
-- Tests of the slide windows.
use product_private_paas.Common.{◌≤◌, Text, codes, ◌≡◌, refl, true, false, List, [], ◌∷◌}
use product_private_paas.Slides.{
  Side, left, right, Slide, load_windows, open_links, contains, begins,
}
use product_private_paas.Slides.Menus.{count_true, one_menu_opened}

abbrev page_start : Slide
page_start = record { left_offset = 0; right_offset = 0; menu_opened = false }

abbrev links : List Text
links = codes "/users" ∷ codes "/applications" ∷ codes "/app" ∷ []

abbrev sides : List Side
sides = left ∷ right ∷ left ∷ []

test_tops :
    (load_windows (codes "/console/applications") links sides page_start).tops ≡ 0 ∷ 0 ∷ 55 ∷ []
unfolding load_windows
test_tops = refl

test_links : (open_links (codes "/console/applications") links false).0 ≡ false ∷ true ∷ false ∷ []
unfolding open_links contains begins
test_links = refl

one_menu_opened_example :
    count_true (load_windows (codes "/console/applications") links sides page_start).opened_links
    ≤ 1
one_menu_opened_example = one_menu_opened (codes "/console/applications") links sides page_start
