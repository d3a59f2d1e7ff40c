-- ===== src/Slides/Menus.antt =====
-- How many menus are opened.
use product_private_paas.Common.{
  ℕ, ◌+◌, ◌≤◌, Text, ◌≡◌, refl, ap, Bool, true, false, List, [], ◌∷◌, ◌++◌, arith, Bool-cases, inl,
  inr, if◌then◌else◌,
}
use product_private_paas.Slides.{
  Side, left, right, Slide, contains, open_links, load_windows, place_window,
}

unfoldable pub count_true : List Bool → ℕ
count_true [] = 0
count_true (b ∷ bs) = (if b then 1 else 0) + count_true bs

count_true-append : (xs ys : List Bool) → count_true (xs ++ ys) ≡ count_true xs + count_true ys
unfolding count_true
count_true-append [] ys = omega arith
count_true-append (b ∷ xs) ys = omega (arith, count_true-append xs ys)

-- The number of menus that are open, before and after.
abbrev opened_count : Bool → ℕ
opened_count true = 1
opened_count false = 0

count_true-open_links :
    (page : Text) (hrefs : List Text) (opened : Bool)
    → count_true (open_links page hrefs opened).0 + opened_count opened
      ≡ opened_count (open_links page hrefs opened).1
unfolding open_links count_true
count_true-open_links page [] opened = ground arith
count_true-open_links page (href ∷ hrefs) true =
    let rest = count_true-open_links page hrefs true in ground (arith, rest)
count_true-open_links page (href ∷ hrefs) false = elim (Bool-cases (contains href page)) [
  | inl e ↦ let rest = count_true-open_links page hrefs true in ground (arith, e, rest)
  | inr e ↦ let rest = count_true-open_links page hrefs false in ground (arith, e, rest)
]

menu_opened-place_window : (w : Side) (s : Slide) → (place_window w s).menu_opened ≡ s.menu_opened
menu_opened-place_window left s = refl
menu_opened-place_window right s = refl

opened_count_le : (b : Bool) → opened_count b ≤ 1
opened_count_le true = omega arith
opened_count_le false = omega arith

count_true-load_windows :
    (page : Text) (hrefs : List Text) (ws : List Side) (s : Slide)
    → count_true (load_windows page hrefs ws s).opened_links + opened_count s.menu_opened ≤ 1
unfolding load_windows count_true
count_true-load_windows page hrefs [] s = omega (arith, opened_count_le s.menu_opened)
count_true-load_windows page hrefs (w ∷ ws) s =
    let links = open_links page hrefs s.menu_opened in
    let next : Slide = place_window w (record s { menu_opened = links.1 }) in
    let rest = count_true-load_windows page hrefs ws next in
    let kept = menu_opened-place_window w (record s { menu_opened = links.1 }) in
    omega (
      arith,
      count_true-append links.0 (load_windows page hrefs ws next).opened_links,
      count_true-open_links page hrefs s.menu_opened,
      rest,
      ap opened_count kept,
    )

-- However many slide windows and links a page has, and whichever links contain the page's path, at most
-- one menu is opened when the page has loaded.
pub one_menu_opened :
    (page : Text) (hrefs : List Text) (ws : List Side) (s : Slide)
    → count_true (load_windows page hrefs ws s).opened_links ≤ 1
one_menu_opened page hrefs ws s = omega (arith, count_true-load_windows page hrefs ws s)
