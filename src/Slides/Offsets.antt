-- ===== src/Slides/Offsets.antt =====
-- Where the windows stand.
use product_private_paas.Common.{
  ℕ, zero, suc, ◌+◌, ◌*◌, Text, ◌≡◌, refl, ap, ◌∙◌, Bool, some, List, [], ◌∷◌, arith, get_elem?,
  take,
}
use product_private_paas.Slides.{
  Side, left, right, Slide, window_top, place_window, load_windows, open_links,
}

abbrev same_side : Side → Side → ℕ
same_side left left = 1
same_side left right = 0
same_side right left = 0
same_side right right = 1

-- The windows of a side.
unfoldable pub count_side : Side → List Side → ℕ
count_side w [] = 0
count_side w (v ∷ vs) = same_side w v + count_side w vs

window_top-place_window :
    (w v : Side) (s : Slide) (b : Bool)
    → window_top w (place_window v (record s { menu_opened = b }))
      ≡ window_top w s + 55 * same_side w v
window_top-place_window left left s b = refl
window_top-place_window left right s b = omega arith
window_top-place_window right left s b = omega arith
window_top-place_window right right s b = refl

-- A slide window stands 55 below the window before it on its side of the page: its top is the first
-- offset of the side and 55 for each window before it on this side, whatever stands on the other side.
pub tops_apart :
    (page : Text) (hrefs : List Text) (ws : List Side) (s : Slide) (i : ℕ) (w : Side)
    → get_elem? ws i ≡ some w
    → get_elem? (load_windows page hrefs ws s).tops i
      ≡ some (window_top w s + 55 * count_side w (take i ws))
unfolding load_windows count_side
tops_apart page hrefs [] s i w h = cc h
tops_apart page hrefs (v ∷ ws) s zero w h =
    let same : v ≡ w = cc h in
    ap (λ x. some (window_top x s)) same
    ∙ ap some (let e : window_top w s ≡ window_top w s + 0 = omega arith in e)
tops_apart page hrefs (v ∷ ws) s (suc i) w h =
    let b : Bool = (open_links page hrefs s.menu_opened).1 in
    let c : ℕ = count_side w (take i ws) in
    let rest = tops_apart page hrefs ws (place_window v (record s { menu_opened = b })) i w h in
    rest
    ∙ ap (λ t. some (t + 55 * c)) (window_top-place_window w v s b)
    ∙ ap some (
        let e : window_top w s + 55 * same_side w v + 55 * c
            ≡ window_top w s + 55 * (same_side w v + c) =
          omega arith in
        e)
