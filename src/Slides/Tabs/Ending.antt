-- ===== src/Slides/Tabs/Ending.antt =====
-- A slide window with tabs after a click, when its slides have ended.
use product_private_paas.Common.{
  Text, ◌≡◌, refl, sym, ap, ◌∙◌, subst, Bool, true, false, not, Option, none, some, List, [], ◌∷◌,
  map, arith, Bool-cases, inl, inr, if◌then◌else◌,
}
use product_private_paas.Slides.Tabs.{
  Handle, Tab, Move, Panel, show_tab, blank_tab, activated, deactivated, pressed, finish_move,
}
use product_private_paas.Slides.Tabs.User.{is_at, toggle, handles_at, tabs_at, is_open, Represents}

-- The window ends all of its slides.
unfoldable pub end_moves : List Move → Panel → Panel
unfolding finish_move
end_moves [] s = s
end_moves (m ∷ ms) s = end_moves ms (finish_move s)

unfoldable pub settle : Panel → Panel
unfolding end_moves
settle s = end_moves s.moves s

-- A panel that stands still.
abbrev pub still : List Handle → List Tab → Bool → Panel
still hs ts is_out = record {
  handles = hs;
  tabs = ts;
  tab_closed = not is_out;
  is_out = is_out;
  moves = [];
}

panel-still :
    (hs : List Handle) (s : Panel) (is_out : Bool)
    → s.is_out ≡ is_out
    → s.tab_closed ≡ not is_out
    → s.moves ≡ []
    → record s { handles = hs } ≡ still hs s.tabs is_out
panel-still hs s is_out a b c =
    ap (λ m. record s { handles = hs; moves = m }) c
    ∙ ap (λ x. record s { handles = hs; moves = []; tab_closed = x }) b
    ∙ ap (λ x. record s { handles = hs; moves = []; tab_closed = not is_out; is_out = x }) a

tabs_at-show_tab : (a : Text) (ts : List Tab) → tabs_at (some a) (map (show_tab a) ts) ≡ true
unfolding tabs_at
tabs_at-show_tab a [] = refl
tabs_at-show_tab a (t ∷ ts) = ground (arith, tabs_at-show_tab a ts)

tabs_at-blank_tab : (ts : List Tab) → tabs_at none (map blank_tab ts) ≡ true
unfolding tabs_at
tabs_at-blank_tab [] = refl
tabs_at-blank_tab (t ∷ ts) = tabs_at-blank_tab ts

settled_on :
    (a : Text) (hs : List Handle) (ts : List Tab) (is_out : Bool)
    → handles_at (some a) hs ≡ true
    → Represents (some a) (settle (activated a (still hs ts is_out)))
unfolding settle end_moves finish_move
settled_on a hs ts true m = record {
  handles_match = m;
  tabs_match = tabs_at-show_tab a ts;
  out_match = refl;
  closed_match = refl;
  at_rest = refl;
}
settled_on a hs ts false m = record {
  handles_match = m;
  tabs_match = tabs_at-show_tab a ts;
  out_match = refl;
  closed_match = refl;
  at_rest = refl;
}

settled_off :
    (a : Text) (hs : List Handle) (ts : List Tab)
    → handles_at none hs ≡ true
    → Represents none (settle (deactivated a (still hs ts true)))
unfolding settle end_moves finish_move
settled_off a hs ts m = record {
  handles_match = m;
  tabs_match = tabs_at-blank_tab ts;
  out_match = refl;
  closed_match = refl;
  at_rest = refl;
}

-- An action that is on is the one that is open.
open_of_is_at : (a : Text) (o : Option Text) → is_at o a ≡ true → is_open o ≡ true
open_of_is_at a none e = cc e
open_of_is_at a (some b) e = refl

pub settled_pressed :
    (a : Text) (o : Option Text) (s : Panel) (hs : List Handle) (b : Bool)
    → Represents o s
    → b ≡ not (is_at o a)
    → handles_at (toggle a o) hs ≡ true
    → Represents
        (toggle a o)
        (settle (pressed (record { action = a; active = b }) (record s { handles = hs })))
settled_pressed a o s hs b r e m = elim (Bool-cases (is_at o a)) [
  | inl on ↦
      let off : b ≡ false = e ∙ ap not on in
      let closes : toggle a o ≡ none = ap (λ c. if c then none else some a) on in
      let here = open_of_is_at a o on in
      subst
        (λ x.
          Represents x
            (settle (pressed (record { action = a; active = b }) (record s { handles = hs }))))
        (sym closes)
        (subst
          (λ c.
            Represents none
              (settle (pressed (record { action = a; active = c }) (record s { handles = hs }))))
          (sym off)
          (subst (λ q. Represents none (settle (deactivated a q)))
            (sym
              (panel-still hs s true (r.out_match ∙ here) (r.closed_match ∙ ap not here) r.at_rest))
            (settled_off a hs s.tabs (ap (λ x. handles_at x hs) (sym closes) ∙ m))))
  | inr off ↦
      let on : b ≡ true = e ∙ ap not off in
      let opens : toggle a o ≡ some a = ap (λ c. if c then none else some a) off in
      subst
        (λ x.
          Represents x
            (settle (pressed (record { action = a; active = b }) (record s { handles = hs }))))
        (sym opens)
        (subst
          (λ c.
            Represents (some a)
              (settle (pressed (record { action = a; active = c }) (record s { handles = hs }))))
          (sym on)
          (subst (λ q. Represents (some a) (settle (activated a q)))
            (sym (panel-still hs s (is_open o) r.out_match r.closed_match r.at_rest))
            (settled_on a hs s.tabs (is_open o) (ap (λ x. handles_at x hs) (sym opens) ∙ m))))
]
