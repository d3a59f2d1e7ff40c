-- ===== src/Slides/Tabs.antt =====
-- A slide window with tabs, js/custom.js: a click on a handle activates it, shows its tab and slides the
-- window out, or slides it back. The clicks are those on the handles of one window; a slide takes half
-- a second, and what it does at its end is an event of its own.
pub mod User
pub mod Ending
pub mod Settled
pub mod Races
pub mod Tests
use product_private_paas.Common.{
  ℕ, zero, suc, Text, text_eq, Bool, true, false, not, ◌&&◌, Option, none, some, List, [], ◌∷◌,
  ◌++◌, get_elem?, map, if◌then◌else◌,
}

-- A handle with `data-action` and whether it has the class `active`.
pub record Handle : Type 0 where
  pub action : Text
  pub active : Bool

-- A tab with `data-content`, its visibility, and whether its content is shown.
pub record Tab : Type 0 where
  pub content : Text
  pub visible : Bool
  pub shown : Bool

pub data Move : Type 0 where
  slides_out slides_back : Move

-- `moves` are the slides of the window that have not ended, the earliest first; `is_out` is where the
-- window stood after the last that has.
pub record Panel : Type 0 where
  pub handles : List Handle
  pub tabs : List Tab
  pub tab_closed : Bool
  pub is_out : Bool
  pub moves : List Move

abbrev pub deactivate : Handle → Handle
deactivate h = record h { active = false }

-- `toggleClass` of a handle and `removeClass` of its siblings.
unfoldable pub press : ℕ → List Handle → List Handle
press i [] = []
press zero (h ∷ hs) = record h { active = not h.active } ∷ map deactivate hs
press (suc i) (h ∷ hs) = deactivate h ∷ press i hs

-- The tab of the handle is shown, and the others are hidden.
abbrev pub show_tab : Text → Tab → Tab
show_tab action t = let here = text_eq t.content action in record t { visible = here; shown = here }

abbrev pub hide_tab : Text → Tab → Tab
hide_tab action t = record t { visible = if text_eq t.content action then false else t.visible }

abbrev pub blank_tab : Tab → Tab
blank_tab t = record t { visible = false }

-- What a click does when the handle has become active, and when not.
abbrev pub activated : Text → Panel → Panel
activated action s = record s {
  tabs = map (show_tab action) s.tabs;
  moves = if s.tab_closed then s.moves ++ slides_out ∷ [] else s.moves;
}

abbrev pub deactivated : Text → Panel → Panel
deactivated action s =
    if s.tab_closed
    then record s { tabs = map (hide_tab action) s.tabs }
    else record s { moves = s.moves ++ slides_back ∷ [] }

abbrev pub pressed : Handle → Panel → Panel
pressed h s = if h.active then activated h.action s else deactivated h.action s

abbrev pub clicked : Option Handle → ℕ → Panel → Panel
clicked none i s = s
clicked (some h) i s =
    pressed (record h { active = not h.active }) (record s { handles = press i s.handles })

-- A click on a handle, by its place.
unfoldable pub click_handle : ℕ → Panel → Panel
unfolding press
click_handle i s = clicked (get_elem? s.handles i) i s

-- The end of a slide.
abbrev pub end_of_move : Move → Panel → Panel
end_of_move slides_out s = record s { is_out = true; tab_closed = false }
end_of_move slides_back s = record s {
  is_out = false;
  tabs = map blank_tab s.tabs;
  tab_closed = true;
}

abbrev pub end_first : List Move → Panel → Panel
end_first [] s = s
end_first (m ∷ ms) s = end_of_move m (record s { moves = ms })

unfoldable pub finish_move : Panel → Panel
finish_move s = end_first s.moves s

-- A click on a handle, or the end of a slide.
pub data PanelEvent : Type 0 where
  clicks : ℕ → PanelEvent
  finishes : PanelEvent

unfoldable pub panel_step : PanelEvent → Panel → Panel
unfolding click_handle finish_move
panel_step (clicks i) s = click_handle i s
panel_step finishes s = finish_move s

unfoldable pub panel_run : List PanelEvent → Panel → Panel
unfolding panel_step
panel_run [] s = s
panel_run (e ∷ es) s = panel_run es (panel_step e s)
