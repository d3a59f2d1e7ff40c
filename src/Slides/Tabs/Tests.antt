-- ===== src/Slides/Tabs/Tests.antt =====
-- Tests of the slide window with the tabs for help and for the log.
use product_private_paas.Common.{
  Text, codes, text_eq, mem, distinct, ◌≡◌, refl, true, false, none, some, List, [], ◌∷◌, arith,
  get_elem?,
}
use product_private_paas.Slides.Tabs.{
  Panel, PanelEvent, clicks, finishes, panel_run, panel_step, click_handle, finish_move, press,
}
use product_private_paas.Slides.Tabs.Races.{
  IsExclusive, panel_run-IsExclusive, count_active, count_visible,
}
use product_private_paas.Slides.Tabs.User.{Represents, toggles, actions, handles_at, tabs_at}
use product_private_paas.Slides.Tabs.Settled.{settled_clicks, clicks_settle}

abbrev help : Text
help = codes "help"

abbrev log : Text
log = codes "log"

-- The page when it has loaded.
abbrev loaded_panel : Panel
loaded_panel = record {
  handles = record { action = help; active = false } ∷ record { action = log; active = false } ∷ [];
  tabs =
      record { content = help; visible = false; shown = true }
      ∷ record { content = log; visible = false; shown = true }
      ∷ [];
  tab_closed = true;
  is_out = false;
  moves = [];
}

loaded-distinct : distinct (actions loaded_panel.handles) ≡ true
unfolding distinct mem text_eq
loaded-distinct = refl

loaded-Represents : Represents none loaded_panel
unfolding handles_at tabs_at
loaded-Represents = record {
  handles_match = refl;
  tabs_match = refl;
  out_match = refl;
  closed_match = refl;
  at_rest = refl;
}

test_toggles : toggles (help ∷ log ∷ []) (0 ∷ 1 ∷ []) none ≡ some log
unfolding toggles text_eq
test_toggles = refl

clicks_settle_example :
    Represents
      (toggles (help ∷ log ∷ []) (0 ∷ 1 ∷ 1 ∷ 0 ∷ []) none)
      (settled_clicks (0 ∷ 1 ∷ 1 ∷ 0 ∷ []) loaded_panel)
clicks_settle_example =
    clicks_settle (0 ∷ 1 ∷ 1 ∷ 0 ∷ []) none loaded_panel loaded-distinct loaded-Represents

loaded-IsExclusive : IsExclusive loaded_panel
unfolding distinct mem text_eq count_active count_visible
loaded-IsExclusive = record {
  contents_apart = refl;
  one_active = omega arith;
  one_visible = omega arith;
}

-- The second handle is clicked while the window still slides back.
abbrev race : List PanelEvent
race = clicks 0 ∷ finishes ∷ clicks 0 ∷ clicks 1 ∷ finishes ∷ []

panel_run-IsExclusive_example : IsExclusive (panel_run race loaded_panel)
panel_run-IsExclusive_example = panel_run-IsExclusive race loaded_panel loaded-IsExclusive

-- At the end of the race the second handle is active, but the window is in.
test_race :
    (get_elem? (panel_run race loaded_panel).handles 1
      ≡ some (record { action = log; active = true }))
    × ((panel_run race loaded_panel).is_out ≡ false)
unfolding panel_run panel_step click_handle press finish_move text_eq
test_race = (refl, refl)
