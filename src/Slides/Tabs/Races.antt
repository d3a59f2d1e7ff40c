-- ===== src/Slides/Tabs/Races.antt =====
-- The clicks on the handles of a slide window and the ends of its slides, in any order.
use product_private_paas.Common.{
  ℕ, zero, suc, ◌+◌, ◌≤◌, Text, text_eq, text_eq_iff, mem, distinct, ◌≡◌, refl, ap, ◌∙◌, subst, sym,
  Bool, true, false, not, Option, none, some, List, [], ◌∷◌, ◌++◌, get_elem?, map, arith,
  Bool-cases, inl, inr, if◌then◌else◌,
}
use product_private_paas.Slides.Tabs.{
  Handle, Tab, Move, slides_out, slides_back, Panel, press, deactivate, show_tab, hide_tab,
  blank_tab, activated, deactivated, pressed, clicked, click_handle, finish_move, end_first,
  PanelEvent, clicks, finishes, panel_step, panel_run,
}

abbrev one_if : Bool → ℕ
one_if true = 1
one_if false = 0

unfoldable pub count_active : List Handle → ℕ
count_active [] = 0
count_active (h ∷ hs) = one_if h.active + count_active hs

unfoldable pub count_visible : List Tab → ℕ
count_visible [] = 0
count_visible (t ∷ ts) = one_if t.visible + count_visible ts

abbrev pub contents : List Tab → List Text
contents [] = []
contents (t ∷ ts) = t.content ∷ contents ts

count_active-deactivate : (hs : List Handle) → count_active (map deactivate hs) ≡ 0
unfolding count_active
count_active-deactivate [] = refl
count_active-deactivate (h ∷ hs) = omega (arith, count_active-deactivate hs)

one_if_le : (b : Bool) → one_if b ≤ 1
one_if_le true = omega arith
one_if_le false = omega arith

count_active-press : (i : ℕ) (hs : List Handle) → count_active (press i hs) ≤ 1
unfolding count_active press
count_active-press i [] = omega arith
count_active-press zero (h ∷ hs) =
    omega (arith, one_if_le (not h.active), count_active-deactivate hs)
count_active-press (suc i) (h ∷ hs) = omega (arith, count_active-press i hs)

count_visible-absent :
    (a : Text) (ts : List Tab)
    → mem a (contents ts) ≡ false
    → count_visible (map (show_tab a) ts) ≡ 0
unfolding count_visible mem
count_visible-absent a [] m = refl
count_visible-absent a (t ∷ ts) m =
    ground (arith, m, text_eq_iff t.content a, text_eq_iff a t.content, count_visible-absent a ts)

count_visible-show_tab :
    (a : Text) (ts : List Tab)
    → distinct (contents ts) ≡ true
    → count_visible (map (show_tab a) ts) ≤ 1
unfolding count_visible distinct
count_visible-show_tab a [] d = omega arith
count_visible-show_tab a (t ∷ ts) d = elim (Bool-cases (text_eq t.content a)) [
  | inl e ↦
      let absent : mem a (contents ts) ≡ false =
        ap (λ x. mem x (contents ts)) (sym ((text_eq_iff t.content a).0 e)) ∙ ground (arith, d) in
      ground (arith, e, count_visible-absent a ts absent)
  | inr e ↦ ground (arith, e, d, count_visible-show_tab a ts)
]

count_visible-hide_tab :
    (a : Text) (ts : List Tab) → count_visible (map (hide_tab a) ts) ≤ count_visible ts
unfolding count_visible
count_visible-hide_tab a [] = omega arith
count_visible-hide_tab a (t ∷ ts) = ground (arith, count_visible-hide_tab a ts)

count_visible-blank_tab : (ts : List Tab) → count_visible (map blank_tab ts) ≡ 0
unfolding count_visible
count_visible-blank_tab [] = refl
count_visible-blank_tab (t ∷ ts) = omega (arith, count_visible-blank_tab ts)

-- At most one handle is active, and at most one tab is visible.
pub record IsExclusive (s : Panel) : Type 0 where
  pub contents_apart : distinct (contents s.tabs) ≡ true
  pub one_active : count_active s.handles ≤ 1
  pub one_visible : count_visible s.tabs ≤ 1

contents-map :
    (f : Tab → Tab) (ts : List Tab)
    → ((t : Tab) → (f t).content ≡ t.content)
    → contents (map f ts) ≡ contents ts
contents-map f [] h = refl
contents-map f (t ∷ ts) h =
    ap (λ c. c ∷ contents (map f ts)) (h t) ∙ ap (λ l. t.content ∷ l) (contents-map f ts h)

IsExclusive-tabs :
    (s q : Panel) (f : Tab → Tab)
    → q.tabs ≡ map f s.tabs
    → q.handles ≡ s.handles
    → ((t : Tab) → (f t).content ≡ t.content)
    → count_visible (map f s.tabs) ≤ 1
    → IsExclusive s
    → IsExclusive q
IsExclusive-tabs s q f ts hs h v x = record {
  contents_apart =
      ap (λ l. distinct (contents l)) ts ∙ ap distinct (contents-map f s.tabs h) ∙ x.contents_apart;
  one_active = subst (λ l. count_active l ≤ 1) (sym hs) x.one_active;
  one_visible = subst (λ l. count_visible l ≤ 1) (sym ts) v;
}

IsExclusive-activated : (a : Text) (s : Panel) → IsExclusive s → IsExclusive (activated a s)
IsExclusive-activated a s x =
    IsExclusive-tabs s (activated a s) (show_tab a) refl refl (λ t. refl)
      (count_visible-show_tab a s.tabs x.contents_apart) x

IsExclusive-deactivated : (a : Text) (s : Panel) → IsExclusive s → IsExclusive (deactivated a s)
IsExclusive-deactivated a s x = elim (Bool-cases s.tab_closed) [
  | inl e ↦
      subst IsExclusive
        (sym (
          ap
            (λ c.
              if c
              then record s { tabs = map (hide_tab a) s.tabs }
              else record s { moves = s.moves ++ slides_back ∷ [] })
            e))
        (IsExclusive-tabs s (record s { tabs = map (hide_tab a) s.tabs }) (hide_tab a) refl refl
          (λ t. refl) (omega (arith, count_visible-hide_tab a s.tabs, x.one_visible)) x)
  | inr e ↦
      subst IsExclusive
        (sym (
          ap
            (λ c.
              if c
              then record s { tabs = map (hide_tab a) s.tabs }
              else record s { moves = s.moves ++ slides_back ∷ [] })
            e))
        (record {
          contents_apart = x.contents_apart;
          one_active = x.one_active;
          one_visible = x.one_visible;
        })
]

IsExclusive-pressed : (h : Handle) (s : Panel) → IsExclusive s → IsExclusive (pressed h s)
IsExclusive-pressed h s x = elim (Bool-cases h.active) [
  | inl e ↦
      subst IsExclusive
        (sym (ap (λ c. if c then activated h.action s else deactivated h.action s) e))
        (IsExclusive-activated h.action s x)
  | inr e ↦
      subst IsExclusive
        (sym (ap (λ c. if c then activated h.action s else deactivated h.action s) e))
        (IsExclusive-deactivated h.action s x)
]

IsExclusive-clicked :
    (f : Option Handle) (i : ℕ) (s : Panel) → IsExclusive s → IsExclusive (clicked f i s)
IsExclusive-clicked none i s x = x
IsExclusive-clicked (some h) i s x =
    IsExclusive-pressed (record h { active = not h.active })
      (record s { handles = press i s.handles })
      (record {
        contents_apart = x.contents_apart;
        one_active = count_active-press i s.handles;
        one_visible = x.one_visible;
      })

IsExclusive-end_first : (ms : List Move) (s : Panel) → IsExclusive s → IsExclusive (end_first ms s)
IsExclusive-end_first [] s x = x
IsExclusive-end_first (slides_out ∷ ms) s x = record {
  contents_apart = x.contents_apart;
  one_active = x.one_active;
  one_visible = x.one_visible;
}
IsExclusive-end_first (slides_back ∷ ms) s x =
    IsExclusive-tabs s (end_first (slides_back ∷ ms) s) blank_tab refl refl (λ t. refl)
      (omega (arith, count_visible-blank_tab s.tabs)) x

IsExclusive-step : (e : PanelEvent) (s : Panel) → IsExclusive s → IsExclusive (panel_step e s)
unfolding panel_step click_handle finish_move
IsExclusive-step (clicks i) s x = IsExclusive-clicked (get_elem? s.handles i) i s x
IsExclusive-step finishes s x = IsExclusive-end_first s.moves s x

-- On a window with tabs of distinct contents, whatever the order in which handles are clicked and slides
-- end: at most one handle is active and at most one tab is visible, if that was so before.
pub panel_run-IsExclusive :
    (es : List PanelEvent) (s : Panel) → IsExclusive s → IsExclusive (panel_run es s)
unfolding panel_run
panel_run-IsExclusive [] s x = x
panel_run-IsExclusive (e ∷ es) s x =
    panel_run-IsExclusive es (panel_step e s) (IsExclusive-step e s x)
