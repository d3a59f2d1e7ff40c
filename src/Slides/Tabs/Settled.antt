-- ===== src/Slides/Tabs/Settled.antt =====
-- The clicks on the handles of a slide window, when each waits for the slides before it to end.
use product_private_paas.Common.{
  ℕ, zero, suc, Text, distinct, ◌≡◌, refl, sym, ap, ◌∙◌, subst, true, not, Option, none, some, List,
  [], ◌∷◌, get_elem?, arith, Bool-cases, Option-cases, inl, inr,
}
use product_private_paas.Slides.Tabs.{
  Handle, Move, slides_out, slides_back, Panel, press, pressed, clicked, click_handle, finish_move,
  end_first,
}
use product_private_paas.Slides.Tabs.User.{
  toggle, actions, toggle_at, action_of, toggles, Represents, actions-press, handles_at-press,
}
use product_private_paas.Slides.Tabs.Ending.{end_moves, settle, settled_pressed}

-- The clicks at the places, each of them when the window stands still.
unfoldable pub settled_clicks : List ℕ → Panel → Panel
unfolding click_handle settle
settled_clicks [] s = s
settled_clicks (i ∷ is) s = settled_clicks is (settle (click_handle i s))

Represents-click :
    (i : ℕ) (h : Handle) (o : Option Text) (s : Panel)
    → distinct (actions s.handles) ≡ true
    → get_elem? s.handles i ≡ some h
    → Represents o s
    → Represents (toggle h.action o) (settle (click_handle i s))
unfolding click_handle
Represents-click i h o s d e r =
    let (m, on) = handles_at-press i h o s.handles d e r.handles_match in
    subst (λ f. Represents (toggle h.action o) (settle (clicked f i s))) (sym e)
      (settled_pressed h.action o s (press i s.handles) (not h.active) r (ap not on) m)

actions-pressed : (h : Handle) (s : Panel) → (pressed h s).handles ≡ s.handles
actions-pressed h s = elim (Bool-cases h.active) [
  | inl e ↦ ground (arith, e)
  | inr e ↦ elim (Bool-cases s.tab_closed) [
    | inl c ↦ ground (arith, e, c)
    | inr c ↦ ground (arith, e, c)
  ]
]

handles-finish_move : (s : Panel) → (finish_move s).handles ≡ s.handles
unfolding finish_move
handles-finish_move s = handles-end_first s.moves
  where
    handles-end_first : (ms : List Move) → (end_first ms s).handles ≡ s.handles
    handles-end_first [] = refl
    handles-end_first (slides_out ∷ ms) = refl
    handles-end_first (slides_back ∷ ms) = refl

handles-end_moves : (ms : List Move) (s : Panel) → (end_moves ms s).handles ≡ s.handles
unfolding end_moves
handles-end_moves [] s = refl
handles-end_moves (m ∷ ms) s = handles-end_moves ms (finish_move s) ∙ handles-finish_move s

actions-click :
    (i : ℕ) (f : Option Handle) (s : Panel)
    → actions (settle (clicked f i s)).handles ≡ actions s.handles
unfolding settle
actions-click i none s = ap actions (handles-end_moves s.moves s)
actions-click i (some h) s =
    let after : Panel = clicked (some h) i s in
    ap actions (handles-end_moves after.moves after)
    ∙ ap actions (
        actions-pressed (record h { active = not h.active })
          (record s { handles = press i s.handles }))
    ∙ actions-press i s.handles

get_elem?-actions :
    (i : ℕ) (hs : List Handle) → get_elem? (actions hs) i ≡ action_of (get_elem? hs i)
get_elem?-actions i [] = refl
get_elem?-actions zero (h ∷ hs) = refl
get_elem?-actions (suc i) (h ∷ hs) = get_elem?-actions i hs

Represents-any_click :
    (i : ℕ) (o : Option Text) (s : Panel)
    → distinct (actions s.handles) ≡ true
    → Represents o s
    → Represents (toggle_at (get_elem? (actions s.handles) i) o) (settle (click_handle i s))
unfolding click_handle settle end_moves
Represents-any_click i o s d r =
    subst (λ f. Represents (toggle_at f o) (settle (click_handle i s)))
      (sym (get_elem?-actions i s.handles))
      (elim (Option-cases (get_elem? s.handles i)) [
        | inl e ↦
            subst (λ f. Represents (toggle_at (action_of f) o) (settle (clicked f i s))) (sym e)
              (subst (λ ms. Represents o (end_moves ms s)) (sym r.at_rest) r)
        | inr (h, e) ↦
            subst (λ f. Represents (toggle_at (action_of f) o) (settle (click_handle i s))) (sym e)
              (Represents-click i h o s d e r)
      ])

-- A window with handles of distinct actions on which each click waits for the slides before it to end
-- is, to its user, the action that is open: a click on a handle opens its action, or closes it if it is
-- the open one. At the end exactly the handle and the tab of the open action are on, and the window is
-- out exactly if there is one.
pub clicks_settle :
    (is : List ℕ) (o : Option Text) (s : Panel)
    → distinct (actions s.handles) ≡ true
    → Represents o s
    → Represents (toggles (actions s.handles) is o) (settled_clicks is s)
unfolding settled_clicks toggles
clicks_settle [] o s d r = r
clicks_settle (i ∷ is) o s d r =
    let after : Panel = settle (click_handle i s) in
    let same : actions after.handles ≡ actions s.handles =
      unfold click_handle in actions-click i (get_elem? s.handles i) s in
    subst
      (λ names.
        Represents (toggles names is (toggle_at (get_elem? (actions s.handles) i) o))
          (settled_clicks is after))
      same
      (clicks_settle is (toggle_at (get_elem? (actions s.handles) i) o) after (ap distinct same ∙ d)
        (Represents-any_click i o s d r))
