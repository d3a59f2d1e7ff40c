-- ===== src/Slides/Tabs/User.antt =====
-- What a slide window with tabs is to its user, and what a click does to its handles.
use product_private_paas.Common.{
  ℕ, zero, suc, Text, text_eq, text_eq_iff, text_eq_refl, mem, distinct, ◌≡◌, refl, ap, subst, Bool,
  true, false, not, ◌&&◌, Option, none, some, List, [], ◌∷◌, get_elem?, map, arith, Bool-cases, inl,
  inr, if◌then◌else◌,
}
use product_private_paas.Slides.Tabs.{Handle, Tab, Panel, press, deactivate}

-- What a window is to its user: the action whose tab is open, or none.
abbrev pub is_at : Option Text → Text → Bool
is_at none k = false
is_at (some a) k = text_eq k a

abbrev pub toggle : Text → Option Text → Option Text
toggle a o = if is_at o a then none else some a

abbrev pub actions : List Handle → List Text
actions [] = []
actions (h ∷ hs) = h.action ∷ actions hs

abbrev pub toggle_at : Option Text → Option Text → Option Text
toggle_at none o = o
toggle_at (some a) o = toggle a o

abbrev pub action_of : Option Handle → Option Text
action_of none = none
action_of (some h) = some h.action

unfoldable pub toggles : List Text → List ℕ → Option Text → Option Text
toggles names [] o = o
toggles names (i ∷ is) o = toggles names is (toggle_at (get_elem? names i) o)

abbrev same_bool : Bool → Bool → Bool
same_bool true c = c
same_bool false c = not c

unfoldable pub handles_at : Option Text → List Handle → Bool
handles_at o [] = true
handles_at o (h ∷ hs) = same_bool h.active (is_at o h.action) && handles_at o hs

unfoldable pub tabs_at : Option Text → List Tab → Bool
tabs_at o [] = true
tabs_at o (t ∷ ts) = same_bool t.visible (is_at o t.content) && tabs_at o ts

abbrev pub is_open : Option Text → Bool
is_open none = false
is_open (some a) = true

-- A window at rest on which exactly the handle and the tab of the action are on.
pub record Represents (o : Option Text) (s : Panel) : Type 0 where
  pub handles_match : handles_at o s.handles ≡ true
  pub tabs_match : tabs_at o s.tabs ≡ true
  pub out_match : s.is_out ≡ is_open o
  pub closed_match : s.tab_closed ≡ not (is_open o)
  pub at_rest : s.moves ≡ []

is_at-toggle :
    (a k : Text) (o : Option Text) → is_at (toggle a o) k ≡ (text_eq k a && not (is_at o a))
is_at-toggle a k o = elim (Bool-cases (is_at o a)) [
  | inl e ↦ ground (arith, e)
  | inr e ↦ ground (arith, e)
]

actions-deactivate : (hs : List Handle) → actions (map deactivate hs) ≡ actions hs
actions-deactivate [] = refl
actions-deactivate (h ∷ hs) = ap (λ l. h.action ∷ l) (actions-deactivate hs)

pub actions-press : (i : ℕ) (hs : List Handle) → actions (press i hs) ≡ actions hs
unfolding press
actions-press i [] = refl
actions-press zero (h ∷ hs) = ap (λ l. h.action ∷ l) (actions-deactivate hs)
actions-press (suc i) (h ∷ hs) = ap (λ l. h.action ∷ l) (actions-press i hs)

others_off :
    (a : Text) (o : Option Text) (hs : List Handle)
    → mem a (actions hs) ≡ false
    → handles_at (toggle a o) (map deactivate hs) ≡ true
unfolding handles_at mem
others_off a o [] m = refl
others_off a o (h ∷ hs) m = ground (
  arith,
  m,
  is_at-toggle a h.action o,
  text_eq_iff a h.action,
  text_eq_iff h.action a,
  others_off a o hs,
)

mem_action :
    (i : ℕ) (h : Handle) (hs : List Handle)
    → get_elem? hs i ≡ some h
    → mem h.action (actions hs) ≡ true
unfolding mem
mem_action i h [] e = cc e
mem_action zero h (k ∷ hs) e =
    let same : k ≡ h = cc e in
    ground (arith, ap (λ (x : Handle). x.action) same, text_eq_iff h.action k.action)
mem_action (suc i) h (k ∷ hs) e = ground (arith, mem_action i h hs e)

-- A click turns the handle on or off, and the others off.
pub handles_at-press :
    (i : ℕ) (h : Handle) (o : Option Text) (hs : List Handle)
    → distinct (actions hs) ≡ true
    → get_elem? hs i ≡ some h
    → handles_at o hs ≡ true
    → (handles_at (toggle h.action o) (press i hs) ≡ true) × (h.active ≡ is_at o h.action)
unfolding handles_at press distinct
handles_at-press i h o [] d e m = cc e
handles_at-press zero h o (k ∷ hs) d e m =
    let same : k ≡ h = cc e in
    subst
      (λ x.
        (handles_at (toggle x.action o) (press zero (k ∷ hs)) ≡ true)
        × (x.active ≡ is_at o x.action))
      same
      (
        ground (
          arith,
          m,
          is_at-toggle k.action k.action o,
          text_eq_refl k.action,
          others_off k.action o hs (ground (arith, d)),
        ),
        elim (Bool-cases k.active) [
          | inl on ↦ ground (arith, on, m)
          | inr off ↦ ground (arith, off, m)
        ],
      )
handles_at-press (suc i) h o (k ∷ hs) d e m =
    let (rest, at_i) = handles_at-press i h o hs (ground (arith, d)) e (ground (arith, m)) in
    (
      ground (
        arith,
        d,
        rest,
        mem_action i h hs e,
        is_at-toggle h.action k.action o,
        text_eq_iff k.action h.action,
        ap (λ x. mem x (actions hs)),
      ),
      at_i,
    )
