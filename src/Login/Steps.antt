-- ===== src/Login/Steps.antt =====
-- The log-in form under any sequence of events.
use product_private_paas.Common.{
  ℕ, suc, ◌≤◌, Text, text_eq, ◌≡◌, refl, Bool, true, not, ◌&&◌, ◌||◌, List, [], ◌∷◌, arith, eqb,
  if◌then◌else◌,
}
use product_private_paas.Login.{
  Field, Page, Request, Reply, answered, failed, is_empty, mark, unmark, is_valid_form, login_check,
  key_up, key_press, reply,
}

abbrev pub set_value : Text → Field → Field
set_value t f = record f { value = t }

-- One event on the page: typing into a field, a key that goes up or is pressed, a click on the button,
-- or a reply to a request that is pending.
pub data Step (context : Text) : Page → Page → Type 0 where
  types_username :
      (t : Text) (p : Page) → Step context p (record p { username = set_value t p.username })
  types_password :
      (t : Text) (p : Page) → Step context p (record p { password = set_value t p.password })
  key_goes_up : (code : ℕ) (p : Page) → Step context p (key_up code p)
  key_pressed : (code : ℕ) (p : Page) → Step context p (key_press code p)
  clicked : (p : Page) → Step context p (login_check p)
  replied : (r : Reply) (p : Page) → 1 ≤ p.pending → Step context p (reply context r p)

pub data Steps (context : Text) : Page → Page → Type 0 where
  done : (p : Page) → Steps context p p
  next : (p q r : Page) → Steps context p q → Step context q r → Steps context p r

-- Every request that was sent has a user name and a password.
unfoldable pub all_filled : List Request → Bool
all_filled [] = true
all_filled (r ∷ rs) = not (text_eq r.username []) && not (text_eq r.password []) && all_filled rs

filled-login_check :
    (p : Page) → all_filled p.requests ≡ true → all_filled (login_check p).requests ≡ true
unfolding login_check is_valid_form all_filled mark unmark
filled-login_check p h = ground (arith, h)

event_sends_filled :
    (context : Text) (p q : Page)
    → Step context p q
    → all_filled p.requests ≡ true
    → all_filled q.requests ≡ true
unfolding key_up key_press is_valid_form reply
event_sends_filled context _ _ (types_username t p) h = h
event_sends_filled context _ _ (types_password t p) h = h
event_sends_filled context _ _ (key_goes_up code p) h = ground (arith, h)
event_sends_filled context _ _ (key_pressed code p) h = ground (arith, h, filled-login_check p h)
event_sends_filled context _ _ (clicked p) h = filled-login_check p h
event_sends_filled context _ _ (replied (answered s m) p l) h = ground (arith, h)
event_sends_filled context _ _ (replied failed p l) h = h

-- From a page whose requests, if there are any, all have a user name and a password, whatever the
-- events are: no request is ever sent without a user name or without a password.
pub steps_send_filled :
    (context : Text) (p q : Page)
    → all_filled p.requests ≡ true
    → Steps context p q
    → all_filled q.requests ≡ true
steps_send_filled context _ _ h (done p) = h
steps_send_filled context _ _ h (next p r q before last) =
    event_sends_filled context r q last (steps_send_filled context p r h before)

-- The button is only in its loading state while a request is pending.
unfoldable pub is_settled : Page → Bool
is_settled p = not p.loading || not (eqb p.pending 0)

settled-login_check : (p : Page) → is_settled (login_check p) ≡ true
unfolding login_check is_valid_form is_settled mark unmark
settled-login_check p = ground arith

event_settles :
    (context : Text) (p q : Page) → Step context p q → is_settled p ≡ true → is_settled q ≡ true
unfolding key_up key_press is_valid_form reply is_settled
event_settles context _ _ (types_username t p) h = h
event_settles context _ _ (types_password t p) h = h
event_settles context _ _ (key_goes_up code p) h = ground (arith, h)
event_settles context _ _ (key_pressed code p) h = ground (arith, h, settled-login_check p)
event_settles context _ _ (clicked p) h = settled-login_check p
event_settles context _ _ (replied (answered s m) p l) h = ground (arith, h)
event_settles context _ _ (replied failed p l) h = refl

-- From a page whose button is not loading, or on which a request is pending, whatever the events are:
-- the button is never left in its loading state without a request that is pending.
pub steps_settle :
    (context : Text) (p q : Page) → is_settled p ≡ true → Steps context p q → is_settled q ≡ true
steps_settle context _ _ h (done p) = h
steps_settle context _ _ h (next p q r before last) =
    event_settles context q r last (steps_settle context p q h before)

-- `isValidForm` is true for exactly the pages with a user name and a password; the error line shows
-- where it is false, and a field is marked where it is empty. An empty field gets one more `span` each
-- time, and a field that is not empty loses all of them.
pub is_valid_form-marks :
    (p : Page)
    → ((is_valid_form p).0 ≡ (not (is_empty p.username) && not (is_empty p.password)))
      × ((is_valid_form p).1.error_shown ≡ not (is_valid_form p).0)
      × ((is_valid_form p).1.username.has_error ≡ is_empty p.username)
      × ((is_valid_form p).1.password.has_error ≡ is_empty p.password)
      × ((is_valid_form p).1.username.spans
          ≡ (if is_empty p.username then suc p.username.spans else 0))
      × ((is_valid_form p).1.password.spans
          ≡ (if is_empty p.password then suc p.password.spans else 0))
unfolding is_valid_form mark unmark
is_valid_form-marks p =
    (ground arith, ground arith, ground arith, ground arith, ground arith, ground arith)
