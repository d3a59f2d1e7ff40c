-- ===== src/Login/Tests.antt =====
-- An empty click, and then a log-in.
use product_private_paas.Common.{
  codes, text_eq, ◌≡◌, refl, true, false, none, [], not, ◌&&◌, if◌then◌else◌, suc, ◌≤◌, arith,
}
use product_private_paas.Login.{
  Page, Field, is_empty, is_valid_form, login_check, reply, answered, mark, unmark,
}
use product_private_paas.Login.Steps.{
  Steps, done, next, set_value, clicked, types_username, types_password, replied, all_filled,
  steps_send_filled, is_settled, steps_settle, is_valid_form-marks,
}

abbrev blank : Field
blank = record { value = []; has_error = false; spans = 0 }

abbrev opened : Page
opened = record {
  username = blank;
  password = blank;
  error_text = [];
  error_shown = false;
  loading = false;
  pending = 0;
  requests = [];
  location = none;
}

abbrev named : Page
named = record (login_check opened) {
  username = set_value (codes "admin") (login_check opened).username;
}

abbrev complete : Page
complete = record named { password = set_value (codes "secret") named.password }

one_pending : 1 ≤ (login_check complete).pending
unfolding login_check is_valid_form mark unmark text_eq
one_pending = omega arith

abbrev session :
    Steps
      (codes "/console")
      opened
      (reply (codes "/console") (answered 1 []) (login_check complete))
session =
    next _ _ _
      (next _ _ _
        (next _ _ _
          (next _ _ _ (next _ _ _ (done opened) (clicked opened))
            (types_username (codes "admin") (login_check opened)))
          (types_password (codes "secret") named))
        (clicked complete))
      (replied (answered 1 []) (login_check complete) one_pending)

no_requests : all_filled opened.requests ≡ true
unfolding all_filled
no_requests = refl

steps_send_filled_example :
    all_filled (reply (codes "/console") (answered 1 []) (login_check complete)).requests ≡ true
steps_send_filled_example =
    steps_send_filled (codes "/console") opened
      (reply (codes "/console") (answered 1 []) (login_check complete)) no_requests session

is_valid_form-marks_example :
    ((is_valid_form opened).0 ≡ (not (is_empty opened.username) && not (is_empty opened.password)))
    × ((is_valid_form opened).1.error_shown ≡ not (is_valid_form opened).0)
    × ((is_valid_form opened).1.username.has_error ≡ is_empty opened.username)
    × ((is_valid_form opened).1.password.has_error ≡ is_empty opened.password)
    × ((is_valid_form opened).1.username.spans
        ≡ (if is_empty opened.username then suc opened.username.spans else 0))
    × ((is_valid_form opened).1.password.spans
        ≡ (if is_empty opened.password then suc opened.password.spans else 0))
is_valid_form-marks_example = is_valid_form-marks opened

opened-settled : is_settled opened ≡ true
unfolding is_settled
opened-settled = refl

steps_settle_example :
    is_settled (reply (codes "/console") (answered 1 []) (login_check complete)) ≡ true
steps_settle_example =
    steps_settle (codes "/console") opened
      (reply (codes "/console") (answered 1 []) (login_check complete)) opened-settled session
