-- ===== src/Login.antt =====
-- The log-in form:
-- components/org.wso2.ppaas.manager.console/console/themes/privatePaaS/js/login/login.js. The page is
-- the two fields, the error line, the button and the requests; its handlers are steps, and so are
-- typing and the replies of the server. Focus is left out.
pub mod Steps
pub mod Tests
use product_private_paas.Common.{
  ℕ, zero, suc, Text, codes, text_eq, Bool, true, false, not, ◌||◌, Option, none, some, List, [],
  ◌∷◌, ◌++◌, eqb, if◌then◌else◌,
}

-- A field, with the classes of its parent as a flag and the number of `span`s below the parent.
pub record Field : Type 0 where
  pub value : Text
  pub has_error : Bool
  pub spans : ℕ

pub record Request : Type 0 where
  pub username : Text
  pub password : Text

pub record Page : Type 0 where
  pub username : Field
  pub password : Field
  pub error_text : Text
  pub error_shown : Bool
  pub loading : Bool
  pub pending : ℕ
  pub requests : List Request
  pub location : Option Text

abbrev pub is_empty : Field → Bool
is_empty f = text_eq f.value []

unfoldable pub mark : Field → Field
mark f = record f { has_error = true; spans = suc f.spans }

unfoldable pub unmark : Field → Field
unmark f = record f { has_error = false; spans = 0 }

abbrev checked : Field → Field
checked f = if is_empty f then mark f else unmark f

-- The variable `error`, from the two tests.
abbrev pub error_of : Bool → Bool → Text
error_of true true = codes "Enter your username and password"
error_of true false = codes "Enter your username"
error_of false true = codes "Enter your password"
error_of false false = []

-- `isValidForm`: what it returns, and the page it leaves.
unfoldable pub is_valid_form : Page → Bool × Page
unfolding mark unmark
is_valid_form p =
    if is_empty p.username || is_empty p.password
    then (
      false,
      record p {
        username = checked p.username;
        password = checked p.password;
        error_text = error_of (is_empty p.username) (is_empty p.password);
        error_shown = true;
      },
    )
    else (
      true,
      record p { username = unmark p.username; password = unmark p.password; error_shown = false },
    )

abbrev send : Page → Page
send p = record p {
  pending = suc p.pending;
  requests = record { username = p.username.value; password = p.password.value } ∷ p.requests;
}

unfoldable pub login_check : Page → Page
unfolding is_valid_form
login_check p =
    let left = is_valid_form (record p { loading = true }) in
    if left.0 then send left.1 else record left.1 { loading = false }

-- `keyup` in a field, and `keypress` in the page, with the key's code.
unfoldable pub key_up : ℕ → Page → Page
unfolding is_valid_form
key_up code p = if eqb code 13 then p else (is_valid_form p).1

unfoldable pub key_press : ℕ → Page → Page
unfolding login_check
key_press code p = if eqb code 13 then login_check p else p

-- A reply with `status` and `message`, or a failure.
pub data Reply : Type 0 where
  answered : ℕ → Text → Reply
  failed : Reply

abbrev pub less_one : ℕ → ℕ
less_one zero = zero
less_one (suc n) = n

-- `success`, where there is an answer, and then the function of `always`.
unfoldable pub reply : Text → Reply → Page → Page
reply context (answered status message) p =
    let seen =
      if eqb status 1
      then record p { location = some context }
      else record p { error_shown = true; error_text = message } in
    record seen { loading = false; pending = less_one p.pending }
reply context failed p = record p { loading = false; pending = less_one p.pending }
