-- ===== src/Session/Login.antt =====
-- web/src/pages/AuthPage.tsx: the form for the login and for the first account.
pub mod View
use restic_ui.Base.{
  false, not, Option, none, some, [], ltb, if◌then◌else◌, length, ◌≡◌, ◌↔◌, arith, ◌≤◌,
}
use restic_ui.Base.Text.{Text, codes, text_eq, text_eq_iff, is_empty}

pub data Mode : Type 0 where
  login setup : Mode

pub record AuthForm : Type 0 where
  pub username : Text
  pub password : Text
  pub confirm : Text
  pub local_error : Text

pub record Credentials : Type 0 where
  pub username : Text
  pub password : Text

-- The form's own complaint; the empty text is none.
abbrev pub complaint : Mode → AuthForm → Text
complaint Mode.login s = []
complaint Mode.setup s =
    if ltb (length s.password) 8
    then codes "Password must be at least 8 characters."
    else if not (text_eq s.password s.confirm)
    then codes "Passwords do not match."
    else []

abbrev pub credentials : AuthForm → Credentials
credentials s = record { username = s.username; password = s.password }

-- `onSubmit`: the form after it, and what is sent.
unfoldable pub submit_auth : Mode → AuthForm → AuthForm × Option Credentials
submit_auth mode s = (
  record s { local_error = complaint mode s },
  if is_empty (complaint mode s) then some (credentials s) else none,
)

-- How the mutation stands: no error, an `ApiError` with its message, or another one.
pub data Failure : Type 0 where
  no_failure other_failure : Failure
  api_failure : Text → Failure

abbrev pub server_error : Failure → Text
server_error no_failure = []
server_error other_failure = codes "Request failed"
server_error (api_failure message) = message

-- `localError || serverError`
unfoldable pub shown_error : AuthForm → Failure → Text
shown_error s failure = if is_empty s.local_error then server_error failure else s.local_error

-- Whether a form may be sent.
abbrev pub IsAcceptable : Mode → AuthForm → Type 0
IsAcceptable Mode.login s = Unit
IsAcceptable Mode.setup s = (8 ≤ length s.password) × (s.password ≡ s.confirm)

-- A submitted login or setup sends the name and the password exactly if it is a login, or if the
-- password has at least 8 characters and was repeated as it is; if it sends nothing, the form shows
-- a message of its own.
pub submit_auth_lem :
    (mode : Mode) (s : AuthForm)
    → (((submit_auth mode s).1 ≡ some (credentials s)) ↔ IsAcceptable mode s)
      × ((submit_auth mode s).1 ≡ none
          → is_empty (shown_error (submit_auth mode s).0 no_failure) ≡ false)
unfolding submit_auth shown_error
submit_auth_lem Mode.login s = ground arith
submit_auth_lem Mode.setup s = ground (arith, text_eq_iff s.password s.confirm)
