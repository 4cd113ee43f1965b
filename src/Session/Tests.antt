-- ===== src/Session/Tests.antt =====
-- The session on small inputs.
use restic_ui.Base.{ℕ, ◌≡◌, refl, true, false, none, some, List, [], ◌∷◌, if◌then◌else◌}
use restic_ui.Base.Text.{codes, is_empty}
use restic_ui.Session.{
  AuthState, initial, Event, fetched, signed_in, signed_out, run, handle, app, shell,
  stream_enabled, login,
}
use restic_ui.Session.Requests.{
  Method, is_mutating, send, receive, api_error, refused, with_error, not_json, Reply,
}
use restic_ui.Session.Login.{
  Mode, AuthForm, submit_auth, credentials, IsAcceptable, shown_error, no_failure, submit_auth_lem,
  api_failure,
}
use restic_ui.Session.Login.View
use restic_ui.Session.Login.View.{AuthPage, submit, answered, view}
use restic_ui.Session.Sync.{send-run, app_lem}
use restic_ui.Base.{◌↔◌}

abbrev admin : AuthState
admin = record {
  setup_required = true;
  authenticated = true;
  username = some (codes "admin");
  csrf_token = some (codes "k1");
}

abbrev visit : List Event
visit =
    fetched
      (record { setup_required = false; authenticated = false; username = none; csrf_token = none })
    ∷ signed_in admin
    ∷ []

abbrev in_use : AuthState
in_use = record admin { setup_required = false }

fresh : (run visit initial).stale ≡ false
unfolding run handle
fresh = refl

cached : (run visit initial).auth ≡ some in_use
unfolding run handle
cached = refl

send-run_case :
    (send (run visit initial).token Method.post (codes "/api/plans") (some admin)).csrf_header
    ≡ (if is_mutating Method.post then some (codes "k1") else none)
send-run_case =
    send-run visit in_use b'k' (b'1' ∷ []) Method.post (codes "/api/plans") (some admin) fresh
      cached refl

signed_out_token : (run (signed_in admin ∷ signed_out ∷ []) initial).token ≡ []
unfolding run handle
signed_out_token = refl

app_lem_case :
    (app (run visit initial) ≡ shell none
      → ((run visit initial).is_error ≡ false) × (stream_enabled (run visit initial) ≡ true))
    × (app (handle (signed_in admin) (run visit initial))
        ≡ (if admin.authenticated then shell admin.username else login))
app_lem_case = app_lem (run visit initial) admin none

abbrev conflict : Reply ℕ
conflict = refused 409 (codes "Conflict") (with_error (codes "busy"))

message_of_server : receive conflict ≡ api_error 409 (codes "busy")
unfolding receive
message_of_server = refl

abbrev no_gateway : Reply ℕ
no_gateway = refused 502 (codes "Bad Gateway") not_json

message_of_status : receive no_gateway ≡ api_error 502 (codes "Bad Gateway")
unfolding receive
message_of_status = refl

abbrev form : AuthForm
form = record {
  username = codes "admin";
  password = codes "secret";
  confirm = codes "secret";
  local_error = [];
}

submit_auth_lem_case :
    (((submit_auth Mode.setup form).1 ≡ some (credentials form)) ↔ IsAcceptable Mode.setup form)
    × ((submit_auth Mode.setup form).1 ≡ none
        → is_empty (shown_error (submit_auth Mode.setup form).0 no_failure) ≡ false)
submit_auth_lem_case = submit_auth_lem Mode.setup form

-- A second press of the button while the login is under way sends nothing.
abbrev filled : AuthPage
filled = record View.initial { form = record form { local_error = [] } }

one_login : (View.handle Mode.login submit (View.handle Mode.login submit filled).0).1 ≡ none
unfolding View.handle
one_login = refl

login_alert :
    (view Mode.login
      (View.handle Mode.login
        (answered (api_failure (codes "invalid username or password")))
        filled).0).alert
    ≡ some (codes "invalid username or password")
unfolding view View.handle
login_alert = refl
