-- ===== src/Session/Login/View.antt =====
-- web/src/pages/AuthPage.tsx: the page around the form, from the first key to the answer.
use restic_ui.Base.{
  Bool, true, false, not, ◌&&◌, ◌||◌, Option, none, some, List, [], ◌∷◌, if◌then◌else◌,
}
use restic_ui.Base.Text.{Text, codes, is_empty}
use restic_ui.Session.Login.{
  Mode, AuthForm, Credentials, submit_auth, Failure, no_failure, shown_error,
}

-- The form, and the mutation: whether its request is under way, and how the last one failed.
pub record AuthPage : Type 0 where
  pub form : AuthForm
  pub is_pending : Bool
  pub failure : Failure

abbrev pub initial : AuthPage
initial = record {
  form = record { username = []; password = []; confirm = []; local_error = [] };
  is_pending = false;
  failure = no_failure;
}

pub data Event : Type 0 where
  type_username type_password type_confirm : Text → Event
  submit : Event
  answered : Failure → Event

-- The browser does not submit a form in which a required input is empty, or whose button is disabled.
abbrev pub is_complete : Mode → AuthForm → Bool
is_complete Mode.login s = not (is_empty s.username) && not (is_empty s.password)
is_complete Mode.setup s =
    not (is_empty s.username) && not (is_empty s.password) && not (is_empty s.confirm)

abbrev pub after_submit : AuthForm × Option Credentials → AuthPage → AuthPage
after_submit (form, none) s = record s { form = form }
after_submit (form, some c) s = record { form = form; is_pending = true; failure = no_failure }

-- The page after an event, and the credentials that it sends.
unfoldable pub handle : Mode → Event → AuthPage → AuthPage × Option Credentials
unfolding submit_auth
handle mode (type_username v) s = (record s { form = record s.form { username = v } }, none)
handle mode (type_password v) s = (record s { form = record s.form { password = v } }, none)
handle mode (type_confirm v) s = (record s { form = record s.form { confirm = v } }, none)
handle mode submit s =
    if s.is_pending || not (is_complete mode s.form)
    then (s, none)
    else (after_submit (submit_auth mode s.form) s, (submit_auth mode s.form).1)
handle mode (answered failure) s = (record s { is_pending = false; failure = failure }, none)

-- An input: its label, and what the browser may fill in.
pub record Field : Type 0 where
  pub label : Text
  pub auto_complete : Text
  pub value : Text

abbrev pub field : Text → Text → Text → Field
field label auto_complete value = record {
  label = label;
  auto_complete = auto_complete;
  value = value;
}

unfoldable pub fields : Mode → AuthForm → List Field
fields Mode.login s =
    field (codes "Username") (codes "username") s.username
    ∷ field (codes "Password") (codes "current-password") s.password
    ∷ []
fields Mode.setup s =
    field (codes "Username") (codes "username") s.username
    ∷ field (codes "Password") (codes "new-password") s.password
    ∷ field (codes "Confirm password") (codes "new-password") s.confirm
    ∷ []

abbrev pub description : Mode → Text
description Mode.login = codes "Sign in to manage your backups."
description Mode.setup = codes "Welcome! Create your admin account to get started."

abbrev pub button_text : Mode → Text
button_text Mode.login = codes "Sign in"
button_text Mode.setup = codes "Create account"

pub record AuthView : Type 0 where
  pub description : Text
  pub fields : List Field
  pub alert : Option Text
  pub button : Text
  pub spinner : Bool
  pub disabled : Bool

-- `error && <p role="alert">`
abbrev pub alert_of : Text → Option Text
alert_of e = if is_empty e then none else some e

unfoldable pub view : Mode → AuthPage → AuthView
unfolding shown_error
view mode s = record {
  description = description mode;
  fields = fields mode s.form;
  alert = alert_of (shown_error s.form s.failure);
  button = button_text mode;
  spinner = s.is_pending;
  disabled = s.is_pending;
}
