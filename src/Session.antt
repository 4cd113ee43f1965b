-- ===== src/Session.antt =====
-- web/src/lib/api.ts, web/src/hooks/useAuth.ts, web/src/App.tsx: requests with their CSRF token, the
-- cached state of the session, and what the application shows for it.
pub mod Requests
pub mod Login
pub mod Sync
mod Tests
use restic_ui.Base.{
  ℕ, Bool, true, false, not, ◌&&◌, Option, none, some, List, [], ◌∷◌, if◌then◌else◌, is_some,
}
use restic_ui.Base.Text.{Text, is_empty}

pub record AuthState : Type 0 where
  pub setup_required : Bool
  pub authenticated : Bool
  pub username : Option Text
  pub csrf_token : Option Text

-- `csrfToken` of the module, and the entry "auth" of the query cache: its data, whether it is
-- invalidated, and whether the last fetch failed.
pub record Session : Type 0 where
  pub token : Text
  pub auth : Option AuthState
  pub stale : Bool
  pub is_error : Bool

abbrev pub initial : Session
initial = record { token = []; auth = none; stale = false; is_error = false }

-- `if (state.csrfToken) setCsrfToken(state.csrfToken)`
abbrev pub keep_token : Option Text → Text → Text
keep_token none old = old
keep_token (some t) old = if is_empty t then old else t

-- What happens to the session: an answer of /api/auth/me, a fetch of it that fails, and the success
-- of a login (or a setup) and of a logout.
pub data Event : Type 0 where
  fetched : AuthState → Event
  fetch_failed : Event
  signed_in : AuthState → Event
  signed_out : Event

unfoldable pub handle : Event → Session → Session
handle (fetched a) s = record {
  token = keep_token a.csrf_token s.token;
  auth = some a;
  stale = false;
  is_error = false;
}
handle fetch_failed s = record s { is_error = true }
handle (signed_in a) s = record {
  token = keep_token a.csrf_token s.token;
  auth = some (record a { setup_required = false });
  stale = false;
  is_error = false;
}
handle signed_out s = record s { token = []; stale = true }

unfoldable pub run : List Event → Session → Session
unfolding handle
run [] s = s
run (e ∷ events) s = run events (handle e s)

pub data Shown : Type 0 where
  spinner unreachable setup login : Shown
  shell : Option Text → Shown

abbrev pub shown_for : AuthState → Shown
shown_for a =
    if a.setup_required then setup else if a.authenticated then shell a.username else login

-- What `App` renders. The query is loading until it has data or has failed.
abbrev pub app_for : Bool → Option AuthState → Shown
app_for true auth = unreachable
app_for false none = spinner
app_for false (some a) = shown_for a

unfoldable pub app : Session → Shown
app s = app_for s.is_error s.auth

abbrev pub is_authenticated : Option AuthState → Bool
is_authenticated none = false
is_authenticated (some a) = a.authenticated

-- `useEventStream(Boolean(auth?.authenticated))`
unfoldable pub stream_enabled : Session → Bool
stream_enabled s = is_authenticated s.auth
