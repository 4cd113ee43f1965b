-- ===== src/Session/Sync.antt =====
-- web/src/lib/api.ts, web/src/hooks/useAuth.ts, web/src/App.tsx: the token follows the session.
use restic_ui.Base.{
  ℕ, Bool, true, false, Option, none, some, List, [], ◌∷◌, ◌≡◌, refl, sym, ap, ◌∙◌, subst,
  if◌then◌else◌, arith,
}
use restic_ui.Base.Text.{Text}
use restic_ui.Session.{
  AuthState, Session, initial, keep_token, Event, fetched, fetch_failed, signed_in, signed_out,
  handle, run, shell, app, stream_enabled, shown_for, login, app_for, is_authenticated,
}
use restic_ui.Session.Requests.{Method, is_mutating, send}

-- The token is the one that the cached answer gives, if it gives one.
abbrev Gives : Option AuthState → Text → Type 0
Gives none token = Unit
Gives (some a) token = keep_token a.csrf_token token ≡ token

abbrev pub IsInSync : Session → Type 0
IsInSync s = s.stale ≡ false → Gives s.auth s.token

keep_token_idem :
    (t : Option Text) (old : Text) → keep_token t (keep_token t old) ≡ keep_token t old
keep_token_idem none old = refl
keep_token_idem (some t) old = ground arith

handle-IsInSync : (e : Event) (s : Session) → IsInSync s → IsInSync (handle e s)
unfolding handle
handle-IsInSync (fetched a) s h fresh = keep_token_idem a.csrf_token s.token
handle-IsInSync fetch_failed s h fresh = h fresh
handle-IsInSync (signed_in a) s h fresh = keep_token_idem a.csrf_token s.token
handle-IsInSync signed_out s h fresh = cc fresh

pub run-IsInSync : (events : List Event) (s : Session) → IsInSync s → IsInSync (run events s)
unfolding run
run-IsInSync [] s h = h
run-IsInSync (e ∷ events) s h = run-IsInSync events (handle e s) (handle-IsInSync e s h)

token-given :
    (s : Session) (a : AuthState) (c : ℕ) (t : Text)
    → s.auth ≡ some a
    → a.csrf_token ≡ some (c ∷ t)
    → Gives s.auth s.token
    → s.token ≡ c ∷ t
token-given s a c t cached given h =
    sym (subst (λ o. Gives o s.token) cached h) ∙ ap (λ o. keep_token o s.token) given

-- Whatever answers, logins and logouts the session has seen since the page was loaded: while the
-- cached state is not invalidated and gives a token that is not empty, a POST, PUT or DELETE carries
-- that token, and a GET carries none.
pub send-run :
    (events : List Event) (a : AuthState) (c : ℕ) (t : Text) {B : Type 0} (method : Method)
    (path : Text) (body : Option B)
    → (run events initial).stale ≡ false
    → (run events initial).auth ≡ some a
    → a.csrf_token ≡ some (c ∷ t)
    → (send (run events initial).token method path body).csrf_header
      ≡ (if is_mutating method then some (c ∷ t) else none)
send-run events a c t method path body fresh cached given =
    unfold send in
    ap (λ token. if is_mutating method then some token else none)
      (token-given (run events initial) a c t cached given
        (run-IsInSync events initial (λ e. tt) fresh))

shown_for-shell :
    (a : AuthState) (user : Option Text) → shown_for a ≡ shell user → a.authenticated ≡ true
shown_for-shell a user h = ground arith

app_for-shell :
    (failed : Bool) (auth : Option AuthState) (user : Option Text)
    → app_for failed auth ≡ shell user
    → (failed ≡ false) × (is_authenticated auth ≡ true)
app_for-shell true auth user h = ground arith
app_for-shell false none user h = ground arith
app_for-shell false (some a) user h = (refl, shown_for-shell a user h)

-- The application shows its pages only while the last fetch of the session did not fail and the
-- event stream is enabled; after a login that answers with an authenticated session it shows them,
-- and after any login or setup it does not ask for a setup.
pub app_lem :
    (s : Session) (a : AuthState) (user : Option Text)
    → (app s ≡ shell user → (s.is_error ≡ false) × (stream_enabled s ≡ true))
      × (app (handle (signed_in a) s) ≡ (if a.authenticated then shell a.username else login))
unfolding app stream_enabled handle
app_lem s a user = (app_for-shell s.is_error s.auth user, refl)
