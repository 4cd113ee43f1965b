-- ===== src/Server/Guard.antt =====
-- internal/auth/middleware.go, internal/auth/auth.go and internal/api/auth_handlers.go: who a request
-- comes from, whether it passes, and the sessions in the database. A time is in milliseconds; the
-- database stores the end of a session in whole seconds. SHA-256 is a parameter, as are the random
-- tokens.
pub mod Lifetime
pub mod Account
pub mod Browser
mod Tests
use restic_ui.Base.{
  ℕ, ◌+◌, ◌*◌, ◌/◌, Bool, true, false, not, ◌&&◌, ◌||◌, Option, none, some, List, [], ◌∷◌, ltb,
  if◌then◌else◌, filter, find?,
}
use restic_ui.Base.Text.{Text, codes, text_eq, is_empty}
use restic_ui.Session.{AuthState}

-- A row of the table `sessions`, joined with the name of its user.
pub record Row : Type 0 where
  pub token_hash : Text
  pub username : Text
  pub csrf_token : Text
  pub expires : ℕ

-- The Session that is attached to a request.
pub record Caller : Type 0 where
  pub username : Text
  pub csrf_token : Text

-- `SessionTTL`, 7 * 24 hours
abbrev pub session_ttl : ℕ
session_ttl = 604800000

abbrev pub caller_of : Row → Caller
caller_of row = record { username = row.username; csrf_token = row.csrf_token }

-- `time.Now().After(sess.ExpiresAt)`
abbrev pub is_expired : ℕ → Row → Bool
is_expired now row = ltb (row.expires * 1000) now

module _ (hash_token : Text → Text) where
  abbrev pub has_token : Text → Row → Bool
  has_token token row = text_eq row.token_hash (hash_token token)

  abbrev pub without_token : Text → List Row → List Row
  without_token token rows = filter (λ row. not (has_token token row)) rows

  -- The end of `Login`, for a user whose password was right.
  unfoldable pub login : ℕ → (token csrf username : Text) → List Row → List Row
  login now token csrf username rows =
      record {
        token_hash = hash_token token;
        username = username;
        csrf_token = csrf;
        expires = (now + session_ttl) / 1000;
      }
      ∷ rows

  abbrev pub get_found : ℕ → Text → Option Row → List Row → List Row × Option Caller
  get_found now token none rows = (rows, none)
  get_found now token (some row) rows =
      if is_expired now row then (without_token token rows, none) else (rows, some (caller_of row))

  -- `GetSession`: the rows after it, since it deletes an expired session, and the session.
  unfoldable pub get_session : ℕ → Text → List Row → List Row × Option Caller
  get_session now token rows = get_found now token (find? (has_token token) rows) rows

  unfoldable pub logout : Text → List Row → List Row
  logout token rows = without_token token rows

-- `PruneExpired` compares whole seconds.
unfoldable pub prune_expired : ℕ → List Row → List Row
prune_expired now rows = filter (λ row. not (ltb row.expires (now / 1000))) rows

-- How the server is configured: `AUTH_DISABLED`, and whether `TRUSTED_PROXY_HEADER` is set.
pub record Config : Type 0 where
  pub auth_disabled : Bool
  pub trusts_proxy : Bool

-- The methods that a request can have; `other` is any that is not named here.
pub data HttpMethod : Type 0 where
  get head options post put delete other : HttpMethod

-- A request; a header or a cookie that is not there reads as the empty text. `proxy_user` is the
-- value of the trusted header.
pub record Request : Type 0 where
  pub method : HttpMethod
  pub proxy_user : Text
  pub cookie : Text
  pub csrf_header : Text

module _ (hash_token : Text → Text) where
  -- `Middleware`
  unfoldable pub identify : Config → ℕ → Request → List Row → List Row × Option Caller
  unfolding get_session
  identify cfg now r rows =
      if cfg.auth_disabled
      then (rows, some (record { username = codes "admin"; csrf_token = [] }))
      else if cfg.trusts_proxy && not (is_empty r.proxy_user)
      then (rows, some (record { username = r.proxy_user; csrf_token = [] }))
      else if is_empty r.cookie
      then (rows, none)
      else get_session hash_token now r.cookie rows

pub data Verdict : Type 0 where
  unauthenticated missing_token invalid_token : Verdict
  passed : Caller → Verdict

abbrev pub is_safe : HttpMethod → Bool
is_safe HttpMethod.get = true
is_safe HttpMethod.head = true
is_safe HttpMethod.options = true
is_safe _ = false

-- `RequireAuth`
unfoldable pub require_auth : Request → Option Caller → Verdict
require_auth r none = unauthenticated
require_auth r (some c) =
    if is_safe r.method
    then passed c
    else if is_empty r.csrf_header
    then missing_token
    else if not (is_empty c.csrf_token) && not (text_eq r.csrf_header c.csrf_token)
    then invalid_token
    else passed c

-- A string that `omitempty` leaves out when it is empty.
abbrev pub omit_empty : Text → Option Text
omit_empty t = if is_empty t then none else some t

abbrev pub token_for : Text → Text
token_for t = if is_empty t then codes "bypass" else t

-- `handleAuthMe`, where the users can be counted.
unfoldable pub auth_me : Config → Bool → Option Caller → AuthState
auth_me cfg has_users none = record {
  setup_required = not has_users && not (cfg.auth_disabled || cfg.trusts_proxy);
  authenticated = false;
  username = none;
  csrf_token = none;
}
auth_me cfg has_users (some c) = record {
  setup_required = not has_users && not (cfg.auth_disabled || cfg.trusts_proxy);
  authenticated = true;
  username = omit_empty c.username;
  csrf_token = some (token_for c.csrf_token);
}

-- The answer of `loginAndRespond` to a login that succeeded.
unfoldable pub login_answer : Caller → AuthState
login_answer c = record {
  setup_required = false;
  authenticated = true;
  username = omit_empty c.username;
  csrf_token = omit_empty c.csrf_token;
}
