-- ===== src/Server/Guard/Account.antt =====
-- internal/api/auth_handlers.go: handleAuthSetup, which creates the first account, with CreateUser of
-- internal/auth/auth.go; and the form of web/src/pages/AuthPage.tsx that asks for it. The database
-- can be read and written.
use restic_ui.Base.{
  ℕ, ◌≤◌, ◌≡◌, ◌≢◌, ◌↔◌, refl, Bool, true, false, ◌||◌, Option, none, some, [], ltb, length,
  if◌then◌else◌, is_some, arith, ◌∷◌, ap,
}
use restic_ui.Base.Text.{Text, is_empty}
use restic_ui.Session.Login.{Mode, AuthForm, Credentials, credentials, submit_auth}

-- The answer: 409, 400, 500, or the account under which the caller is then logged in.
pub data SetupAnswer : Type 0 where
  conflict bad_request failed : SetupAnswer
  created : (username : Text) → (password_hash : Text) → SetupAnswer

abbrev pub is_created : SetupAnswer → Bool
is_created (created u h) = true
is_created _ = false

-- What the libraries do: `strings.TrimSpace`, the length of a text in bytes, and bcrypt's hash, which
-- fails for some passwords.
module _ (trim_space : Text → Text) (byte_length : Text → ℕ) (hash : Text → Option Text) where
  abbrev pub create_user : Text → Option Text → SetupAnswer
  create_user username none = failed
  create_user username (some h) = created username h

  unfoldable pub handle_setup : Bool → Credentials → SetupAnswer
  handle_setup has_users c =
      if has_users
      then conflict
      else if is_empty (trim_space c.username) || ltb (byte_length c.password) 8
      then bad_request
      else create_user (trim_space c.username) (hash c.password)

-- `GenerateFromPassword` accepts a password exactly if it has at most 72 bytes.
abbrev pub IsBcrypt : (Text → ℕ) → (Text → Option Text) → Type 0
IsBcrypt byte_length hash = (p : Text) → (is_some (hash p) ≡ true) ↔ (byte_length p ≤ 72)

sent-acceptable :
    (s : AuthForm) (c : Credentials)
    → (submit_auth Mode.setup s).1 ≡ some c
    → (credentials s ≡ c) × (8 ≤ length s.password)
unfolding submit_auth
sent-acceptable s c e = ground arith

created_cases :
    (trim_space : Text → Text) (byte_length : Text → ℕ) (hash : Text → Option Text) (name : Text)
    (n : ℕ) (h : Option Text)
    → 8 ≤ n
    → (is_created (
          if is_empty name || ltb n 8
          then bad_request
          else create_user trim_space byte_length hash name h)
        ≡ true)
      ↔ ((name ≢ []) × (is_some h ≡ true))
created_cases trim_space byte_length hash [] n h long = (λ e. ground arith, λ e. absurd (e.0 refl))
created_cases trim_space byte_length hash (x ∷ name) n none long = ground arith
created_cases trim_space byte_length hash (x ∷ name) n (some h) long =
    (λ e. ((λ e. cc e), refl), λ e. ground arith)

-- Where there is no account yet: what the form sends to create one does so exactly if the name is
-- not blank and the password has at most 72 bytes; so the form lets other ones pass, but the server
-- never refuses a password that the form has let pass as too short. A text has no fewer bytes than
-- it has code units, and bcrypt hashes a password exactly if it has at most 72 bytes.
pub handle_setup-submit_auth :
    (trim_space : Text → Text) (byte_length : Text → ℕ) (hash : Text → Option Text)
    → ((t : Text) → length t ≤ byte_length t)
    → IsBcrypt byte_length hash
    → (s : AuthForm) (c : Credentials) → (submit_auth Mode.setup s).1 ≡ some c
    → (is_created (handle_setup trim_space byte_length hash false c) ≡ true)
      ↔ ((trim_space c.username ≢ []) × (byte_length c.password ≤ 72))
unfolding handle_setup
handle_setup-submit_auth trim_space byte_length hash no_fewer bcrypt s c sent =
    let (same, enough) = sent-acceptable s c sent in
    let long : 8 ≤ byte_length c.password =
      omega
        (arith, enough, no_fewer c.password, ap (λ (x : Credentials). length x.password) same) in
    let both =
      created_cases trim_space byte_length hash (trim_space c.username) (byte_length c.password)
        (hash c.password) long in
    let kept = bcrypt c.password in
    (λ e. let (named, hashed) = both.0 e in (named, kept.0 hashed), λ e. both.1 (e.0, kept.1 e.1))
