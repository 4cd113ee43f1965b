-- ===== src/Server/Guard/Browser.antt =====
-- web/src/lib/api.ts with internal/auth/middleware.go: the requests of the front end pass.
use restic_ui.Base.{
  ℕ, ◌≡◌, refl, ap, sym, ◌∙◌, Bool, true, false, Option, none, some, List, [], ◌∷◌, arith, ◌↔◌, ◌⊎◌,
  ◌≢◌, inl, Bool-cases, inr,
}
use restic_ui.Base.Text.{Text, text_eq, text_eq_iff, codes}
use restic_ui.Session.{AuthState, initial, Event, run}
use restic_ui.Session.Requests.{Method, Sent, send, is_mutating}
use restic_ui.Session.Sync.{send-run}
use restic_ui.Server.Guard.{
  Row, Caller, Config, HttpMethod, Request, identify, passed, is_safe, require_auth, auth_me,
  token_for, login_answer, omit_empty,
}

abbrev pub http_method : Method → HttpMethod
http_method Method.get = HttpMethod.get
http_method Method.post = HttpMethod.post
http_method Method.put = HttpMethod.put
http_method Method.delete = HttpMethod.delete

-- `Header.Get`
abbrev pub header_value : Option Text → Text
header_value none = []
header_value (some t) = t

-- What reaches the server of a request, with the proxy's header and the browser's cookie.
abbrev pub delivered {ℓ} : {B : Type ℓ} → (proxy_user cookie : Text) → Sent B → Request
delivered user cookie s = record {
  method = http_method s.method;
  proxy_user = user;
  cookie = cookie;
  csrf_header = header_value s.csrf_header;
}

-- What the server answers about the session of a caller: to /api/auth/me, or to a login.
pub data IsAnswer (cfg : Config) (has_users : Bool) (c : Caller) (a : AuthState) : Type 0 where
  of_me : a ≡ auth_me cfg has_users (some c) → IsAnswer cfg has_users c a
  of_login : c.csrf_token ≢ [] → a ≡ login_answer c → IsAnswer cfg has_users c a

token_for-ne_nil : (t : Text) → (n : ℕ) × (rest : Text) × (token_for t ≡ n ∷ rest)
token_for-ne_nil [] = (b'b', codes "ypass", refl)
token_for-ne_nil (n ∷ rest) = (n, rest, refl)

login-token : (t : Text) → t ≢ [] → omit_empty t ≡ some (token_for t)
login-token [] h = absurd (h refl)
login-token (n ∷ rest) h = refl

answer-token :
    (cfg : Config) (has_users : Bool) (c : Caller) (a : AuthState)
    → IsAnswer cfg has_users c a
    → a.csrf_token ≡ some (token_for c.csrf_token)
unfolding auth_me login_answer
answer-token cfg has_users c a (of_me e) = ap (λ (x : AuthState). x.csrf_token) e
answer-token cfg has_users c a (of_login h e) =
    ap (λ (x : AuthState). x.csrf_token) e ∙ login-token c.csrf_token h

-- Whether a caller's requests with a token pass.
abbrev pub Admits : Method → Text → Caller → Type 0
Admits method token c =
    (is_mutating method ≡ false) ⊎ ((c.csrf_token ≡ []) ⊎ (c.csrf_token ≡ token))

or_right : {P Q S : Type 0} → (P ↔ (Q ⊎ S)) → P ↔ ((true ≡ false) ⊎ (Q ⊎ S))
or_right e = (λ p. inr (e.0 p), λ q. elim q [ inl h ↦ absurd (cc h) | inr h ↦ e.1 h ])

mutating_iff :
    (r : Request) (c : Caller) (n : ℕ) (rest t : Text)
    → is_safe r.method ≡ false
    → r.csrf_header ≡ n ∷ rest
    → c.csrf_token ≡ t
    → (require_auth r (some c) ≡ passed c) ↔ ((c.csrf_token ≡ []) ⊎ (c.csrf_token ≡ n ∷ rest))
unfolding require_auth
mutating_iff r c n rest [] safe header e = (λ p. inl e, λ p. ground (arith, e))
mutating_iff r c n rest (m ∷ t) safe header e =
    elim (Bool-cases (text_eq r.csrf_header c.csrf_token)) [
      | inl same ↦ (
        λ p. inr (sym ((text_eq_iff r.csrf_header c.csrf_token).0 same) ∙ header),
        λ p. ground (arith, same, e),
      )
      | inr differs ↦ (
        λ p. absurd (ground (arith, differs, e)),
        λ p. elim p [
          | inl none_given ↦ absurd (cc (none_given, e))
          | inr same ↦
              absurd (cc ((text_eq_iff r.csrf_header c.csrf_token).1 (header ∙ sym same), differs))
        ],
      )
    ]

passed_iff :
    (method : Method) (r : Request) (c : Caller) (n : ℕ) (rest : Text)
    → r.method ≡ http_method method
    → (is_mutating method ≡ true → r.csrf_header ≡ n ∷ rest)
    → (require_auth r (some c) ≡ passed c) ↔ Admits method (n ∷ rest) c
unfolding require_auth
passed_iff Method.get r c n rest e h = (λ p. inl refl, λ p. ground (arith, e))
passed_iff Method.post r c n rest e h =
    or_right (mutating_iff r c n rest c.csrf_token (ground (arith, e)) (h refl) refl)
passed_iff Method.put r c n rest e h =
    or_right (mutating_iff r c n rest c.csrf_token (ground (arith, e)) (h refl) refl)
passed_iff Method.delete r c n rest e h =
    or_right (mutating_iff r c n rest c.csrf_token (ground (arith, e)) (h refl) refl)

-- After any answers, logins and logouts, while the cached state is not invalidated and is the
-- server's answer about a caller: a request of the front end that comes from a caller `c'` passes
-- exactly if it is a GET, or `c'` comes without a token (since authentication is disabled, or by
-- the proxy's header), or the token of its session is the one of that answer. So the requests pass
-- while the browser stays in the session that it was told of.
pub send-passes :
    (hash_token : Text → Text) (events : List Event) (cfg : Config) (has_users : Bool) (now : ℕ)
    (rows : List Row) (a : AuthState) (c c' : Caller) (method : Method) (path user cookie : Text)
    (r : Request) {B : Type 0} (body : Option B)
    → (run events initial).stale ≡ false
    → (run events initial).auth ≡ some a
    → IsAnswer cfg has_users c a
    → r ≡ delivered user cookie (send (run events initial).token method path body)
    → (identify hash_token cfg now r rows).1 ≡ some c'
    → (require_auth r (identify hash_token cfg now r rows).1 ≡ passed c')
      ↔ Admits method (token_for c.csrf_token) c'
send-passes hash_token events cfg has_users now rows a c c' method path user cookie r body fresh
      cached answer made from =
    let (n, rest, e) = token_for-ne_nil c.csrf_token in
    let header =
      send-run events a n rest method path body fresh cached
        (answer-token cfg has_users c a answer ∙ ap some e) in
    rw (from, e)
      (passed_iff method r c' n rest (ap (λ (x : Request). x.method) made ∙ (unfold send in refl))
        (λ m. ap (λ (x : Request). x.csrf_header) made ∙ (ap header_value header ∙ rw m refl)))
