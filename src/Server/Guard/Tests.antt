-- ===== src/Server/Guard/Tests.antt =====
-- Sessions and requests on small inputs.
use restic_ui.Base.{ℕ, ◌≡◌, ◌↔◌, refl, true, false, none, some, List, [], ◌∷◌, arith, Option}
use restic_ui.Base.Text.{Text, codes}
use restic_ui.Session.{initial, Event, signed_in, run}
use restic_ui.Session.Requests.{Method, send}
use restic_ui.Server.Guard.{
  Row, Caller, Config, Request, login, logout, get_session, identify, passed, invalid_token,
  require_auth, login_answer,
}
use restic_ui.Server.Guard.Lifetime.{Access, logged_in, looked_up, pruned, access_all}
use restic_ui.Server.Guard.Lifetime.Kept.{login_logout_lem}
use restic_ui.Server.Guard.Browser.{delivered, of_login, Admits, send-passes}
use restic_ui.Base.{if◌then◌else◌, leb, length, ◌≢◌, ◌≤◌, Option}
use restic_ui.Session.Login.{Mode, AuthForm, credentials, submit_auth}
use restic_ui.Server.Guard.Account.{IsBcrypt, handle_setup, is_created, handle_setup-submit_auth}

-- Any injective function will do as a hash.
abbrev hash : Text → Text
hash t = t

abbrev admin : Caller
admin = record { username = codes "admin"; csrf_token = codes "k1" }

abbrev rows : List Row
rows = login hash 5000 (codes "c1") (codes "k1") (codes "admin") []

abbrev by_cookie : Config
by_cookie = record { auth_disabled = false; trusts_proxy = false }

abbrev events : List Event
events = signed_in (login_answer admin) ∷ []

abbrev deletion : Request
deletion =
    delivered [] (codes "c1")
      (send {Body = ℕ} (run events initial).token Method.delete (codes "/api/plans/1") none)

identified : (identify hash by_cookie 6000 deletion rows).1 ≡ some admin
unfolding identify get_session login run send login_answer
identified = refl

send-passes_example :
    (require_auth deletion (identify hash by_cookie 6000 deletion rows).1 ≡ passed admin)
    ↔ Admits Method.delete (codes "k1") admin
unfolding run login_answer
send-passes_example =
    send-passes hash events by_cookie true 6000 rows (login_answer admin) admin admin Method.delete
      (codes "/api/plans/1") [] (codes "c1") deletion {B = ℕ} none refl refl
      (of_login (λ e. cc e) refl) refl identified

-- Another tab has signed in anew.
other_tab : require_auth deletion (some (record admin { csrf_token = codes "k2" })) ≡ invalid_token
unfolding require_auth run send login_answer
other_tab = refl

abbrev week : List Access
week =
    logged_in 9000 (codes "c2") (codes "k2") (codes "admin")
    ∷ looked_up 600000000 (codes "c1")
    ∷ pruned 604805000
    ∷ []

login_logout_lem_example :
    ((get_session hash 604805000 (codes "c1") (access_all hash week rows)).1 ≡ some admin)
    × ((get_session hash 9000
          (codes "c1")
          (access_all hash week (logout hash (codes "c1") (access_all hash week rows)))).1
        ≡ none)
login_logout_lem_example =
    login_logout_lem hash (codes "c1") (codes "k1") (codes "admin") 5000 604805000 9000 [] week week
      ((λ e. ground arith), (omega arith, (omega arith, tt))) (omega arith)
      ((λ e. ground arith), (tt, (tt, tt)))

abbrev bcrypt : Text → Option Text
bcrypt p = if leb (length p) 72 then some p else none

bcrypt_lem : IsBcrypt length bcrypt
bcrypt_lem p = ground arith

abbrev new_admin : AuthForm
new_admin = record {
  username = codes "admin";
  password = codes "long enough";
  confirm = codes "long enough";
  local_error = [];
}

submitted : (submit_auth Mode.setup new_admin).1 ≡ some (credentials new_admin)
unfolding submit_auth
submitted = refl

handle_setup-submit_auth_example :
    (is_created (handle_setup (λ t. t) length bcrypt false (credentials new_admin)) ≡ true)
    ↔ ((codes "admin" ≢ []) × (length (codes "long enough") ≤ 72))
handle_setup-submit_auth_example =
    handle_setup-submit_auth (λ t. t) length bcrypt (λ t. omega arith) bcrypt_lem new_admin
      (credentials new_admin) submitted
