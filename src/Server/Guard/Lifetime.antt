-- ===== src/Server/Guard/Lifetime.antt =====
-- internal/auth/auth.go: how long a session lives.
pub mod Kept
use restic_ui.Base.{
  ℕ, ◌+◌, ◌*◌, ◌/◌, ◌≤◌, ◌≡◌, ◌≢◌, refl, Bool, true, false, not, Option, none, some, List, [], ◌∷◌,
  All, arith, ltb, filter, find?, ◌∙◌, Bool-cases, inl, ◌⊎◌, inr, subst, sym,
}
use restic_ui.Base.Text.{Text, text_eq, text_eq_iff, text_eq_refl}
use restic_ui.Server.Guard.{
  Row, session_ttl, caller_of, has_token, without_token, login, is_expired, get_session, logout,
  prune_expired, get_found,
}

-- What the server does to the sessions: it logs a user in, looks up the session of a request, logs
-- one out, or prunes.
pub data Access : Type 0 where
  logged_in : ℕ → (token csrf username : Text) → Access
  looked_up : ℕ → (token : Text) → Access
  logged_out : (token : Text) → Access
  pruned : ℕ → Access

module _ {ℓ} {A : Type ℓ} where
  pub find?-filter :
      (p q : A → Bool) (x : A) (xs : List A)
      → find? p xs ≡ some x
      → q x ≡ true
      → find? p (filter q xs) ≡ some x
  find?-filter p q x [] e h = absurd (cc e)
  find?-filter p q x (y ∷ ys) e h = ground (arith, find?-filter p q x ys)

  pub find?-filter-none :
      (p q : A → Bool) (xs : List A) → find? p xs ≡ none → find? p (filter q xs) ≡ none
  find?-filter-none p q [] e = refl
  find?-filter-none p q (y ∷ ys) e = ground (arith, find?-filter-none p q ys)

  pub find?-filter_self : (p : A → Bool) (xs : List A) → find? p (filter (λ x. not (p x)) xs) ≡ none
  find?-filter_self p [] = refl
  find?-filter_self p (y ∷ ys) = ground (arith, find?-filter_self p ys)

module _ (hash_token : Text → Text) where
  unfoldable pub access : Access → List Row → List Row
  access (logged_in now token csrf user) rows = login hash_token now token csrf user rows
  access (looked_up now token) rows = (get_session hash_token now token rows).0
  access (logged_out token) rows = logout hash_token token rows
  access (pruned now) rows = prune_expired now rows

  unfoldable pub access_all : List Access → List Row → List Row
  unfolding access
  access_all [] rows = rows
  access_all (a ∷ later) rows = access_all later (access a rows)

  -- Another login does not give out a token with the same hash.
  abbrev pub IsOther : Text → Access → Type 0
  IsOther token (logged_in now other csrf user) = hash_token other ≢ hash_token token
  IsOther token _ = Unit

  -- What happens no later than `end` and is no logout of the session itself.
  abbrev pub Spares : ℕ → Text → Access → Type 0
  Spares end token (logged_in now other csrf user) = hash_token other ≢ hash_token token
  Spares end token (looked_up now other) = now ≤ end
  Spares end token (logged_out other) = hash_token other ≢ hash_token token
  Spares end token (pruned now) = now ≤ end
