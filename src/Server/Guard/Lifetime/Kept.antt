-- ===== src/Server/Guard/Lifetime/Kept.antt =====
-- internal/auth/auth.go: a session is found until it ends or is logged out.
use restic_ui.Base.{
  ℕ, ◌+◌, ◌*◌, ◌/◌, ◌≤◌, ◌≡◌, ◌≢◌, refl, false, not, Option, none, some, List, [], ◌∷◌, All, arith,
  ltb, find?, ◌∙◌, Bool-cases, inl, ◌⊎◌, inr, subst, sym,
}
use restic_ui.Base.Text.{Text, text_eq, text_eq_iff, text_eq_refl}
use restic_ui.Server.Guard.{
  Row, session_ttl, caller_of, has_token, without_token, login, is_expired, get_session, logout,
  prune_expired, get_found,
}
use restic_ui.Server.Guard.Lifetime.{
  Access, logged_in, looked_up, logged_out, pruned, access, access_all, IsOther, Spares,
  find?-filter, find?-filter-none, find?-filter_self,
}

module _ (hash_token : Text → Text) where
  module _ (token : Text) where
    -- What is found under the token.
    abbrev found : List Row → Option Row
    found rows = find? (has_token hash_token token) rows

    found-login :
        (now : ℕ) (other csrf user : Text) (rows : List Row)
        → hash_token other ≢ hash_token token
        → found (login hash_token now other csrf user rows) ≡ found rows
    unfolding login
    found-login now other csrf user rows differs =
        ground (arith, text_eq_iff (hash_token other) (hash_token token))

    get_found-keeps :
        (now : ℕ) (other : Text) (row : Row) (rows : List Row)
        → is_expired now row ≡ false
        → (get_found hash_token now other (some row) rows).0 ≡ rows
    get_found-keeps now other row rows h = rw h refl

    get_found_cases :
        (now : ℕ) (other : Text) (o : Option Row) (rows : List Row)
        → ((get_found hash_token now other o rows).0 ≡ rows)
          ⊎ ((get_found hash_token now other o rows).0 ≡ without_token hash_token other rows)
    get_found_cases now other none rows = inl refl
    get_found_cases now other (some row) rows = elim (Bool-cases (is_expired now row)) [
      | inl h ↦ inr (rw h refl)
      | inr h ↦ inl (rw h refl)
    ]

    -- Another session's rows can go.
    found-without :
        (other : Text) (row : Row) (rows : List Row)
        → row.token_hash ≡ hash_token token
        → hash_token other ≢ hash_token token
        → found rows ≡ some row
        → found (without_token hash_token other rows) ≡ some row
    found-without other row rows own differs e =
        find?-filter (has_token hash_token token) (λ x. not (has_token hash_token other x)) row rows
          e (ground (arith, text_eq_iff row.token_hash (hash_token other)))

    found-lookup :
        (now : ℕ) (other : Text) (row : Row) (rows : List Row)
        → row.token_hash ≡ hash_token token
        → now ≤ row.expires * 1000
        → found rows ≡ some row
        → found (get_session hash_token now other rows).0 ≡ some row
    unfolding get_session
    found-lookup now other row rows own early e =
        elim (Bool-cases (text_eq (hash_token other) (hash_token token))) [
          | inl same ↦
              let e' : hash_token other ≡ hash_token token =
                (text_eq_iff (hash_token other) (hash_token token)).0 same in
              let there : find? (has_token hash_token other) rows ≡ some row =
                subst (λ h. find? (λ (x : Row). text_eq x.token_hash h) rows ≡ some row) (sym e')
                  e in
              rw (there, get_found-keeps now other row rows (ground arith)) e
          | inr differs ↦
              let e' : hash_token other ≢ hash_token token =
                λ e. cc ((text_eq_iff (hash_token other) (hash_token token)).1 e, differs) in
              elim (get_found_cases now other (find? (has_token hash_token other) rows) rows) [
                | inl kept ↦ rw kept e
                | inr gone ↦ rw gone (found-without other row rows own e' e)
              ]
        ]

    found-access :
        (a : Access) (row : Row) (rows : List Row)
        → row.token_hash ≡ hash_token token
        → Spares hash_token (row.expires * 1000) token a
        → found rows ≡ some row
        → found (access hash_token a rows) ≡ some row
    unfolding access logout prune_expired
    found-access (logged_in now other csrf user) row rows own spares e =
        found-login now other csrf user rows spares ∙ e
    found-access (looked_up now other) row rows own spares e =
        found-lookup now other row rows own spares e
    found-access (logged_out other) row rows own spares e =
        found-without other row rows own spares e
    found-access (pruned now) row rows own spares e =
        find?-filter (has_token hash_token token) (λ x. not (ltb x.expires (now / 1000))) row rows e
          (ground arith)

    found-access_all :
        (later : List Access) (row : Row) (rows : List Row)
        → row.token_hash ≡ hash_token token
        → All (Spares hash_token (row.expires * 1000) token) later
        → found rows ≡ some row
        → found (access_all hash_token later rows) ≡ some row
    unfolding access_all
    found-access_all [] row rows own spares e = e
    found-access_all (a ∷ later) row rows own spares e =
        found-access_all later row (access hash_token a rows) own spares.1
          (found-access a row rows own spares.0 e)

    -- What is not found stays so.
    lost-access :
        (a : Access) (rows : List Row)
        → IsOther hash_token token a
        → found rows ≡ none
        → found (access hash_token a rows) ≡ none
    unfolding access logout prune_expired get_session
    lost-access (logged_in now other csrf user) rows fresh e =
        found-login now other csrf user rows fresh ∙ e
    lost-access (looked_up now other) rows fresh e =
        elim (get_found_cases now other (find? (has_token hash_token other) rows) rows) [
          | inl kept ↦ rw kept e
          | inr gone ↦ rw gone (find?-filter-none _ _ rows e)
        ]
    lost-access (logged_out other) rows fresh e = find?-filter-none _ _ rows e
    lost-access (pruned now) rows fresh e = find?-filter-none _ _ rows e

    lost-access_all :
        (later : List Access) (rows : List Row)
        → All (IsOther hash_token token) later
        → found rows ≡ none
        → found (access_all hash_token later rows) ≡ none
    unfolding access_all
    lost-access_all [] rows fresh e = e
    lost-access_all (a ∷ later) rows fresh e =
        lost-access_all later (access hash_token a rows) fresh.1 (lost-access a rows fresh.0 e)

    get_session-some :
        (now : ℕ) (row : Row) (rows : List Row)
        → found rows ≡ some row
        → now ≤ row.expires * 1000
        → (get_session hash_token now token rows).1 ≡ some (caller_of row)
    unfolding get_session
    get_session-some now row rows e early = rw e (ground arith)

    get_session-none :
        (now : ℕ) (rows : List Row)
        → found rows ≡ none
        → (get_session hash_token now token rows).1 ≡ none
    unfolding get_session
    get_session-none now rows e = rw e refl

  login-lives :
      (token csrf user : Text) (begin now : ℕ) (rows : List Row) (later : List Access)
      → All (Spares hash_token ((begin + session_ttl) / 1000 * 1000) token) later
      → now ≤ (begin + session_ttl) / 1000 * 1000
      → (get_session hash_token now token
          (access_all hash_token later (login hash_token begin token csrf user rows))).1
        ≡ some (record { username = user; csrf_token = csrf })
  unfolding login
  login-lives token csrf user begin now rows later spares early =
      let row : Row = record {
        token_hash = hash_token token;
        username = user;
        csrf_token = csrf;
        expires = (begin + session_ttl) / 1000;
      } in
      get_session-some token now row _
        (found-access_all token later row (row ∷ rows) refl spares
          (rw (text_eq_refl (hash_token token)) refl))
        early

  logout-ends :
      (token : Text) (now : ℕ) (rows : List Row) (later : List Access)
      → All (IsOther hash_token token) later
      → (get_session hash_token now token
          (access_all hash_token later (logout hash_token token rows))).1
        ≡ none
  unfolding logout
  logout-ends token now rows later fresh =
      get_session-none token now _
        (lost-access_all token later _ fresh (find?-filter_self (has_token hash_token token) rows))

  -- A login's session is found under its token, with its user and its CSRF token, for seven days
  -- less the part of a second in which it ends, whatever logins, lookups, logouts of others and
  -- prunings come in between, up to its end. Once it was logged out nothing is found under its token
  -- any more, at whatever time and whatever comes after that. No other token has the same hash.
  pub login_logout_lem :
      (token csrf user : Text) (begin now after : ℕ) (rows : List Row)
      (meanwhile later : List Access)
      → All (Spares hash_token ((begin + session_ttl) / 1000 * 1000) token) meanwhile
      → now ≤ (begin + session_ttl) / 1000 * 1000
      → All (IsOther hash_token token) later
      → ((get_session hash_token now token
            (access_all hash_token meanwhile (login hash_token begin token csrf user rows))).1
          ≡ some (record { username = user; csrf_token = csrf }))
        × ((get_session hash_token after token (
              access_all hash_token later (
                logout hash_token token (
                  access_all hash_token meanwhile
                    (login hash_token begin token csrf user rows))))).1
            ≡ none)
  login_logout_lem token csrf user begin now after rows meanwhile later spares early fresh = (
    login-lives token csrf user begin now rows meanwhile spares early,
    logout-ends token after _ later fresh,
  )
