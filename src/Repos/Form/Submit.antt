-- ===== src/Repos/Form/Submit.antt =====
-- web/src/components/repos/RepoForm.tsx: what a submission comes to.
use restic_ui.Base.{Bool, true, false, not, ◌&&◌, ◌||◌, List, [], ◌∷◌, ◌≡◌, refl}
use restic_ui.Base.Text.{Text}
use restic_ui.Types.{Repo, RepoInput}
use restic_ui.Session.Requests.{Result, value, api_error, thrown}
use restic_ui.Repos.Form.{
  RepoForm, Phase, FormData, Request, create, init, submit, after_create, repo_input, message_of, ℤ,
}

abbrev pub is_value : {A : Type 0} → Result A → Bool
is_value (value a) = true
is_value _ = false

-- The requests: the first one always, the second one if there is a repository to initialize.
abbrev pub expected_requests : RepoInput → Result Repo → Bool → List Request
expected_requests input (value repo) true = create input ∷ init repo.id ∷ []
expected_requests input _ _ = create input ∷ []

-- Whether all that was asked for has succeeded, and what is shown otherwise.
abbrev pub succeeds : Result Repo → Result (Unit {0}) → Bool → Bool
succeeds created inited auto_init = is_value created && (not auto_init || is_value inited)

abbrev pub expected_error : Result Repo → Result (Unit {0}) → Bool → Text
expected_error (value repo) (value u) auto_init = []
expected_error (value repo) inited false = []
expected_error (value repo) inited true = message_of inited
expected_error created inited auto_init = message_of created

after_create_lem :
    (input : RepoInput) (created : Result Repo) (inited : Result (Unit {0})) (s : RepoForm)
    (b : Bool)
    → s.auto_init ≡ b
    → ((after_create input created inited s).sent ≡ expected_requests input created b)
      × ((after_create input created inited s).done ≡ succeeds created inited b)
      × ((after_create input created inited s).form
          ≡ record s { error = expected_error created inited b; phase = Phase.idle })
after_create_lem input (value repo) (value u) s true e = rw e (refl, refl, refl)
after_create_lem input (value repo) (value u) s false e = rw e (refl, refl, refl)
after_create_lem input (value repo) (api_error n m) s true e = rw e (refl, refl, refl)
after_create_lem input (value repo) (api_error n m) s false e = rw e (refl, refl, refl)
after_create_lem input (value repo) thrown s true e = rw e (refl, refl, refl)
after_create_lem input (value repo) thrown s false e = rw e (refl, refl, refl)
after_create_lem input (api_error n m) inited s b e = (refl, refl, refl)
after_create_lem input thrown inited s b e = (refl, refl, refl)

-- A submission creates the repository; it initializes it exactly if it was created and
-- "Initialize repository" is ticked; it closes the form exactly if all its requests succeeded, and
-- shows the message of the first one that failed otherwise. Then the form is idle, with its choices
-- as they were.
pub submit_lem :
    (to_number : Text → ℤ) (f : FormData) (created : Result Repo) (inited : Result (Unit {0}))
    (s : RepoForm)
    → ((submit to_number f created inited s).sent
        ≡ expected_requests (repo_input to_number f s) created s.auto_init)
      × ((submit to_number f created inited s).done ≡ succeeds created inited s.auto_init)
      × ((submit to_number f created inited s).form
          ≡ record s { error = expected_error created inited s.auto_init; phase = Phase.idle })
unfolding submit
submit_lem to_number f created inited s =
    after_create_lem (repo_input to_number f s) created inited s s.auto_init refl
