-- ===== src/Settings/Answers.antt =====
-- web/src/pages/SettingsPage.tsx: what the form shows of the server's answers.
use restic_ui.Base.{
  Bool, true, false, Option, none, some, List, [], ◌∷◌, ◌≡◌, ◌≢◌, refl, All, ◌⊎◌, inl, inr,
  Bool-cases, arith, ap, sym, ◌∙◌,
}
use restic_ui.Base.Text.{text_eq_iff, text_eq_refl}
use restic_ui.Session.Requests.{value, api_error, thrown}
use restic_ui.Settings.{
  NotifySettings, Settings, settings_eq, is_cached, set_data, Event, loaded, type_url, type_urls,
  check_success, check_failure, press_save, press_test, saved, tested, handle, run, is_edit,
  same_bool,
}

-- The settings that the server answers with, to a request for them or to a save.
abbrev pub with_answer : Event → List NotifySettings → List NotifySettings
with_answer (loaded d) ds = d ∷ ds
with_answer (saved (value d)) ds = d ∷ ds
with_answer _ ds = ds

abbrev pub answers : List Event → List NotifySettings
answers [] = []
answers (e ∷ events) = with_answer e (answers events)

abbrev pub latest : NotifySettings → List NotifySettings → NotifySettings
latest d [] = d
latest d (x ∷ ds) = latest x ds

-- What is shown and cached, `f` and `c`, after the answers `ds`: either all of these equal what was
-- cached, and nothing changes; or one of them does not, and the latest is shown and cached.
abbrev Settled :
    NotifySettings
    → Option NotifySettings
    → List NotifySettings
    → NotifySettings
    → Option NotifySettings
    → Type 0
Settled f c ds f' c' =
    (All (λ d. c ≡ some d) ds × (f' ≡ f) × (c' ≡ c))
    ⊎ ((¬ All (λ d. c ≡ some d) ds) × (f' ≡ latest f ds) × (c' ≡ some f'))

abbrev pub ShowsAnswers : List Event → Settings → Settings → Type 0
ShowsAnswers events s t = Settled s.form s.cached (answers events) t.form t.cached

settings_eq_sound : (a b : NotifySettings) → settings_eq a b ≡ true → a ≡ b
unfolding settings_eq
settings_eq_sound a b h = ground (
  arith,
  text_eq_iff a.apprise_api_url b.apprise_api_url,
  text_eq_iff a.apprise_urls b.apprise_urls,
)

same_bool_refl : (b : Bool) → same_bool b b ≡ true
same_bool_refl true = refl
same_bool_refl false = refl

settings_eq_refl : (a : NotifySettings) → settings_eq a a ≡ true
unfolding settings_eq
settings_eq_refl a =
    rw
      (
        text_eq_refl a.apprise_api_url,
        text_eq_refl a.apprise_urls,
        same_bool_refl a.notify_on_success,
        same_bool_refl a.notify_on_failure,
      )
      refl

is_cached_sound :
    (d : NotifySettings) (c : Option NotifySettings) → is_cached d c ≡ true → c ≡ some d
unfolding is_cached
is_cached_sound d none h = cc h
is_cached_sound d (some c) h = ap some (settings_eq_sound c d h)

not_cached-ne :
    (d : NotifySettings) (c : Option NotifySettings) → is_cached d c ≡ false → c ≢ some d
unfolding is_cached
not_cached-ne d none h = λ e. cc e
not_cached-ne d (some c) h =
    λ e. let same : c ≡ d = cc e in cc (h, ap (settings_eq c) same, settings_eq_refl c)

latest-same :
    (d : NotifySettings) (ds : List NotifySettings)
    → All (λ x. some d ≡ some x) ds
    → latest d ds ≡ d
latest-same d [] h = refl
latest-same d (x ∷ ds) h = let same : d ≡ x = cc (h.0) in rw (← same) (latest-same d ds h.1)

latest-any :
    (f d : NotifySettings) (P : NotifySettings → Type 0) (ds : List NotifySettings)
    → ¬ All P ds
    → latest f ds ≡ latest d ds
latest-any f d P [] h = absurd (h tt)
latest-any f d P (x ∷ ds) h = refl

Settled-equal :
    (f f' d : NotifySettings) (c c' : Option NotifySettings) (ds : List NotifySettings)
    → c ≡ some d
    → Settled f c ds f' c'
    → Settled f c (d ∷ ds) f' c'
Settled-equal f f' d c c' ds e (inl (a, p, q)) = inl ((e, a), p, q)
Settled-equal f f' d c c' ds e (inr (a, p, q)) =
    inr (λ h. a h.1, p ∙ latest-any f d (λ x. c ≡ some x) ds a, q)

Settled-other :
    (f f' d : NotifySettings) (c c' : Option NotifySettings) (ds : List NotifySettings)
    → c ≢ some d
    → Settled d (some d) ds f' c'
    → Settled f c (d ∷ ds) f' c'
Settled-other f f' d c c' ds e (inl (a, p, q)) =
    inr (λ h. e h.0, p ∙ sym (latest-same d ds a), q ∙ ap some (sym p))
Settled-other f f' d c c' ds e (inr (a, p, q)) = inr (λ h. e h.0, p, q)

-- An answer, with what comes after it.
set_data-Settled :
    (d : NotifySettings) (s : Settings) (ds : List NotifySettings) (f' : NotifySettings)
    (c' : Option NotifySettings)
    → Settled (set_data d s).form (set_data d s).cached ds f' c'
    → Settled s.form s.cached (d ∷ ds) f' c'
unfolding set_data
set_data-Settled d s ds f' c' h = elim (Bool-cases (is_cached d s.cached)) [
  | inl e ↦ Settled-equal s.form f' d s.cached c' ds (is_cached_sound d s.cached e) (rw e at h)
  | inr e ↦ Settled-other s.form f' d s.cached c' ds (not_cached-ne d s.cached e) (rw e at h)
]

handle-Settled :
    (e : Event) (s : Settings) (ds : List NotifySettings) (t : Settings)
    → is_edit e ≡ false
    → Settled (handle e s).form (handle e s).cached ds t.form t.cached
    → Settled s.form s.cached (with_answer e ds) t.form t.cached
unfolding handle
handle-Settled (loaded d) s ds t k h = set_data-Settled d s ds t.form t.cached h
handle-Settled (type_url v) s ds t k h = cc k
handle-Settled (type_urls v) s ds t k h = cc k
handle-Settled (check_success v) s ds t k h = cc k
handle-Settled (check_failure v) s ds t k h = cc k
handle-Settled press_save s ds t k h = h
handle-Settled press_test s ds t k h = h
handle-Settled (saved (value d)) s ds t k h = set_data-Settled d s ds t.form t.cached h
handle-Settled (saved (api_error n m)) s ds t k h = h
handle-Settled (saved thrown) s ds t k h = h
handle-Settled (tested (value d)) s ds t k h = h
handle-Settled (tested (api_error n m)) s ds t k h = h
handle-Settled (tested thrown) s ds t k h = h

-- While nothing is typed or ticked, whatever is saved, tested and loaded, with whatever answers: if
-- every answer with settings equals those that are cached, the form goes on to show what it shows,
-- also what was typed before; and if one does not, the form shows the latest answer, which is what
-- is cached then, and what was typed before is gone.
pub run-ShowsAnswers :
    (events : List Event) (s : Settings)
    → All (λ e. is_edit e ≡ false) events
    → ShowsAnswers events s (run events s)
unfolding run
run-ShowsAnswers [] s k = inl (tt, refl, refl)
run-ShowsAnswers (e ∷ events) s k =
    handle-Settled e s (answers events) (run events (handle e s)) k.0
      (run-ShowsAnswers events (handle e s) k.1)
