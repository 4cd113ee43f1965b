-- ===== src/Plans/Form/Panels.antt =====
-- web/src/components/plans/PlanForm.tsx: the dry run and the preview of a retention while the form is
-- edited: previewRetention and previewBackup with their buttons.
use restic_ui.Base.{
  All, Bool, true, false, Option, none, some, List, [], ◌∷◌, ◌++◌, ◌≡◌, refl, ap, ◌∙◌,
  if◌then◌else◌, is_some,
}
use restic_ui.Base.Text.{Text, codes}
use restic_ui.Types.{BackupPreview, ForgetGroup}
use restic_ui.Session.Requests.{Result, value, api_error, thrown}
use restic_ui.Plans.Form.{FormState, Fields, Action, act}
use restic_ui.Plans.Form.Submit.{plan_input, dry_run_disabled, preview_disabled}
use restic_ui.Plans.Form.Chips.{act_all}
use restic_ui.Plans.Form.Previews.{RetentionBody, retention_body, DryRunBody, dry_run_body}

-- A button with its mutation: the body under way, the answer that is shown, and the error.
pub record Panel {ℓ κ} (Body : Type ℓ) (Answer : Type κ) : Type (ℓ ⊔ κ) where
  pub asked : Option Body
  pub shown : Option Answer
  pub error : Option Text

module _ {ℓ κ} {Body : Type ℓ} {Answer : Type κ} where
  abbrev pub unused : Panel Body Answer
  unused = record { asked = none; shown = none; error = none }

  -- The answer that was shown is cleared, and a new mutation has no error.
  abbrev pub press_panel : (disabled : Bool) → Body → Panel Body Answer → Panel Body Answer
  press_panel disabled body p =
      if disabled then p else record { asked = some body; shown = none; error = none }

  -- `onSuccess`, or `isError` with the message of an `ApiError`.
  abbrev pub finish_panel : (other : Text) → Result Answer → Panel Body Answer → Panel Body Answer
  finish_panel other (value a) p = record { asked = none; shown = some a; error = none }
  finish_panel other (api_error status message) p = record {
    asked = none;
    shown = p.shown;
    error = some message;
  }
  finish_panel other thrown p = record { asked = none; shown = p.shown; error = some other }

  -- The answer of the server to the body under way.
  abbrev pub answer_panel :
      (other : Text) → (Body → Result Answer) → Option Body → Panel Body Answer → Panel Body Answer
  answer_panel other serve none p = p
  answer_panel other serve (some body) p = finish_panel other (serve body) p

pub record Editing : Type 0 where
  pub form : FormState
  pub preview : Panel RetentionBody (List ForgetGroup)
  pub dry_run : Panel DryRunBody BackupPreview

pub data Event : Type 0 where
  edit : Action → Event
  press_preview preview_answered press_dry_run dry_run_answered : Event

-- The server.
pub record Server : Type 0 where
  pub retention_preview : RetentionBody → Result (List ForgetGroup)
  pub dry_run : DryRunBody → Result BackupPreview

unfoldable pub handle : Server → Event → Editing → Editing
unfolding act
handle server (edit a) s = record s { form = act a s.form }
handle server press_preview s = record s {
  preview =
      press_panel (preview_disabled (is_some s.preview.asked) s.form) (retention_body s.form)
        s.preview;
}
handle server preview_answered s = record s {
  preview =
      answer_panel (codes "Preview failed") server.retention_preview s.preview.asked s.preview;
}
handle server press_dry_run s = record s {
  dry_run =
      press_panel (dry_run_disabled (is_some s.dry_run.asked) s.form) (dry_run_body s.form)
        s.dry_run;
}
handle server dry_run_answered s = record s {
  dry_run = answer_panel (codes "Dry-run failed") server.dry_run s.dry_run.asked s.dry_run;
}

unfoldable pub run : Server → List Event → Editing → Editing
unfolding handle
run server [] s = s
run server (e ∷ es) s = run server es (handle server e s)

run-append :
    (server : Server) (es fs : List Event) (s : Editing)
    → run server (es ++ fs) s ≡ run server fs (run server es s)
unfolding run
run-append server [] fs s = refl
run-append server (e ∷ es) fs s = run-append server es fs (handle server e s)

-- An event that is not one of the retention's preview.
abbrev pub is_aside : Event → Bool
is_aside press_preview = false
is_aside preview_answered = false
is_aside _ = true

-- The edits among the events.
abbrev pub edits_of : List Event → List Action
edits_of [] = []
edits_of (edit a ∷ es) = a ∷ edits_of es
edits_of (_ ∷ es) = edits_of es

run-preview :
    (server : Server) (es : List Event) (s : Editing)
    → All (λ e. is_aside e ≡ true) es
    → (run server es s).preview ≡ s.preview
unfolding run handle
run-preview server [] s h = refl
run-preview server (edit a ∷ es) s h = run-preview server es (handle server (edit a) s) h.1
run-preview server (press_preview ∷ es) s h = cc (h.0)
run-preview server (preview_answered ∷ es) s h = cc (h.0)
run-preview server (press_dry_run ∷ es) s h =
    run-preview server es (handle server press_dry_run s) h.1
run-preview server (dry_run_answered ∷ es) s h =
    run-preview server es (handle server dry_run_answered s) h.1

run-form :
    (server : Server) (es : List Event) (s : Editing)
    → (run server es s).form ≡ act_all (edits_of es) s.form
unfolding run handle
run-form server [] s = refl
run-form server (edit a ∷ es) s = run-form server es (handle server (edit a) s)
run-form server (press_preview ∷ es) s = run-form server es (handle server press_preview s)
run-form server (preview_answered ∷ es) s = run-form server es (handle server preview_answered s)
run-form server (press_dry_run ∷ es) s = run-form server es (handle server press_dry_run s)
run-form server (dry_run_answered ∷ es) s = run-form server es (handle server dry_run_answered s)

-- From a press of "Preview what this would keep": what happens until the answer, and then.
abbrev pub previewed : Server → (during after : List Event) → Editing → Editing
previewed server during after s =
    run server after
      (handle server preview_answered (run server during (handle server press_preview s)))

pressed :
    (server : Server) (s : Editing)
    → preview_disabled (is_some s.preview.asked) s.form ≡ false
    → (handle server press_preview s).preview
      ≡ record { asked = some (retention_body s.form); shown = none; error = none }
unfolding handle
pressed server s h = rw h refl

answered :
    (server : Server) (s : Editing) (body : RetentionBody) (groups : List ForgetGroup)
    → s.preview ≡ record { asked = some body; shown = none; error = none }
    → server.retention_preview body ≡ value groups
    → (handle server preview_answered s).preview
      ≡ record { asked = none; shown = some groups; error = none }
unfolding handle
answered server s body groups e r =
    ap (λ p. answer_panel (codes "Preview failed") server.retention_preview p.asked p) e
    ∙ ap
        (λ a.
          finish_panel (codes "Preview failed") a
            (record { asked = some body; shown = none; error = none }))
        r

-- When a preview is asked for and answered, the form goes on to show the answer for the repository,
-- the sources and the retention that it had when the button was pressed, whatever is edited until the
-- answer and after it; what the form then sends has all those edits.
pub previewed-stale :
    (server : Server) (during after : List Event) (s : Editing) (f : Fields)
    (groups : List ForgetGroup)
    → All (λ e. is_aside e ≡ true) during
    → All (λ e. is_aside e ≡ true) after
    → preview_disabled (is_some s.preview.asked) s.form ≡ false
    → server.retention_preview (retention_body s.form) ≡ value groups
    → ((previewed server during after s).preview.shown ≡ some groups)
      × (plan_input f (previewed server during after s).form
          ≡ plan_input f (act_all (edits_of after) (act_all (edits_of during) s.form)))
previewed-stale server during after s f groups d a enabled served = (
  ap (λ p. p.shown)
      (run-preview server after _ a
        ∙ answered server (run server during (handle server press_preview s))
            (retention_body s.form) groups
            (run-preview server during (handle server press_preview s) d ∙ pressed server s enabled)
            served),
  ap (plan_input f) (
      run-form server after _
      ∙ ap (act_all (edits_of after))
          (unfold handle in run-form server during (handle server press_preview s))),
)
