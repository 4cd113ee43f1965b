-- ===== src/Plans/Page/Leak.antt =====
-- web/src/pages/PlansPage.tsx: a second "Edit plan" while a form is open.
use restic_ui.Base.{none, some, List, [], ◌∷◌, ◌++◌, ◌≡◌, refl, map}
use restic_ui.Types.{Plan}
use restic_ui.Plans.Form.{FormState, Fields, Action, act, initial}
use restic_ui.Plans.Form.Submit.{update, plan_input, request_of}
use restic_ui.Plans.Form.Chips.{act_all}
use restic_ui.Plans.Page.{closed, press_edit, in_edit, run, handle, save_request}

run-in_edit :
    (actions : List Action) (a b : Plan) (s : FormState) (f : Fields)
    → save_request f (
        run
          (map in_edit actions ++ press_edit b ∷ [])
          (record { adding = none; editing = some (record { existing = a; form = s }) }))
      ≡ some (update b.id (plan_input f (act_all actions s)))
unfolding run handle save_request request_of
run-in_edit [] a b s f = refl
run-in_edit (x ∷ actions) a b s f = run-in_edit actions a b (act x s) f

-- When the form of plan `a` is open, with any changes made in it, and "Edit plan" of plan `b` is
-- pressed, saving sends the contents of `a`'s form, the changes included, as the new contents of
-- plan `b`.
pub save_request-leaks :
    (a b : Plan) (actions : List Action) (f : Fields)
    → save_request f (run (press_edit a ∷ (map in_edit actions ++ press_edit b ∷ [])) closed)
      ≡ some (update b.id (plan_input f (act_all actions (initial (some a)))))
unfolding run handle
save_request-leaks a b actions f = run-in_edit actions a b (initial (some a)) f
