-- ===== src/Toasts/Tests.antt =====
-- The toast store on small inputs.
use restic_ui.Base.{
  ◌-◌, ◌<◌, ◌≡◌, ◌≢◌, refl, not, none, List, [], ◌∷◌, ◌++◌, ◌==◌, arith, length, drop, filter, All,
  map,
}
use restic_ui.Base.Text.{codes}
use restic_ui.Toasts.{
  Kind, Draft, initial, push_toast, dismiss_toast, tick, Event, push, dismiss, subscribed,
  unsubscribed, passed, handle, run,
}
use restic_ui.Toasts.Invariant.{IsValid, run-IsValid}
use restic_ui.Toasts.Dismissal.{push_dismiss_lem, tick-run_eq_nil, toast_of}

abbrev draft : Draft
draft = record { kind = Kind.success; title = codes "Backup succeeded"; message = none }

abbrev morning : List Event
morning =
    subscribed 7
    ∷ push 0 draft
    ∷ push 10 draft
    ∷ push 20 draft
    ∷ dismiss 2
    ∷ push 30 draft
    ∷ push 40 draft
    ∷ push 50 draft
    ∷ push 60 draft
    ∷ passed 6010
    ∷ []

-- Of seven toasts the second was dismissed, the first gave way, and the third has timed out.
shown_ids : map (λ t. t.id) (run (morning ++ passed 6020 ∷ []) initial).toasts ≡ 4 ∷ 5 ∷ 6 ∷ 7 ∷ []
unfolding run handle
shown_ids = refl

listener_calls : length (run morning initial).calls ≡ 8
unfolding run handle
listener_calls = refl

unsubscribed_calls : (run (morning ++ unsubscribed 7 ∷ []) initial).listeners ≡ []
unfolding run handle
unsubscribed_calls = refl

run-IsValid_example : IsValid (run morning initial)
run-IsValid_example = run-IsValid morning

push_dismiss_lem_example :
    (((push_toast 99 draft (run morning initial)).toasts
        ≡ drop (length (run morning initial).toasts - 4) (run morning initial).toasts
          ++ toast_of (run morning initial).next_id draft ∷ [])
      × All (λ t. t.id < (run morning initial).next_id) (run morning initial).toasts
      × ((push_toast 99 draft (run morning initial)).calls
          ≡ (run morning initial).calls ++ (run morning initial).listeners))
    × (All (λ t. t.id ≢ 4) (dismiss_toast 4 (run morning initial)).toasts
        × ((dismiss_toast 4 (run morning initial)).toasts
            ≡ filter (λ t. not (t.id == 4)) (run morning initial).toasts)
        × (dismiss_toast 4 (dismiss_toast 4 (run morning initial))
            ≡ dismiss_toast 4 (run morning initial)))
push_dismiss_lem_example = push_dismiss_lem 99 draft 4 (run morning initial) (run-IsValid morning)

tick-run_eq_nil_example : (tick 6060 (run morning initial)).toasts ≡ []
tick-run_eq_nil_example = tick-run_eq_nil 60 morning (omega arith)
