-- ===== src/Shell/Tests.antt =====
-- The shell on small inputs.
use restic_ui.Base.{some, none, [], ◌∷◌, ◌≡◌, refl, false, map}
use restic_ui.Base.Text.{codes}
use restic_ui.Toasts.{ToastStore, initial, push_toast, dismiss_toast, notify, success}
use restic_ui.Shell
use restic_ui.Shell.Header.{header, link_class}
use restic_ui.Base.Text.{text_eq}
use restic_ui.Base.{true}
use restic_ui.Shell.{
  nav, route_of, not_found, plans, handle, press_log_out, press_menu, menu, toast_cards,
  press_toast, dismiss,
}

plans_page : route_of (codes "plans" ∷ []) ≡ plans
unfolding route_of
plans_page = refl

below_plans : route_of (codes "plans" ∷ codes "3" ∷ []) ≡ not_found
unfolding route_of
below_plans = refl

one_log_out :
    handle press_log_out (handle press_log_out Shell.initial).0
    ≡ ((handle press_log_out Shell.initial).0, false)
unfolding handle
one_log_out = refl

signed_in_as :
    menu (some (codes "ann")) (handle press_menu Shell.initial).0
    ≡ some (map (λ l. l.label) nav, some (codes "Signed in as ann"))
unfolding menu handle
signed_in_as = refl

abbrev two_toasts : ToastStore
two_toasts =
    push_toast 1 (record { kind = success; title = codes "b"; message = some [] })
      (push_toast 0 (record { kind = success; title = codes "a"; message = none }) initial)

one_left :
    toast_cards (
      press_toast
        (record { id = 1; kind = success; title = codes "a"; message = none })
        dismiss
        two_toasts)
    ≡ some (record { title = codes "b"; message = none } ∷ [])
unfolding toast_cards press_toast push_toast dismiss_toast notify
one_left = refl

settings_active :
    map
      (λ l. l.style)
      (header (λ l. text_eq l.to (codes "/settings")) none true Shell.initial).links
    ≡ link_class false
      ∷ link_class false
      ∷ link_class false
      ∷ link_class false
      ∷ link_class true
      ∷ []
unfolding header
settings_active = refl
