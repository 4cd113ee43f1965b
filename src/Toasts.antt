-- ===== src/Toasts.antt =====
-- web/src/lib/toastStore.ts: the module-level store of toasts. The module's variables are the fields
-- of `ToastStore`; the browser's pending timeouts and the calls made to listeners are fields too.
mod Order
pub mod Invariant
pub mod Dismissal
mod Tests
use restic_ui.Base.{
  ℕ, ◌+◌, ◌-◌, Bool, not, Option, List, [], ◌∷◌, ◌++◌, ◌==◌, leb, if◌then◌else◌, length, drop,
  filter, any,
}
use restic_ui.Base.Text.{Text}

pub data Kind : Type 0 where
  success warning error : Kind

pub record Toast : Type 0 where
  pub id : ℕ
  pub kind : Kind
  pub title : Text
  pub message : Option Text

-- `Omit<Toast, "id">`
pub record Draft : Type 0 where
  pub kind : Kind
  pub title : Text
  pub message : Option Text

abbrev pub max_toasts : ℕ
max_toasts = 5

abbrev pub auto_dismiss_ms : ℕ
auto_dismiss_ms = 6000

-- A pending `setTimeout(() => dismissToast(toast_id))`, due at a time of the browser's clock.
pub record Timer : Type 0 where
  pub due : ℕ
  pub toast_id : ℕ

-- A listener is named by a number; `calls` logs the calls that were made, the latest last.
pub record ToastStore : Type 0 where
  pub toasts : List Toast
  pub next_id : ℕ
  pub listeners : List ℕ
  pub timers : List Timer
  pub calls : List ℕ

abbrev pub initial : ToastStore
initial = record { toasts = []; next_id = 1; listeners = []; timers = []; calls = [] }

unfoldable pub notify : ToastStore → ToastStore
notify s = record s { calls = s.calls ++ s.listeners }

-- `xs.slice(-n)`
abbrev pub slice_last {ℓ} : {A : Type ℓ} → ℕ → List A → List A
slice_last n xs = drop (length xs - n) xs

unfoldable pub push_toast : ℕ → Draft → ToastStore → ToastStore
unfolding notify
push_toast now d s =
    let toast : Toast = record {
      id = s.next_id;
      kind = d.kind;
      title = d.title;
      message = d.message;
    } in
    let s' = notify (record s {
      toasts = slice_last max_toasts (s.toasts ++ toast ∷ []);
      next_id = s.next_id + 1;
    }) in
    record s' {
      timers = s'.timers ++ record { due = now + auto_dismiss_ms; toast_id = toast.id } ∷ [];
    }

unfoldable pub dismiss_toast : ℕ → ToastStore → ToastStore
unfolding notify
dismiss_toast id s =
    if any (λ t. t.id == id) s.toasts
    then notify (record s { toasts = filter (λ t. not (t.id == id)) s.toasts })
    else s

-- A `Set` holds a listener once.
unfoldable pub subscribe : ℕ → ToastStore → ToastStore
subscribe fn s =
    if any (λ g. g == fn) s.listeners then s else record s { listeners = s.listeners ++ fn ∷ [] }

unfoldable pub unsubscribe : ℕ → ToastStore → ToastStore
unsubscribe fn s = record s { listeners = filter (λ g. not (g == fn)) s.listeners }

-- The timeouts that are due at `now` run, in the order in which they were set; the others stay.
unfoldable pub run_timers : ℕ → List Timer → ToastStore → ToastStore
run_timers now [] s = s
run_timers now (t ∷ ts) s =
    run_timers now ts (
      if leb t.due now
      then dismiss_toast t.toast_id s
      else record s { timers = s.timers ++ t ∷ [] })

unfoldable pub tick : ℕ → ToastStore → ToastStore
unfolding run_timers
tick now s = run_timers now s.timers (record s { timers = [] })

-- What can happen to the store: calls of its functions, and the passing of time.
pub data Event : Type 0 where
  push : (now : ℕ) → Draft → Event
  dismiss subscribed unsubscribed : ℕ → Event
  passed : (now : ℕ) → Event

unfoldable pub handle : Event → ToastStore → ToastStore
unfolding push_toast dismiss_toast subscribe unsubscribe tick
handle (push now d) s = push_toast now d s
handle (dismiss id) s = dismiss_toast id s
handle (subscribed fn) s = subscribe fn s
handle (unsubscribed fn) s = unsubscribe fn s
handle (passed now) s = tick now s

unfoldable pub run : List Event → ToastStore → ToastStore
run [] s = s
run (e ∷ es) s = run es (handle e s)
