-- ===== src/Toasts/Dismissal.antt =====
-- How toasts come and go: what one push and one dismissal do, and that no toast stays for ever.
use restic_ui.Base.{
  ℕ, ◌+◌, ◌-◌, ◌≤◌, ◌<◌, ◌≡◌, ◌≢◌, refl, true, false, not, List, [], ◌∷◌, ◌++◌, arith, ◌==◌, leb,
  length, drop, filter, any, All, All-imp, All-append, All-filter_passes, any-eq_false, drop-append,
  length-append, Bool-cases, inl, inr,
}
use restic_ui.Toasts.{
  Toast, Draft, Timer, ToastStore, initial, push_toast, dismiss_toast, run_timers, tick, Event,
  push, dismiss, subscribed, unsubscribed, passed, handle, run, auto_dismiss_ms,
}
use restic_ui.Toasts.Order.{IsAscending-below}
use restic_ui.Toasts.Invariant.{
  IsValid, IsPending, run-IsValid, tick-IsValid, dismiss_toast-toasts, dismiss_toast-timers,
}

abbrev pub toast_of : ℕ → Draft → Toast
toast_of id d = record { id = id; kind = d.kind; title = d.title; message = d.message }

push_toast_lem :
    (now : ℕ) (d : Draft) (s : ToastStore)
    → IsValid s
    → ((push_toast now d s).toasts
        ≡ drop (length s.toasts - 4) s.toasts ++ toast_of s.next_id d ∷ [])
      × All (λ t. t.id < s.next_id) s.toasts
      × ((push_toast now d s).calls ≡ s.calls ++ s.listeners)
unfolding push_toast
push_toast_lem now d s v = (
  let toast : List Toast = toast_of s.next_id d ∷ [] in
      let n : length (s.toasts ++ toast) - 5 ≡ length s.toasts - 4 =
        omega (arith, length-append s.toasts toast) in
      rw n (drop-append (length s.toasts - 4) s.toasts toast (omega arith)),
  IsAscending-below 1 s.toasts s.next_id v.ordered,
  refl,
)

All-Unit : (ts : List Toast) → All (λ t. Unit {0}) ts
All-Unit [] = tt
All-Unit (t ∷ ts) = (tt, All-Unit ts)

absent_unchanged :
    (id : ℕ) (s : ToastStore) → any (λ t. t.id == id) s.toasts ≡ false → dismiss_toast id s ≡ s
unfolding dismiss_toast
absent_unchanged id s e = rw e

dismissed :
    (id : ℕ) (s : ToastStore) → All (λ t. not (t.id == id) ≡ true) (dismiss_toast id s).toasts
dismissed id s = rw (dismiss_toast-toasts id s) (
    All-imp _ _ (λ t h. h.1) _
      (All-filter_passes (λ t. Unit {0}) (λ t. not (t.id == id)) s.toasts (All-Unit s.toasts)))

dismiss_toast_idem :
    (id : ℕ) (s : ToastStore)
    → All (λ t. t.id ≢ id) (dismiss_toast id s).toasts
      × ((dismiss_toast id s).toasts ≡ filter (λ t. not (t.id == id)) s.toasts)
      × (dismiss_toast id (dismiss_toast id s) ≡ dismiss_toast id s)
dismiss_toast_idem id s = (
  All-imp _ (λ t. t.id ≢ id) (λ t h. ground arith) _ (dismissed id s),
  dismiss_toast-toasts id s,
  absent_unchanged id (dismiss_toast id s) (
      any-eq_false (λ t. t.id == id) _
        (All-imp _ (λ t. (t.id == id) ≡ false) (λ t h. ground arith) _ (dismissed id s))),
)

-- A push into a valid store shows the new toast last, under an id that no shown toast has, behind
-- the four most recent ones that were shown, and every listener is called once. After a dismissal no
-- toast with that id is shown and the others are shown in their order, and a second dismissal changes
-- nothing: it does not call a listener either.
pub push_dismiss_lem :
    (now : ℕ) (d : Draft) (id : ℕ) (s : ToastStore)
    → IsValid s
    → (((push_toast now d s).toasts
          ≡ drop (length s.toasts - 4) s.toasts ++ toast_of s.next_id d ∷ [])
        × All (λ t. t.id < s.next_id) s.toasts
        × ((push_toast now d s).calls ≡ s.calls ++ s.listeners))
      × (All (λ t. t.id ≢ id) (dismiss_toast id s).toasts
          × ((dismiss_toast id s).toasts ≡ filter (λ t. not (t.id == id)) s.toasts)
          × (dismiss_toast id (dismiss_toast id s) ≡ dismiss_toast id s))
push_dismiss_lem now d id s v = (push_toast_lem now d s v, dismiss_toast_idem id s)

abbrev AreDue : ℕ → List Timer → Type 0
AreDue p = All (λ m. m.due ≤ p)

-- The event is no push, or one at a time not above `p`.
abbrev pub IsPushedBy : ℕ → Event → Type 0
IsPushedBy p (push now d) = now ≤ p
IsPushedBy p _ = Unit

run_timers-AreDue :
    (p now : ℕ) (ms : List Timer) (s : ToastStore)
    → AreDue p ms
    → AreDue p s.timers
    → AreDue p (run_timers now ms s).timers
unfolding run_timers
run_timers-AreDue p now [] s h k = k
run_timers-AreDue p now (m ∷ ms) s h k = elim (Bool-cases (leb m.due now)) [
  | inl due ↦
      rw (due, run_timers)
        (run_timers-AreDue p now ms (dismiss_toast m.toast_id s) h.1
          (rw (dismiss_toast-timers m.toast_id s) k))
  | inr waits ↦
      rw (waits, run_timers)
        (run_timers-AreDue p now ms _ h.1
          (All-append (λ n. n.due ≤ p) s.timers (m ∷ []) k (h.0, tt)))
]

handle-AreDue :
    (p : ℕ) (e : Event) (s : ToastStore)
    → IsPushedBy p e
    → AreDue (p + auto_dismiss_ms) s.timers
    → AreDue (p + auto_dismiss_ms) (handle e s).timers
unfolding handle
handle-AreDue p (push now d) s h k =
    All-append (λ n. n.due ≤ p + auto_dismiss_ms) s.timers _ k (omega arith, tt)
handle-AreDue p (dismiss id) s h k = rw (dismiss_toast-timers id s) k
handle-AreDue p (subscribed fn) s h k = ground arith
handle-AreDue p (unsubscribed fn) s h k = k
handle-AreDue p (passed now) s h k =
    run_timers-AreDue (p + auto_dismiss_ms) now s.timers (record s { timers = [] }) k tt

run-AreDue :
    (p : ℕ) (es : List Event) (s : ToastStore)
    → All (IsPushedBy p) es
    → AreDue (p + auto_dismiss_ms) s.timers
    → AreDue (p + auto_dismiss_ms) (run es s).timers
unfolding run
run-AreDue p [] s h k = k
run-AreDue p (e ∷ es) s h k = run-AreDue p es (handle e s) h.1 (handle-AreDue p e s h.0 k)

-- When every timeout is due, none is left.
run_timers-eq_nil :
    (now : ℕ) (ms : List Timer) (s : ToastStore)
    → AreDue now ms
    → s.timers ≡ []
    → (run_timers now ms s).timers ≡ []
unfolding run_timers
run_timers-eq_nil now [] s h e = e
run_timers-eq_nil now (m ∷ ms) s h e =
    let due : leb m.due now ≡ true = ground arith in
    rw (due, run_timers)
      (run_timers-eq_nil now ms (dismiss_toast m.toast_id s) h.1
        (rw (dismiss_toast-timers m.toast_id s) e))

nothing_pending : (ts : List Toast) → All (IsPending []) ts → ts ≡ []
nothing_pending [] h = refl
nothing_pending (t ∷ ts) h = cc (h.0)

toasts-eq_nil : (s : ToastStore) → IsValid s → s.timers ≡ [] → s.toasts ≡ []
toasts-eq_nil s v e = nothing_pending s.toasts (rw e at v.timed)

-- If no toast was pushed later than `p`, then none is shown once the timeouts that are due 6000 ms
-- after `p` have run, whatever else has happened to the store since it was loaded.
pub tick-run_eq_nil :
    (p : ℕ) (es : List Event)
    → All (IsPushedBy p) es
    → (tick (p + auto_dismiss_ms) (run es initial)).toasts ≡ []
unfolding tick
tick-run_eq_nil p es h =
    toasts-eq_nil _ (tick-IsValid (p + auto_dismiss_ms) (run es initial) (run-IsValid es)) (
      run_timers-eq_nil (p + auto_dismiss_ms) (run es initial).timers _
        (run-AreDue p es initial h tt) refl)
