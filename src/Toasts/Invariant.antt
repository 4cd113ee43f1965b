-- ===== src/Toasts/Invariant.antt =====
-- What holds of the toast store whatever has happened to it.
use restic_ui.Base.{
  ℕ, ◌+◌, ◌-◌, ◌≤◌, ◌≡◌, refl, Bool, true, false, not, List, [], ◌∷◌, ◌++◌, arith, ◌==◌, leb,
  length, filter, any, All, All-imp, All-append, All-drop, All-filter, All-of_not_any,
  All-filter_passes, filter-eq_self, any-append, length-append, length-drop, length-filter,
  append_assoc, append-nil, Bool-cases, inl, inr, sym,
}
use restic_ui.Toasts.{
  Toast, Draft, Timer, ToastStore, initial, push_toast, dismiss_toast, run_timers, tick, Event,
  push, dismiss, subscribed, unsubscribed, passed, handle, run, max_toasts, auto_dismiss_ms,
}
use restic_ui.Toasts.Order.{IsAscending, IsAscending-drop, IsAscending-filter, IsAscending-snoc}

-- A timeout for the toast is pending.
abbrev pub IsPending : List Timer → Toast → Type 0
IsPending timers t = any (λ m. m.toast_id == t.id) timers ≡ true

-- At most five toasts are shown, with distinct ascending ids that were all given out, and each of
-- them has a timeout that will dismiss it.
pub record IsValid (s : ToastStore) : Type 0 where
  pub bounded : length s.toasts ≤ max_toasts
  pub ordered : IsAscending 1 s.toasts s.next_id
  pub timed : All (IsPending s.timers) s.toasts

pub initial-IsValid : IsValid initial
initial-IsValid = omega arith

IsPending-append : (ms ns : List Timer) (t : Toast) → IsPending ms t → IsPending (ms ++ ns) t
IsPending-append ms ns t h = rw (any-append (λ m. m.toast_id == t.id) ms ns) (ground arith)

IsPending-new :
    (ms : List Timer) (m : Timer) (t : Toast) → m.toast_id ≡ t.id → IsPending (ms ++ m ∷ []) t
IsPending-new ms m t h = rw (any-append (λ n. n.toast_id == t.id) ms (m ∷ [])) (ground arith)

pub push_toast-IsValid :
    (now : ℕ) (d : Draft) (s : ToastStore) → IsValid s → IsValid (push_toast now d s)
unfolding push_toast
push_toast-IsValid now d s v =
    let toast : Toast = record {
      id = s.next_id;
      kind = d.kind;
      title = d.title;
      message = d.message;
    } in
    let timer : Timer = record { due = now + auto_dismiss_ms; toast_id = s.next_id } in
    let all : List Toast = s.toasts ++ toast ∷ [] in
    let n : ℕ = length all - max_toasts in
    record {
      bounded = omega (arith, length-drop n all, length-append s.toasts (toast ∷ []));
      ordered =
          IsAscending-drop n 1 all (s.next_id + 1) (IsAscending-snoc 1 s.toasts toast v.ordered);
      timed = All-drop (IsPending (s.timers ++ timer ∷ [])) n all (
          All-append (IsPending (s.timers ++ timer ∷ [])) s.toasts (toast ∷ [])
            (All-imp (IsPending s.timers) (IsPending (s.timers ++ timer ∷ []))
              (IsPending-append s.timers (timer ∷ [])) s.toasts v.timed)
            (IsPending-new s.timers timer toast refl, tt));
    }

pub dismiss_toast-timers : (id : ℕ) (s : ToastStore) → (dismiss_toast id s).timers ≡ s.timers
unfolding dismiss_toast
dismiss_toast-timers id s = ground arith

pub dismiss_toast-next_id : (id : ℕ) (s : ToastStore) → (dismiss_toast id s).next_id ≡ s.next_id
unfolding dismiss_toast
dismiss_toast-next_id id s = ground arith

-- What is left is what the filter keeps, also where nothing is to be removed.
pub dismiss_toast-toasts :
    (id : ℕ) (s : ToastStore)
    → (dismiss_toast id s).toasts ≡ filter (λ t. not (t.id == id)) s.toasts
unfolding dismiss_toast
dismiss_toast-toasts id s = elim (Bool-cases (any (λ t. t.id == id) s.toasts)) [
  | inl there ↦ rw there
  | inr absent ↦ rw absent (
      sym (
        filter-eq_self (λ t. not (t.id == id)) s.toasts
          (All-imp (λ t. (t.id == id) ≡ false) (λ t. not (t.id == id) ≡ true) (λ t e. rw e) s.toasts
            (All-of_not_any (λ t. t.id == id) s.toasts absent))))
]

pub dismiss_toast-IsValid : (id : ℕ) (s : ToastStore) → IsValid s → IsValid (dismiss_toast id s)
dismiss_toast-IsValid id s v = record {
  bounded =
      rw (dismiss_toast-toasts id s)
        (omega (arith, v.bounded, length-filter (λ t. not (t.id == id)) s.toasts));
  ordered =
      rw (dismiss_toast-toasts id s, dismiss_toast-next_id id s)
        (IsAscending-filter (λ t. not (t.id == id)) 1 s.toasts s.next_id v.ordered);
  timed =
      rw (dismiss_toast-toasts id s, dismiss_toast-timers id s)
        (All-filter (IsPending s.timers) (λ t. not (t.id == id)) s.toasts v.timed);
}

-- Between two timeouts of one tick: the toasts that are shown wait for a timeout that was kept or
-- for one that is still to be looked at.
record IsBetween (ms : List Timer) (s : ToastStore) : Type 0 where
  bounded : length s.toasts ≤ max_toasts
  ordered : IsAscending 1 s.toasts s.next_id
  timed : All (IsPending (s.timers ++ ms)) s.toasts

IsPending-skip :
    (kept ms : List Timer) (m : Timer) (t : Toast)
    → IsPending (kept ++ m ∷ ms) t × ((not (t.id == m.toast_id)) ≡ true)
    → IsPending (kept ++ ms) t
IsPending-skip kept ms m t h =
    rw (any-append (λ n. n.toast_id == t.id) kept ms)
      (ground (arith, any-append (λ n. n.toast_id == t.id) kept (m ∷ ms)))

IsBetween-dismiss :
    (m : Timer) (ms : List Timer) (s : ToastStore)
    → IsBetween (m ∷ ms) s
    → IsBetween ms (dismiss_toast m.toast_id s)
IsBetween-dismiss m ms s v =
    let p : Toast → Bool = λ t. not (t.id == m.toast_id) in
    record {
      bounded =
          rw (dismiss_toast-toasts m.toast_id s)
            (omega (arith, v.bounded, length-filter p s.toasts));
      ordered =
          rw (dismiss_toast-toasts m.toast_id s, dismiss_toast-next_id m.toast_id s)
            (IsAscending-filter p 1 s.toasts s.next_id v.ordered);
      timed =
          rw (dismiss_toast-toasts m.toast_id s, dismiss_toast-timers m.toast_id s)
            (All-imp (λ t. IsPending (s.timers ++ m ∷ ms) t × (p t ≡ true))
              (IsPending (s.timers ++ ms)) (IsPending-skip s.timers ms m) (filter p s.toasts)
              (All-filter_passes (IsPending (s.timers ++ m ∷ ms)) p s.toasts v.timed));
    }

IsBetween-keep :
    (m : Timer) (ms : List Timer) (s : ToastStore)
    → IsBetween (m ∷ ms) s
    → IsBetween ms (record s { timers = s.timers ++ m ∷ [] })
IsBetween-keep m ms s v = record {
  bounded = v.bounded;
  ordered = v.ordered;
  timed = rw (append_assoc s.timers (m ∷ []) ms) v.timed;
}

run_timers-IsValid :
    (now : ℕ) (ms : List Timer) (s : ToastStore) → IsBetween ms s → IsValid (run_timers now ms s)
unfolding run_timers
run_timers-IsValid now [] s v = record {
  bounded = v.bounded;
  ordered = v.ordered;
  timed = rw append-nil at v.timed;
}
run_timers-IsValid now (m ∷ ms) s v = elim (Bool-cases (leb m.due now)) [
  | inl due ↦ rw due (run_timers-IsValid now ms _ (IsBetween-dismiss m ms s v))
  | inr waits ↦ rw waits (run_timers-IsValid now ms _ (IsBetween-keep m ms s v))
]

pub tick-IsValid : (now : ℕ) (s : ToastStore) → IsValid s → IsValid (tick now s)
unfolding tick
tick-IsValid now s v =
    run_timers-IsValid now s.timers _
      (record { bounded = v.bounded; ordered = v.ordered; timed = v.timed })

pub handle-IsValid : (e : Event) (s : ToastStore) → IsValid s → IsValid (handle e s)
unfolding handle
handle-IsValid (push now d) s v = push_toast-IsValid now d s v
handle-IsValid (dismiss id) s v = dismiss_toast-IsValid id s v
handle-IsValid (subscribed fn) s v = ground (arith, v.bounded, v.ordered, v.timed)
handle-IsValid (unsubscribed fn) s v = record {
  bounded = v.bounded;
  ordered = v.ordered;
  timed = v.timed;
}
handle-IsValid (passed now) s v = tick-IsValid now s v

pub run_from-IsValid : (es : List Event) (s : ToastStore) → IsValid s → IsValid (run es s)
unfolding run
run_from-IsValid [] s v = v
run_from-IsValid (e ∷ es) s v = run_from-IsValid es (handle e s) (handle-IsValid e s v)

-- Whatever calls and timeouts the toast store has seen since it was loaded, at most five toasts are
-- shown, their ids are distinct, ascend and were all given out, and for each of them a timeout is
-- pending.
pub run-IsValid : (es : List Event) → IsValid (run es initial)
run-IsValid es = run_from-IsValid es initial initial-IsValid
