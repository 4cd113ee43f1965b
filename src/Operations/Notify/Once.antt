-- ===== src/Operations/Notify/Once.antt =====
-- How often an operation is announced by a toast.
use restic_ui.Base.{
  ℕ, ◌+◌, ◌≡◌, ◌≢◌, refl, Bool, true, false, not, ◌&&◌, List, [], ◌∷◌, ◌++◌, arith, ◌==◌,
  if◌then◌else◌, filter, map, All, ◌∙◌,
}
use restic_ui.Base.Text.{Text}
use restic_ui.Base.Dict.{lookup, insert, lookup-insert}
use restic_ui.Types.{OpStatus, Operation}
use restic_ui.Operations.Notify.{
  is_terminal, is_canceled, Toasting, quiet, toast, thrown, finished_toast, was_terminal, Seen,
  maybe_toast, toast_all,
}

abbrev is_toast : Toasting → Bool
is_toast quiet = false
is_toast (toast d) = true
is_toast thrown = false

-- The number of toasts for operation `k`.
abbrev pub toasts_for : ℕ → List (ℕ × Toasting) → ℕ
toasts_for k [] = 0
toasts_for k ((j, made) ∷ rest) = (if j == k && is_toast made then 1 else 0) + toasts_for k rest

-- The statuses that the events report of operation `k`, in their order.
abbrev pub statuses : ℕ → List Operation → List OpStatus
statuses k ops = map (λ o. o.status) (filter (λ o. o.id == k) ops)

-- The toasts that a run of statuses of one operation calls for.
due : Bool → List OpStatus → ℕ
due was [] = 0
due was (s ∷ ss) =
    (if is_terminal s && not was && not (is_canceled s) then 1 else 0) + due (is_terminal s) ss

finished_toast-is_toast :
    (op : Operation) (type : Text) → type ≢ [] → is_toast (finished_toast op type) ≡ true
unfolding finished_toast
finished_toast-is_toast op [] h = absurd (h refl)
finished_toast-is_toast op (c ∷ cs) h = refl

maybe_toast-is_toast :
    (op : Operation) (seen : Seen)
    → op.type ≢ []
    → is_toast (maybe_toast op seen).1 ≡ (
        is_terminal op.status
        && not (was_terminal (lookup op.id seen))
        && not (is_canceled op.status))
unfolding maybe_toast
maybe_toast-is_toast op seen h = ground (arith, finished_toast-is_toast op op.type h)

maybe_toast-seen :
    (op : Operation) (seen : Seen) → (maybe_toast op seen).0 ≡ insert op.id op.status seen
unfolding maybe_toast
maybe_toast-seen op seen = refl

-- Only the operation's own statuses matter, whatever else is reported in between.
toasts_for-eq-due :
    (k : ℕ) (ops : List Operation) (seen : Seen)
    → All (λ o. o.type ≢ []) ops
    → toasts_for k (toast_all ops seen) ≡ due (was_terminal (lookup k seen)) (statuses k ops)
unfolding toast_all due
toasts_for-eq-due k [] seen h = refl
toasts_for-eq-due k (op ∷ ops) seen h = ground (
  arith,
  toasts_for-eq-due k ops (maybe_toast op seen).0 h.1,
  maybe_toast-is_toast op seen h.0,
  maybe_toast-seen op seen,
  lookup-insert op.id k op.status seen,
)

due_settled :
    (was : Bool) (ts : List OpStatus)
    → was ≡ true
    → All (λ s. is_terminal s ≡ true) ts
    → due was ts ≡ 0
unfolding due
due_settled was [] w h = refl
due_settled was (t ∷ ts) w h = ground (arith, due_settled (is_terminal t) ts h.0 h.1)

due_pending :
    (was : Bool) (ns : List OpStatus)
    → was ≡ false
    → All (λ s. is_terminal s ≡ false) ns
    → due was ns ≡ 0
unfolding due
due_pending was [] w h = refl
due_pending was (n ∷ ns) w h = ground (arith, due_pending (is_terminal n) ns h.0 h.1)

-- An operation of which no event reports an end is announced by no toast.
pub toast_all_pending :
    (k : ℕ) (ops : List Operation)
    → All (λ o. o.type ≢ []) ops
    → All (λ s. is_terminal s ≡ false) (statuses k ops)
    → toasts_for k (toast_all ops []) ≡ 0
toast_all_pending k ops named h =
    toasts_for-eq-due k ops [] named ∙ due_pending false (statuses k ops) refl h

due-append :
    (was : Bool) (ns ts : List OpStatus) (t : OpStatus)
    → was ≡ false
    → All (λ s. is_terminal s ≡ false) ns
    → is_terminal t ≡ true
    → All (λ s. is_terminal s ≡ true) ts
    → due was (ns ++ t ∷ ts) ≡ (if is_canceled t then 0 else 1)
unfolding due
due-append was [] ts t w hn ht hts = ground (arith, due_settled (is_terminal t) ts ht hts)
due-append was (n ∷ ns) ts t w hn ht hts =
    ground (arith, due-append (is_terminal n) ns ts t hn.0 hn.1 ht hts)

-- An operation whose reported statuses run through some that are not terminal and then only through
-- terminal ones is announced by exactly one toast, or by none if the first terminal status is
-- `canceled`; events of other operations may come in between, and repeats of terminal ones too.
-- Every event names a type of operation that is not empty.
pub toast_all_once :
    (k : ℕ) (ops : List Operation) (ns ts : List OpStatus) (t : OpStatus)
    → All (λ o. o.type ≢ []) ops
    → statuses k ops ≡ ns ++ t ∷ ts
    → All (λ s. is_terminal s ≡ false) ns
    → is_terminal t ≡ true
    → All (λ s. is_terminal s ≡ true) ts
    → toasts_for k (toast_all ops []) ≡ (if is_canceled t then 0 else 1)
toast_all_once k ops ns ts t named e hn ht hts =
    toasts_for-eq-due k ops [] named ∙ rw e (due-append false ns ts t refl hn ht hts)
