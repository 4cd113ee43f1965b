-- ===== src/Operations/Socket/Leak.antt =====
-- The effect's cleanup in web/src/hooks/useOperations.ts while a reconnect is pending.
use restic_ui.Base.{
  ℕ, ◌≡◌, ◌≢◌, refl, true, false, Option, none, some, List, [], ◌∷◌, ◌++◌, arith, ◌==◌, any, ap,
  ◌∙◌,
}
use restic_ui.Operations.Socket.{
  Effect, connect, on_open, shut_socket, cleanup, fire, Step, opened, dropped, was_shut, fired,
  cleaned, Reach,
}
use restic_ui.Operations.Socket.Single.{
  Attempt, connected, waiting, ended, Reach-Attempt, fire-nil, fire-cons, close-nil,
}

-- The socket that the network drops in a step.
abbrev pub dropped_in : {e f : Effect} → Step e f → Option ℕ
dropped_in (opened n h) = none
dropped_in (dropped n h) = some n
dropped_in (was_shut n h) = none
dropped_in fired = none
dropped_in (cleaned h) = none

-- Any steps, in none of which the network drops the socket `n`.
pub data Undropped (n : ℕ) (e : Effect) : Effect → Type 0 where
  here : Undropped n e e
  later :
      {f g : Effect} → Undropped n e f → (st : Step f g) → dropped_in st ≢ some n → Undropped n e g

-- One socket is there and no reconnect is pending, after the cleanup.
abbrev Leaked : ℕ → Effect → Type 0
Leaked n e = (e.sockets ≡ n ∷ []) × (e.timeouts ≡ []) × (e.closed ≡ true)

is_that : (n m : ℕ) (ns : List ℕ) → ns ≡ m ∷ [] → any (λ k. k == n) ns ≡ true → n ≡ m
is_that n m ns e h = ground (arith, rw e at h)

Step-Leaked :
    (n : ℕ) {e f : Effect} (st : Step e f) → dropped_in st ≢ some n → Leaked n e → Leaked n f
unfolding on_open shut_socket cleanup
Step-Leaked n (opened m h) kept l = l
Step-Leaked n (dropped {e} m h) kept l = absurd (kept (ap some (is_that m n e.sockets l.0 h)))
Step-Leaked n (was_shut m h) kept l = rw (l.2) (l.0, l.1, refl)
Step-Leaked n (fired {e}) kept l = rw (fire-nil e.timeouts e l.1) l
Step-Leaked n (cleaned h) kept l = cc (h, l.2)

Undropped-Leaked : (n : ℕ) {e f : Effect} → Undropped n e f → Leaked n e → Leaked n f
Undropped-Leaked n here l = l
Undropped-Leaked n (later u st kept) l = Step-Leaked n st kept (Undropped-Leaked n u l)

waiting_of :
    {e : Effect} → Attempt e → e.closed ≡ false → e.sockets ≡ [] → (d : ℕ) × (e.timeouts ≡ d ∷ [])
waiting_of (connected m s t w) c h = cc (s, h)
waiting_of (waiting d s t k) c h = (d, t)
waiting_of (ended s t c') c h = cc (c, c')

fired-Leaked :
    {e : Effect}
    → Reach e
    → e.closed ≡ false
    → e.sockets ≡ []
    → Leaked e.next_socket (fire (cleanup e).timeouts (cleanup e))
unfolding cleanup connect
fired-Leaked {e} r c h =
    let (d, t) = waiting_of (Reach-Attempt r) c h in
    let after : Effect = record (cleanup e) { timeouts = [] } in
    let same : fire (cleanup e).timeouts (cleanup e) ≡ connect after =
      fire-cons (cleanup e).timeouts d (cleanup e) t in
    (
      ap (λ f. f.sockets) same ∙ ap (λ l. l ++ e.next_socket ∷ []) (close-nil e.ws e.sockets h),
      ap (λ f. f.timeouts) same,
      ap (λ f. f.closed) same,
    )

-- A cleanup while a reconnect is pending does not cancel it: the timeout opens a new socket although
-- the effect was cleaned up, and whatever happens from then on, nothing closes that socket: as long
-- as the network does not drop it, it stays, and it is the only one.
pub cleanup-leaks :
    {e f : Effect}
    → Reach e
    → e.closed ≡ false
    → e.sockets ≡ []
    → Undropped e.next_socket (fire (cleanup e).timeouts (cleanup e)) f
    → (f.sockets ≡ e.next_socket ∷ []) × (f.closed ≡ true)
cleanup-leaks {e} {f} r c h u =
    let l = Undropped-Leaked e.next_socket u (fired-Leaked r c h) in (l.0, l.2)
