-- ===== src/Operations/Socket/Single.antt =====
-- How many sockets and pending reconnects there are, and how long a reconnect waits.
use restic_ui.Base.{
  ℕ, ◌+◌, ◌*◌, ◌^◌, ◌≤◌, ◌≡◌, inl, inr, refl, true, Option, none, some, List, [], ◌∷◌, ◌++◌, arith,
  ◌==◌, any, sym, subst, ap, Bool-cases, ◌⊎◌,
}
use native.Mathlib.Nat.{pow-succ', one-le-pow}
use native.Mathlib.Numerals.{towards_suc}
use restic_ui.Operations.Socket.{
  Effect, backoff, connect, close, mount, mount, on_open, without, cleanup, fire, Step, opened,
  dropped, fired, cleaned, Reach, start, next, shut_socket, was_shut, drop_socket,
}

abbrev pub IsDelay : ℕ → Type 0
IsDelay d = (2000 ≤ d) × (d ≤ 15000)

backoff-IsDelay : (retry : ℕ) → IsDelay (backoff (retry + 1))
unfolding backoff
backoff-IsDelay retry =
    let double : 2 ^ (retry + 1) ≡ 2 * 2 ^ retry = simp towards_suc (pow-succ' 2 retry) in
    omega (arith, double, one-le-pow retry 2 (omega arith))

-- There is one socket and no reconnect is pending, or none and one is pending; so before the cleanup
-- exactly one attempt to be connected is under way.
pub data Attempt : Effect → Type 0 where
  connected :
      {e : Effect} (n : ℕ) → e.sockets ≡ n ∷ [] → e.timeouts ≡ [] → e.ws ≡ some n → Attempt e
  waiting : {e : Effect} (d : ℕ) → e.sockets ≡ [] → e.timeouts ≡ d ∷ [] → IsDelay d → Attempt e
  ended : {e : Effect} → e.sockets ≡ [] → e.timeouts ≡ [] → e.closed ≡ true → Attempt e

Attempt-opened : {e : Effect} → Attempt e → Attempt (on_open e)
unfolding on_open
Attempt-opened (connected n s t w) = connected n s t w
Attempt-opened (waiting d s t h) = waiting d s t h
Attempt-opened (ended s t c) = ended s t c

-- Only the socket that is there can be dropped.
without_self :
    (n m : ℕ) (ns : List ℕ) → ns ≡ m ∷ [] → any (λ k. k == n) ns ≡ true → without n ns ≡ []
without_self n m ns e h = rw e (ground (arith, rw e at h))

Attempt-dropped :
    {e : Effect} (n : ℕ)
    → any (λ m. m == n) e.sockets ≡ true
    → Attempt e
    → Attempt (drop_socket n e)
unfolding drop_socket
Attempt-dropped {e} n h (connected m s t w) = elim (Bool-cases e.closed) [
  | inl closed ↦ rw closed (ended (without_self n m e.sockets s h) t refl)
  | inr going ↦ rw going (
      waiting (backoff (e.retry + 1)) (without_self n m e.sockets s h) (rw t)
        (backoff-IsDelay e.retry))
]
Attempt-dropped {e} n h (waiting d s t k) = cc (rw s at h)
Attempt-dropped {e} n h (ended s t c) = cc (rw s at h)

pub fire-nil : (l : List ℕ) (e : Effect) → l ≡ [] → fire l e ≡ e
unfolding fire
fire-nil [] e h = refl
fire-nil (d ∷ l) e h = cc

pub fire-cons :
    (l : List ℕ) (d : ℕ) (e : Effect) → l ≡ d ∷ [] → fire l e ≡ connect (record e { timeouts = [] })
fire-cons l d e h = rw h (unfold fire in refl)

pub close-nil : (o : Option ℕ) (ns : List ℕ) → ns ≡ [] → close o ns ≡ []
close-nil none ns h = h
close-nil (some n) ns h = rw h

Attempt-connect : (e : Effect) → e.sockets ≡ [] → e.timeouts ≡ [] → Attempt (connect e)
unfolding connect
Attempt-connect e s t = connected e.next_socket (ap (λ l. l ++ e.next_socket ∷ []) s) t refl

Attempt-fired : {e : Effect} → Attempt e → Attempt (fire e.timeouts e)
Attempt-fired {e} (connected m s t w) =
    subst Attempt (sym (fire-nil e.timeouts e t)) (connected m s t w)
Attempt-fired {e} (waiting d s t h) =
    subst Attempt (sym (fire-cons e.timeouts d e t))
      (Attempt-connect (record e { timeouts = [] }) s refl)
Attempt-fired {e} (ended s t c) = subst Attempt (sym (fire-nil e.timeouts e t)) (ended s t c)

close_self : (o : Option ℕ) (m : ℕ) (ns : List ℕ) → o ≡ some m → ns ≡ m ∷ [] → close o ns ≡ []
close_self o m ns h k = rw (h, k) (ground arith)

Attempt-cleaned : {e : Effect} → Attempt e → Attempt (cleanup e)
unfolding cleanup
Attempt-cleaned {e} (connected m s t w) = ended (close_self e.ws m e.sockets w s) t refl
Attempt-cleaned {e} (waiting d s t h) = waiting d (close-nil e.ws e.sockets s) t h
Attempt-cleaned {e} (ended s t c) = ended (close-nil e.ws e.sockets s) t refl

-- A socket is being closed only after the cleanup, so that its `onclose` does nothing.
abbrev ClosesLate : Effect → Type 0
ClosesLate e = (e.closing ≡ []) ⊎ (e.closed ≡ true)

Attempt-was_shut :
    {e : Effect} (n : ℕ)
    → any (λ m. m == n) e.closing ≡ true
    → ClosesLate e
    → Attempt e
    → Attempt (shut_socket n e)
unfolding shut_socket
Attempt-was_shut {e} n h (inl none_there) a = cc (rw none_there at h)
Attempt-was_shut {e} n h (inr c) (connected m s t w) = rw c (connected m s t w)
Attempt-was_shut {e} n h (inr c) (waiting d s t k) = rw c (waiting d s t k)
Attempt-was_shut {e} n h (inr c) (ended s t c') = rw c (ended s t refl)

Attempt-Step : {e f : Effect} → Step e f → ClosesLate e → Attempt e → Attempt f
Attempt-Step (opened n h) l a = Attempt-opened a
Attempt-Step (dropped n h) l a = Attempt-dropped n h a
Attempt-Step (was_shut n h) l a = Attempt-was_shut n h l a
Attempt-Step fired l a = Attempt-fired a
Attempt-Step (cleaned h) l a = Attempt-cleaned a

fire-ClosesLate : (l : List ℕ) (e : Effect) → ClosesLate e → ClosesLate (fire l e)
unfolding fire connect
fire-ClosesLate [] e h = h
fire-ClosesLate (d ∷ l) e h = h

drop_socket-ClosesLate : (n : ℕ) (e : Effect) → ClosesLate e → ClosesLate (drop_socket n e)
unfolding drop_socket
drop_socket-ClosesLate n e (inl none_there) = elim (Bool-cases e.closed) [
  | inl closed ↦ rw closed (inr refl)
  | inr going ↦ rw going (inl none_there)
]
drop_socket-ClosesLate n e (inr c) = rw c (inr refl)

Step-ClosesLate : {e f : Effect} → Step e f → ClosesLate e → ClosesLate f
unfolding on_open cleanup shut_socket
Step-ClosesLate (opened n h) l = l
Step-ClosesLate (dropped {e} n h) l = drop_socket-ClosesLate n e l
Step-ClosesLate (was_shut n h) (inl none_there) = cc (rw none_there at h)
Step-ClosesLate (was_shut n h) (inr c) = rw c (inr refl)
Step-ClosesLate (fired {e}) l = fire-ClosesLate e.timeouts e l
Step-ClosesLate (cleaned h) l = inr refl

Reach-ClosesLate : {e : Effect} → Reach e → ClosesLate e
unfolding mount connect
Reach-ClosesLate start = inl refl
Reach-ClosesLate (next r st) = Step-ClosesLate st (Reach-ClosesLate r)

-- Whatever the network and the browser do, at every moment the effect of the event stream has one
-- socket and no pending reconnect, or no socket and one pending reconnect, which waits between 2 and
-- 15 seconds; or neither, and then the effect was cleaned up.
pub Reach-Attempt : {e : Effect} → Reach e → Attempt e
unfolding mount connect
Reach-Attempt start = connected 0 refl refl refl
Reach-Attempt (next r st) = Attempt-Step st (Reach-ClosesLate r) (Reach-Attempt r)
