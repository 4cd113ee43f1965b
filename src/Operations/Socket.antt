-- ===== src/Operations/Socket.antt =====
-- The socket of `useEventStream` in web/src/hooks/useOperations.ts: connecting, reconnecting with
-- backoff, and the effect's cleanup. A socket is named by a number. The browser's part is kept with
-- the effect's variables: the sockets that were made and neither were dropped nor closed, those that
-- `close()` was called on and whose `onclose` is still to come, and the delays of the pending
-- `setTimeout(connect, …)`.
pub mod Leak
pub mod Single
use restic_ui.Base.{
  ℕ, ◌+◌, ◌*◌, ◌^◌, ◌≡◌, Bool, true, false, not, Option, none, some, List, [], ◌∷◌, ◌++◌, ◌==◌, min,
  any, filter, if◌then◌else◌,
}

pub record Effect : Type 0 where
  pub ws : Option ℕ
  pub closed : Bool
  pub retry : ℕ
  pub sockets : List ℕ
  pub closing : List ℕ
  pub next_socket : ℕ
  pub timeouts : List ℕ

-- `Math.min(1000 * 2 ** retry, 15000)`
unfoldable pub backoff : ℕ → ℕ
backoff retry = min (1000 * 2 ^ retry) 15000

unfoldable pub connect : Effect → Effect
connect e = record e {
  ws = some e.next_socket;
  sockets = e.sockets ++ e.next_socket ∷ [];
  next_socket = e.next_socket + 1;
}

abbrev unmounted : Effect
unmounted = record {
  ws = none;
  closed = false;
  retry = 0;
  sockets = [];
  closing = [];
  next_socket = 0;
  timeouts = [];
}

-- The effect runs: `connect()`.
unfoldable pub mount : Effect
unfolding connect
mount = connect unmounted

unfoldable pub on_open : Effect → Effect
on_open e = record e { retry = 0 }

abbrev pub without : ℕ → List ℕ → List ℕ
without n ns = filter (λ m. not (m == n)) ns

-- `onclose`
unfoldable pub on_close : Effect → Effect
unfolding backoff
on_close e =
    if e.closed
    then e
    else record e { retry = e.retry + 1; timeouts = e.timeouts ++ backoff (e.retry + 1) ∷ [] }

-- The network drops a socket, or one that `close()` was called on has been closed: its `onclose` is
-- called.
unfoldable pub drop_socket : ℕ → Effect → Effect
unfolding on_close
drop_socket n e = on_close (record e { sockets = without n e.sockets })

unfoldable pub shut_socket : ℕ → Effect → Effect
unfolding on_close
shut_socket n e = on_close (record e { closing = without n e.closing })

-- `ws?.close()`: a socket that is being closed delivers no more messages, and does nothing if it was
-- dropped already.
abbrev pub close : Option ℕ → List ℕ → List ℕ
close none ns = ns
close (some n) ns = without n ns

abbrev pub those_closed : Option ℕ → List ℕ → List ℕ
those_closed none ns = []
those_closed (some n) ns = filter (λ m. m == n) ns

unfoldable pub cleanup : Effect → Effect
cleanup e = record e {
  closed = true;
  sockets = close e.ws e.sockets;
  closing = e.closing ++ those_closed e.ws e.sockets;
}

-- The first pending timeout runs `connect`.
unfoldable pub fire : List ℕ → Effect → Effect
unfolding connect
fire [] e = e
fire (delay ∷ rest) e = connect (record e { timeouts = rest })

pub data Step : Effect → Effect → Type 0 where
  opened : {e : Effect} (n : ℕ) → any (λ m. m == n) e.sockets ≡ true → Step e (on_open e)
  dropped : {e : Effect} (n : ℕ) → any (λ m. m == n) e.sockets ≡ true → Step e (drop_socket n e)
  was_shut : {e : Effect} (n : ℕ) → any (λ m. m == n) e.closing ≡ true → Step e (shut_socket n e)
  fired : {e : Effect} → Step e (fire e.timeouts e)
  cleaned : {e : Effect} → e.closed ≡ false → Step e (cleanup e)

pub data Reach : Effect → Type 0 where
  start : Reach mount
  next : {e f : Effect} → Reach e → Step e f → Reach f
