-- ===== src/Server/Hub.antt =====
-- internal/ops/events.go: the Hub, which publishes events to its subscribers, and the loop of
-- handleStream in internal/api/ops_handlers.go, which sends what its channel holds to a browser.
pub mod Channels
pub mod Delivery
use restic_ui.Base.{
  ℕ, suc, not, Option, none, some, List, [], ◌∷◌, ◌++◌, ltb, ◌==◌, if◌then◌else◌, map, filter,
  length,
}
use restic_ui.Base.Dict.{Dict}

-- A subscriber's channel, with the events that were sent to its browser, the oldest first.
pub record Channel {ℓ} (E : Type ℓ) : Type ℓ where
  pub buffer : List E
  pub sent : List E

-- The subscribers by the numbers that tell them apart, and the next number.
pub record Hub {ℓ} (E : Type ℓ) : Type ℓ where
  pub next : ℕ
  pub subs : Dict (Channel E)

-- `make(chan Event, 256)`
abbrev pub capacity : ℕ
capacity = 256

module _ {ℓ} {E : Type ℓ} where
  abbrev pub new_channel : Channel E
  new_channel = record { buffer = []; sent = [] }

  -- A full channel drops the event.
  unfoldable pub offer : E → Channel E → Channel E
  offer e c = if ltb (length c.buffer) capacity then record c { buffer = c.buffer ++ e ∷ [] } else c

  abbrev pub send_first : List E → Channel E → Channel E
  send_first [] c = c
  send_first (e ∷ rest) c = record c { buffer = rest; sent = c.sent ++ e ∷ [] }

  -- The loop receives an event and writes it to the socket; it waits while there is none.
  unfoldable pub forward : Channel E → Channel E
  forward c = send_first c.buffer c

  unfoldable pub subscribe : Hub E → Hub E
  subscribe h = record { next = suc h.next; subs = (h.next, new_channel) ∷ h.subs }

  unfoldable pub unsubscribe : ℕ → Hub E → Hub E
  unsubscribe k h = record h { subs = filter (λ sub. not (sub.0 == k)) h.subs }

  unfoldable pub publish : E → Hub E → Hub E
  unfolding offer
  publish e h = record h { subs = map (λ sub. (sub.0, offer e sub.1)) h.subs }

  -- One round of the loop of the subscriber `k`.
  unfoldable pub forward_at : ℕ → Hub E → Hub E
  unfolding forward
  forward_at k h = record h {
    subs = map (λ sub. if sub.0 == k then (sub.0, forward sub.1) else sub) h.subs;
  }

pub data Action {ℓ} (E : Type ℓ) : Type ℓ where
  subscribed : Action E
  unsubscribed : ℕ → Action E
  published : E → Action E
  forwarded : ℕ → Action E

module _ {ℓ} {E : Type ℓ} where
  unfoldable pub act : Action E → Hub E → Hub E
  unfolding subscribe unsubscribe publish forward_at
  act subscribed h = subscribe h
  act (unsubscribed k) h = unsubscribe k h
  act (published e) h = publish e h
  act (forwarded k) h = forward_at k h

  unfoldable pub run : List (Action E) → Hub E → Hub E
  unfolding act
  run [] h = h
  run (a ∷ actions) h = run actions (act a h)
