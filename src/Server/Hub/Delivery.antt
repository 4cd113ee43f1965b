-- ===== src/Server/Hub/Delivery.antt =====
-- internal/ops/events.go and handleStream in internal/api/ops_handlers.go: which events reach a
-- browser.
use restic_ui.Base.{
  ℕ, ◌+◌, ◌<◌, ◌≤◌, ◌≡◌, refl, ap, sym, ◌∙◌, some, List, [], ◌∷◌, ◌++◌, ltb, ◌==◌, length,
  length-append, All, append_assoc, append-nil, arith, Bool-cases, inl, inr,
}
use mathlib.Core.Option
use restic_ui.Base.Dict.{lookup}
use restic_ui.Server.Hub.{
  Channel, Hub, capacity, new_channel, offer, send_first, forward, subscribe, Action, subscribed,
  unsubscribed, published, forwarded, act, run,
}
use restic_ui.Server.Hub.Channels.{
  Sublist, stop, keep, skip, publications, Stays, channel_act, lookup-act,
}

-- What a channel has let through since it was `c`: `through` are the events that it has taken.
pub record Delivers {ℓ} {E : Type ℓ} (events : List E) (c c' : Channel E) : Type ℓ where
  pub through : List E
  pub taken : c'.sent ++ c'.buffer ≡ (c.sent ++ c.buffer) ++ through
  pub in_order : Sublist through events
  pub bounded : length c'.buffer ≤ capacity
  pub complete : length c.buffer + length events ≤ capacity → through ≡ events

module _ {ℓ} {E : Type ℓ} where
  send_first-keeps :
      (b : List E) (c : Channel E)
      → b ≡ c.buffer
      → ((send_first b c).sent ++ (send_first b c).buffer ≡ c.sent ++ c.buffer)
        × (length (send_first b c).buffer ≤ length c.buffer)
  send_first-keeps [] c e = (refl, omega arith)
  send_first-keeps (x ∷ b) c e =
      (append_assoc c.sent (x ∷ []) b ∙ ap (λ l. c.sent ++ l) e, omega (arith, ap length e))

  -- An action that takes no event and lets none through.
  quiet_first :
      (events : List E) (c c1 c2 : Channel E)
      → c1.sent ++ c1.buffer ≡ c.sent ++ c.buffer
      → length c1.buffer ≤ length c.buffer
      → Delivers events c1 c2
      → Delivers events c c2
  quiet_first events c c1 c2 same less d = record {
    through = d.through;
    taken = d.taken ∙ ap (λ l. l ++ d.through) same;
    in_order = d.in_order;
    bounded = d.bounded;
    complete = λ room. d.complete (omega arith);
  }

  takes-Delivers :
      (e : E) (events : List E) (c c2 : Channel E)
      → length c.buffer < capacity
      → Delivers events (record c { buffer = c.buffer ++ e ∷ [] }) c2
      → Delivers (e ∷ events) c c2
  takes-Delivers e events c c2 room d = record {
    through = e ∷ d.through;
    taken =
        d.taken
        ∙ (ap (λ l. l ++ d.through) (sym (append_assoc c.sent c.buffer (e ∷ [])))
            ∙ append_assoc (c.sent ++ c.buffer) (e ∷ []) d.through);
    in_order = keep d.in_order;
    bounded = d.bounded;
    complete = λ fit. ap (λ l. e ∷ l) (d.complete (omega (arith, length-append c.buffer (e ∷ []))));
  }

  drops-Delivers :
      (e : E) (events : List E) (c c2 : Channel E)
      → capacity ≤ length c.buffer
      → Delivers events c c2
      → Delivers (e ∷ events) c c2
  drops-Delivers e events c c2 full d = record {
    through = d.through;
    taken = d.taken;
    in_order = skip d.in_order;
    bounded = d.bounded;
    complete = λ fit. absurd (omega arith);
  }

  offer-Delivers :
      (e : E) (events : List E) (c c2 : Channel E)
      → Delivers events (offer e c) c2
      → Delivers (e ∷ events) c c2
  unfolding offer
  offer-Delivers e events c c2 d = elim (Bool-cases (ltb (length c.buffer) capacity)) [
    | inl room ↦ takes-Delivers e events c c2 (ground arith) (rw room at d)
    | inr full ↦ drops-Delivers e events c c2 (ground arith) (rw full at d)
  ]

  offer-bounded :
      (e : E) (c : Channel E) → length c.buffer ≤ capacity → length (offer e c).buffer ≤ capacity
  unfolding offer
  offer-bounded e c h = ground (arith, length-append c.buffer (e ∷ []))

  forward-keeps :
      (c : Channel E)
      → ((forward c).sent ++ (forward c).buffer ≡ c.sent ++ c.buffer)
        × (length (forward c).buffer ≤ length c.buffer)
  unfolding forward
  forward-keeps c = send_first-keeps c.buffer c refl

  -- From an action of the hub to those after it.
  act-Delivers :
      (k : ℕ) (a : Action E) (actions : List (Action E)) (c c2 : Channel E)
      → Delivers (publications actions) (channel_act k a c) c2
      → Delivers (publications (a ∷ actions)) c c2
  unfolding channel_act
  act-Delivers k subscribed actions c c2 d = d
  act-Delivers k (unsubscribed j) actions c c2 d = d
  act-Delivers k (published e) actions c c2 d = offer-Delivers e (publications actions) c c2 d
  act-Delivers k (forwarded j) actions c c2 d = elim (Bool-cases (j == k)) [
    | inl own ↦
        quiet_first (publications actions) c (forward c) c2 (forward-keeps c).0 (forward-keeps c).1
          (rw own at d)
    | inr other ↦ rw other at d
  ]

  act-bounded :
      (k : ℕ) (a : Action E) (c : Channel E)
      → length c.buffer ≤ capacity
      → length (channel_act k a c).buffer ≤ capacity
  unfolding channel_act
  act-bounded k subscribed c h = h
  act-bounded k (unsubscribed j) c h = h
  act-bounded k (published e) c h = offer-bounded e c h
  act-bounded k (forwarded j) c h = ground (arith, (forward-keeps c).1)

  run-Delivers_from :
      (k : ℕ) (actions : List (Action E)) (h : Hub E) (c : Channel E)
      → k < h.next
      → All (Stays k) actions
      → length c.buffer ≤ capacity
      → lookup k h.subs ≡ some c
      → (c' : Channel E) × (lookup k (run actions h).subs ≡ some c')
        × Delivers (publications actions) c c'
  unfolding run
  run-Delivers_from k [] h c old stays fit e = (
    c,
    e,
    record {
      through = [];
      taken = sym (append-nil (c.sent ++ c.buffer));
      in_order = stop;
      bounded = fit;
      complete = λ room. refl;
    },
  )
  run-Delivers_from k (a ∷ actions) h c old stays fit e =
      let (now, still) = lookup-act k a h old stays.0 in
      let (c', there, d) =
        run-Delivers_from k actions (act a h) (channel_act k a c) still stays.1
          (act-bounded k a c fit) (now ∙ ap (Option.map (channel_act k a)) e) in
      (c', there, act-Delivers k a actions c c' d)

  -- Of what is published after a browser has subscribed, and until it unsubscribes: what was sent
  -- to it and then what its channel holds are some of those events, in their order and each at most
  -- once; the channel holds at most 256 of them; and they are all of those events if no more than
  -- 256 were published.
  pub subscribe-Delivers :
      (h : Hub E) (actions : List (Action E))
      → All (Stays h.next) actions
      → (c : Channel E) × (lookup h.next (run actions (subscribe h)).subs ≡ some c)
        × Delivers (publications actions) new_channel c
  unfolding subscribe
  subscribe-Delivers h actions stays =
      run-Delivers_from h.next actions _ new_channel (omega arith) stays (omega arith)
        (ground arith)
