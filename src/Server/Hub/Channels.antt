-- ===== src/Server/Hub/Channels.antt =====
-- internal/ops/events.go: what the actions of the hub do to one subscriber's channel.
use restic_ui.Base.{
  ℕ, ◌<◌, ◌≡◌, ◌≢◌, refl, ◌∙◌, false, not, Option, none, some, List, [], ◌∷◌, ◌==◌, if◌then◌else◌,
  map, filter, arith,
}
use mathlib.Core.Option
use restic_ui.Base.Dict.{Dict, lookup}
use restic_ui.Server.Hub.{
  Channel, Hub, offer, forward, subscribe, unsubscribe, publish, forward_at, Action, subscribed,
  unsubscribed, published, forwarded, act,
}

-- `xs` is `ys` with some elements left out.
pub data Sublist {ℓ} {A : Type ℓ} : List A → List A → Type ℓ where
  stop : Sublist [] []
  keep : {x : A} {xs ys : List A} → Sublist xs ys → Sublist (x ∷ xs) (x ∷ ys)
  skip : {y : A} {xs ys : List A} → Sublist xs ys → Sublist xs (y ∷ ys)

module _ {ℓ} {E : Type ℓ} where
  -- The events that the actions publish.
  abbrev pub publications : List (Action E) → List E
  publications [] = []
  publications (published e ∷ actions) = e ∷ publications actions
  publications (_ ∷ actions) = publications actions

  abbrev pub Stays : ℕ → Action E → Type 0
  Stays k (unsubscribed j) = j ≢ k
  Stays k _ = Unit

  -- What one action does to the channel of the subscriber `k`.
  unfoldable pub channel_act : ℕ → Action E → Channel E → Channel E
  channel_act k (published e) c = offer e c
  channel_act k (forwarded j) c = if j == k then forward c else c
  channel_act k _ c = c

  lookup-publish :
      (k : ℕ) (f : Channel E → Channel E) (subs : Dict (Channel E))
      → lookup k (map (λ sub. (sub.0, f sub.1)) subs) ≡ Option.map f (lookup k subs)
  lookup-publish k f [] = refl
  lookup-publish k f (sub ∷ subs) = ground (arith, lookup-publish k f subs)

  lookup-unsubscribe :
      (k j : ℕ) (subs : Dict (Channel E))
      → j ≢ k
      → lookup k (filter (λ sub. not (sub.0 == j)) subs) ≡ lookup k subs
  lookup-unsubscribe k j [] other = refl
  lookup-unsubscribe k j (sub ∷ subs) other = ground (arith, lookup-unsubscribe k j subs other)

  lookup-forward :
      (k j : ℕ) (f : Channel E → Channel E) (subs : Dict (Channel E))
      → lookup k (map (λ sub. if sub.0 == j then (sub.0, f sub.1) else sub) subs)
        ≡ Option.map (λ c. if j == k then f c else c) (lookup k subs)
  lookup-forward k j f [] = refl
  lookup-forward k j f (sub ∷ subs) = ground (arith, lookup-forward k j f subs)

  map-same : (o : Option (Channel E)) → o ≡ Option.map (λ c. c) o
  map-same none = refl
  map-same (some c) = refl

  pub lookup-act :
      (k : ℕ) (a : Action E) (h : Hub E)
      → k < h.next
      → Stays k a
      → (lookup k (act a h).subs ≡ Option.map (channel_act k a) (lookup k h.subs))
        × (k < (act a h).next)
  unfolding act channel_act subscribe unsubscribe publish forward_at
  lookup-act k subscribed h old stays = (
    (let e : (h.next == k) ≡ false = ground arith in rw e (map-same (lookup k h.subs))),
    omega arith,
  )
  lookup-act k (unsubscribed j) h old stays =
      (lookup-unsubscribe k j h.subs stays ∙ map-same (lookup k h.subs), old)
  lookup-act k (published e) h old stays = (lookup-publish k (offer e) h.subs, old)
  lookup-act k (forwarded j) h old stays = (lookup-forward k j forward h.subs, old)
