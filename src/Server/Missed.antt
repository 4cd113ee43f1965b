-- ===== src/Server/Missed.antt =====
-- web/src/hooks/useOperations.ts with internal/ops/runner.go: a browser that was not connected when
-- an operation ended. `onopen` of useEventStream asks for nothing, so that the browser knows what
-- the events tell it from then on.
use restic_ui.Base.{
  ℕ, ◌≡◌, ◌≢◌, refl, sym, ap, ◌∙◌, true, Option, none, some, List, [], ◌∷◌, ◌++◌, All, arith, inl,
  inr, Option-cases, subst,
}
use mathlib.Core.Option
use restic_ui.Base.Text.{Text}
use restic_ui.Types.{OpStatus, Operation, StreamEvent}
use restic_ui.Operations.Notify.Once.{statuses}
use restic_ui.Operations.Stream.{Client, receive}
use restic_ui.Operations.Stream.Latest.{IsNamed, decoded, latest, listed, receive-IsCaughtUp}
use restic_ui.Server.Runner.{Phase, Task, Move, run, empty}
use restic_ui.Server.Runner.Local.{trail}
use restic_ui.Server.Runner.Invariant.{statuses-append, IsSound}
use restic_ui.Server.Runner.Invariant.Advance.{run-IsSound, run-IsSound_from}
use restic_ui.Server.Runner.Once.{is_over, over-trail, All-suffix}
use restic_ui.Server.Hub.Channels.{Sublist, stop, keep, skip}

-- The operations that a run of events reports.
abbrev pub reports : List StreamEvent → List Operation
reports [] = []
reports (StreamEvent.op op ∷ evs) = op ∷ reports evs
reports (_ ∷ evs) = reports evs

All-Sublist {ℓ κ} :
    {A : Type ℓ} (P : A → Type κ) {xs ys : List A} → Sublist xs ys → All P ys → All P xs
All-Sublist P stop h = h
All-Sublist P (keep s) h = (h.0, All-Sublist P s h.1)
All-Sublist P (skip s) h = All-Sublist P s h.1

statuses-Sublist :
    (k : ℕ) {xs ys : List Operation} → Sublist xs ys → statuses k ys ≡ [] → statuses k xs ≡ []
statuses-Sublist k stop e = e
statuses-Sublist k (keep {x = x} {xs = xs} {ys = ys} s) e = ground (arith, statuses-Sublist k s)
statuses-Sublist k (skip {y = y} {ys = ys} s) e = statuses-Sublist k s (ground arith)

reports-IsNamed : (evs : List StreamEvent) → All (λ o. o.type ≢ []) (reports evs) → All IsNamed evs
reports-IsNamed [] h = tt
reports-IsNamed (StreamEvent.op op ∷ evs) h = (h.0, reports-IsNamed evs h.1)
reports-IsNamed (StreamEvent.log id line ∷ evs) h = (tt, reports-IsNamed evs h)
reports-IsNamed (StreamEvent.progress id p ∷ evs) h = (tt, reports-IsNamed evs h)

latest-eq_self :
    (k : ℕ) (evs : List StreamEvent) (o : Option Operation)
    → statuses k (reports evs) ≡ []
    → latest k evs o ≡ o
latest-eq_self k [] o h = refl
latest-eq_self k (StreamEvent.op op ∷ evs) o h = ground (arith, latest-eq_self k evs o)
latest-eq_self k (StreamEvent.log id line ∷ evs) o h = latest-eq_self k evs o h
latest-eq_self k (StreamEvent.progress id p ∷ evs) o h = latest-eq_self k evs o h

map-latest :
    (k : ℕ) (evs : List StreamEvent) (o : Option (Option Operation))
    → statuses k (reports evs) ≡ []
    → Option.map (latest k evs) o ≡ o
map-latest k evs none h = refl
map-latest k evs (some o) h = ap some (latest-eq_self k evs o h)

-- No trail goes beyond that of an operation that is over.
trail-full :
    (p : Phase) (s s' : OpStatus) (more : List OpStatus)
    → (OpStatus.queued ∷ OpStatus.running ∷ s ∷ []) ++ more ≡ trail p s'
    → more ≡ []
trail-full p s s' [] e = refl
trail-full p s s' (m ∷ more) e = absurd (ground arith)

module _ (moves later : List Move) (k : ℕ) (t : Task) (received : List Operation)
    (there : (run moves empty).tasks k ≡ some t) (over : is_over t.phase ≡ true)
    (split : (run later (run moves empty)).events ≡ (run moves empty).events ++ received) where
  later-IsSound : IsSound (run later (run moves empty))
  later-IsSound = run-IsSound_from later (run moves empty) (run-IsSound moves)

  told_later :
      statuses k (run later (run moves empty)).events
      ≡ (OpStatus.queued ∷ OpStatus.running ∷ t.row.status ∷ []) ++ statuses k received
  told_later =
      let own = (run-IsSound moves).each k t there in
      ap (statuses k) split
      ∙ (statuses-append k (run moves empty).events received
          ∙ ap (λ l. l ++ statuses k received)
              (own.told ∙ (over-trail t.phase t.row.status over own.fitting).0))

  -- Nothing more is published of it.
  nothing_more : statuses k received ≡ []
  nothing_more = elim (Option-cases ((run later (run moves empty)).tasks k)) [
    | inl gone ↦ absurd (cc (told_later, (later-IsSound.absent k gone).1))
    | inr (u, has) ↦
        trail-full u.phase t.row.status u.row.status (statuses k received)
          (sym told_later ∙ (later-IsSound.each k u has).told)
  ]

-- If the end of an operation was published before a browser's stream was open again, then whatever
-- the server goes on to do and whatever of its later events reach the browser, its list of
-- operations shows that operation as it did before they came: as running, if that was so.
pub end-missed :
    (moves later : List Move) (k : ℕ) (t : Task) (received : List Operation)
    (parse : Text → Option StreamEvent) (msgs : List (ℕ × Text)) (c : Client)
    → (run moves empty).tasks k ≡ some t
    → is_over t.phase ≡ true
    → (run later (run moves empty)).events ≡ (run moves empty).events ++ received
    → Sublist (reports (decoded parse msgs)) received
    → listed k (receive parse msgs c).cache ≡ listed k c.cache
end-missed moves later k t received parse msgs c there over split sub =
    let sound = later-IsSound moves later k t received there over split in
    let all_named =
      All-suffix _ (run moves empty).events received
        (subst (All (λ o. o.type ≢ [])) split sound.named) in
    let is_named = reports-IsNamed (decoded parse msgs) (All-Sublist _ sub all_named) in
    let silent = statuses-Sublist k sub (nothing_more moves later k t received there over split) in
    (receive-IsCaughtUp parse k msgs c is_named).shown
    ∙ map-latest k (decoded parse msgs) (listed k c.cache) silent
