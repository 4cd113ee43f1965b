-- ===== src/Operations/Stream/Latest.antt =====
-- What the cache holds after a run of messages.
use restic_ui.Base.{
  ℕ, ◌≡◌, ◌≢◌, refl, Option, none, some, List, [], ◌∷◌, ◌++◌, arith, ◌==◌, if◌then◌else◌, find?,
  All, inl, inr, subst, ap, append_assoc, append-nil, Bool-cases,
}
use mathlib.Core.Option
use restic_ui.Base.Text.{Text}
use restic_ui.Base.Dict.{Dict, lookup, lookup-insert}
use restic_ui.Types.{StreamEvent, Operation, LogLine, OpProgress}
use restic_ui.Operations.Notify.{Seen, Toasting, quiet, toast, thrown, finished_toast, maybe_toast}
use restic_ui.Operations.Cache.{
  QueryCache, has_id, upsert, apply_op, append_log, apply_log, apply_progress,
}
use restic_ui.Operations.Cache.Upsert.{upsert_lem}
use restic_ui.Operations.Stream.{
  Client, finish_op, handle_event, handle_parsed, on_message, receive,
}

-- An operation event names a type that is not empty.
abbrev pub IsNamed : StreamEvent → Type 0
IsNamed (StreamEvent.op op) = op.type ≢ []
IsNamed _ = Unit

-- What the events say of operation `k`, from the value that was there before: its latest report, the
-- log lines behind those that were loaded, its latest progress.
abbrev reported : ℕ → StreamEvent → Option Operation → Option Operation
reported k (StreamEvent.op op) o = if op.id == k then some op else o
reported k _ o = o

abbrev logged : ℕ → StreamEvent → Option (List LogLine) → Option (List LogLine)
logged k (StreamEvent.log id line) ls =
    if id == k then Option.map (λ old. old ++ line ∷ []) ls else ls
logged k _ ls = ls

abbrev progressed : ℕ → StreamEvent → Option OpProgress → Option OpProgress
progressed k (StreamEvent.progress id p) q = if id == k then some p else q
progressed k _ q = q

-- The operation `k` as the list of operations shows it, where the list is loaded.
abbrev pub listed : ℕ → QueryCache → Option (Option Operation)
listed k c = Option.map (find? (has_id k)) c.operations

pub lookup-append_log :
    (k id : ℕ) (line : LogLine) (m : Dict (List LogLine))
    → lookup k (append_log id line m)
      ≡ (if id == k then Option.map (λ old. old ++ line ∷ []) (lookup k m) else lookup k m)
unfolding append_log
lookup-append_log k id line [] = ground arith
lookup-append_log k id line ((j, old) ∷ m) = ground (arith, lookup-append_log k id line m)

finished_toast-ne_thrown :
    (op : Operation) (type : Text) → type ≢ [] → finished_toast op type ≢ thrown
unfolding finished_toast
finished_toast-ne_thrown op [] h = absurd (h refl)
finished_toast-ne_thrown op (c ∷ cs) h = cc

maybe_toast-ne_thrown :
    (op : Operation) (seen : Seen) → op.type ≢ [] → (maybe_toast op seen).1 ≢ thrown
unfolding maybe_toast
maybe_toast-ne_thrown op seen h = ground (arith, finished_toast-ne_thrown op op.type h)

finish_op-cache :
    (now : ℕ) (op : Operation) (seen : Seen) (made : Toasting) (c : Client)
    → made ≢ thrown
    → (finish_op now op seen made c).cache ≡ apply_op op c.cache
unfolding finish_op
finish_op-cache now op seen quiet c h = refl
finish_op-cache now op seen (toast d) c h = refl
finish_op-cache now op seen thrown c h = absurd (h refl)

-- What one event changes in the cache, seen from operation `k`.
record IsTold (k : ℕ) (ev : StreamEvent) (c c' : QueryCache) : Type 0 where
  shown : listed k c' ≡ Option.map (reported k ev) (listed k c)
  logs : lookup k c'.op_logs ≡ logged k ev (lookup k c.op_logs)
  progress : lookup k c'.op_progress ≡ progressed k ev (lookup k c.op_progress)

find?-upsert :
    (k : ℕ) (op : Operation) (old : List Operation)
    → find? (has_id k) (upsert op old) ≡ (if op.id == k then some op else find? (has_id k) old)
find?-upsert k op old =
    let (own, others, _) = upsert_lem op old in
    elim (Bool-cases (op.id == k)) [
      | inl same ↦
          let e : op.id ≡ k = ground arith in
          rw same (subst (λ j. find? (has_id j) (upsert op old) ≡ some op) e own)
      | inr other ↦ rw other (others k (ground arith))
    ]

listed-upsert :
    (k : ℕ) (op : Operation) (o : Option (List Operation))
    → Option.map (find? (has_id k)) (Option.map (upsert op) o)
      ≡ Option.map (reported k (StreamEvent.op op)) (Option.map (find? (has_id k)) o)
listed-upsert k op none = refl
listed-upsert k op (some old) = ap some (find?-upsert k op old)

map-eq_self {ℓ} : {A : Type ℓ} (o : Option A) → o ≡ Option.map (λ a. a) o
map-eq_self none = refl
map-eq_self (some a) = refl

apply_op-IsTold :
    (k : ℕ) (op : Operation) (c : QueryCache) → IsTold k (StreamEvent.op op) c (apply_op op c)
unfolding apply_op
apply_op-IsTold k op c = record {
  shown = listed-upsert k op c.operations;
  logs = refl;
  progress = refl;
}

handle_event-IsTold :
    (k now : ℕ) (ev : StreamEvent) (c : Client)
    → IsNamed ev
    → IsTold k ev c.cache (handle_event now ev c).cache
unfolding handle_event apply_log apply_progress
handle_event-IsTold k now (StreamEvent.op op) c h =
    rw (finish_op-cache now op _ _ c (maybe_toast-ne_thrown op c.seen h))
      (apply_op-IsTold k op c.cache)
handle_event-IsTold k now (StreamEvent.log id line) c h = record {
  shown = map-eq_self (listed k c.cache);
  logs = lookup-append_log k id line c.cache.op_logs;
  progress = refl;
}
handle_event-IsTold k now (StreamEvent.progress id p) c h = record {
  shown = map-eq_self (listed k c.cache);
  logs = refl;
  progress = lookup-insert id k p c.cache.op_progress;
}

abbrev pub prepend : Option StreamEvent → List StreamEvent → List StreamEvent
prepend none evs = evs
prepend (some ev) evs = ev ∷ evs

-- The messages that can be parsed, as events.
abbrev pub decoded : (Text → Option StreamEvent) → List (ℕ × Text) → List StreamEvent
decoded parse [] = []
decoded parse ((now, data_text) ∷ rest) = prepend (parse data_text) (decoded parse rest)

-- The latest report of operation `k`, or `o` where there is none.
abbrev pub latest : ℕ → List StreamEvent → Option Operation → Option Operation
latest k [] o = o
latest k (ev ∷ evs) o = latest k evs (reported k ev o)

-- The log lines of operation `k`, in their order.
abbrev pub lines : ℕ → List StreamEvent → List LogLine
lines k [] = []
lines k (StreamEvent.log id line ∷ evs) = if id == k then line ∷ lines k evs else lines k evs
lines k (_ ∷ evs) = lines k evs

abbrev pub latest_progress : ℕ → List StreamEvent → Option OpProgress → Option OpProgress
latest_progress k [] q = q
latest_progress k (ev ∷ evs) q = latest_progress k evs (progressed k ev q)

pub record IsCaughtUp (k : ℕ) (evs : List StreamEvent) (c c' : QueryCache) : Type 0 where
  pub shown : listed k c' ≡ Option.map (latest k evs) (listed k c)
  pub logs : lookup k c'.op_logs ≡ Option.map (λ old. old ++ lines k evs) (lookup k c.op_logs)
  pub progress : lookup k c'.op_progress ≡ latest_progress k evs (lookup k c.op_progress)

lines-logged :
    (k : ℕ) (ev : StreamEvent) (evs : List StreamEvent) (ls : Option (List LogLine))
    → Option.map (λ old. old ++ lines k evs) (logged k ev ls)
      ≡ Option.map (λ old. old ++ lines k (ev ∷ evs)) ls
lines-logged k (StreamEvent.op op) evs ls = refl
lines-logged k (StreamEvent.log id line) evs none = ground arith
lines-logged k (StreamEvent.log id line) evs (some old) =
    ground (arith, append_assoc old (line ∷ []) (lines k evs))
lines-logged k (StreamEvent.progress id p) evs ls = refl

map-reported :
    (k : ℕ) (ev : StreamEvent) (evs : List StreamEvent) (o : Option (Option Operation))
    → Option.map (latest k evs) (Option.map (reported k ev) o) ≡ Option.map (latest k (ev ∷ evs)) o
map-reported k ev evs none = refl
map-reported k ev evs (some o) = refl

IsCaughtUp-cons :
    (k : ℕ) (ev : StreamEvent) (evs : List StreamEvent) (c c' c'' : QueryCache)
    → IsTold k ev c c'
    → IsCaughtUp k evs c' c''
    → IsCaughtUp k (ev ∷ evs) c c''
IsCaughtUp-cons k ev evs c c' c'' told rest = record {
  shown = cc (rest.shown, told.shown, map-reported k ev evs (listed k c));
  logs = cc (rest.logs, told.logs, lines-logged k ev evs (lookup k c.op_logs));
  progress = cc (rest.progress, told.progress);
}

append-nil_map : (o : Option (List LogLine)) → o ≡ Option.map (λ old. old ++ []) o
append-nil_map none = refl
append-nil_map (some old) = rw append-nil

handle_parsed-IsCaughtUp :
    (k now : ℕ) (o : Option StreamEvent) (evs : List StreamEvent) (c : Client) (c'' : QueryCache)
    → All IsNamed (prepend o evs)
    → (All IsNamed evs → IsCaughtUp k evs (handle_parsed now o c).cache c'')
    → IsCaughtUp k (prepend o evs) c.cache c''
unfolding handle_parsed
handle_parsed-IsCaughtUp k now none evs c c'' h rest = rest h
handle_parsed-IsCaughtUp k now (some ev) evs c c'' h rest =
    IsCaughtUp-cons k ev evs c.cache _ c'' (handle_event-IsTold k now ev c h.0) (rest h.1)

module _ (parse : Text → Option StreamEvent) (k : ℕ) where
  -- After any messages the cache has caught up with those that can be parsed: where the list of
  -- operations is loaded, it shows the latest report of operation `k` (or what it showed before);
  -- where the log of `k` is loaded, the log lines for `k` stand behind it in their order, and it
  -- stays unloaded otherwise; and the live progress of `k` is the latest one. Every operation event
  -- names a type of operation that is not empty.
  pub receive-IsCaughtUp :
      (msgs : List (ℕ × Text)) (c : Client)
      → All IsNamed (decoded parse msgs)
      → IsCaughtUp k (decoded parse msgs) c.cache (receive parse msgs c).cache
  unfolding receive on_message
  receive-IsCaughtUp [] c h = record {
    shown = map-eq_self (listed k c.cache);
    logs = append-nil_map (lookup k c.cache.op_logs);
    progress = refl;
  }
  receive-IsCaughtUp ((now, data_text) ∷ rest) c h =
      handle_parsed-IsCaughtUp k now (parse data_text) (decoded parse rest) c _ h
        (receive-IsCaughtUp rest (handle_parsed now (parse data_text) c))
