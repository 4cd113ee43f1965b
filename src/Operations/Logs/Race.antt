-- ===== src/Operations/Logs/Race.antt =====
-- web/src/hooks/useOperations.ts with internal/ops/runner.go: a log that is fetched while it grows.
use restic_ui.Base.{
  ℕ, Option, none, some, List, [], ◌∷◌, ◌++◌, ◌≡◌, ◌↔◌, refl, sym, ap, ◌∙◌, append_assoc,
  append-nil, arith,
}
use mathlib.Core.Option
use mathlib.Core.List.{append_cancel_right}
use restic_ui.Base.Dict.{lookup, lookup-insert}
use restic_ui.Types.{LogLine}
use restic_ui.Operations.Cache.{QueryCache, apply_log}
use restic_ui.Operations.Stream.Latest.{lookup-append_log}
use restic_ui.Operations.Logs.Accounts.{
  IsAccounted, move_all-IsAccounted, step-IsAccounted, run-IsAccounted, all_passed,
}
use restic_ui.Operations.Logs.{
  Logs, connected, Flow, store, publish, receive, Step, read, arrive, store_line, publish_line,
  receive_line, read_rows, arrive_rows, move, move_all, step, run, shown_log,
}

-- The line that is handled goes behind the log, if it is loaded.
lookup-apply_log :
    (id : ℕ) (l : LogLine) (c : QueryCache)
    → lookup id (apply_log id l c).op_logs ≡ Option.map (λ old. old ++ l ∷ []) (lookup id c.op_logs)
unfolding apply_log
lookup-apply_log id l c = ground (arith, lookup-append_log id id l c.op_logs)

-- A log that was loaded with those rows, when those lines were past, has had the lines of the later
-- events put behind them.
pub record IsRaced (id : ℕ) (rows past : List LogLine) (s : Logs) : Type 0 where
  pub later : List LogLine
  pub passed-later : s.passed ≡ past ++ later
  pub log-later : shown_log id s ≡ some (rows ++ later)

module _ (id : ℕ) (rows past : List LogLine) where
  receive_line-IsRaced :
      (q : List LogLine) (s : Logs)
      → IsRaced id rows past s
      → IsRaced id rows past (receive_line id q s)
  unfolding receive_line
  receive_line-IsRaced [] s h = h
  receive_line-IsRaced (l ∷ q) s h = record {
    later = h.later ++ l ∷ [];
    passed-later = ap (λ p. p ++ l ∷ []) h.passed-later ∙ simp append_assoc;
    log-later =
        lookup-apply_log id l s.cache
        ∙ ap (Option.map (λ old. old ++ l ∷ [])) h.log-later
        ∙ ap some (simp append_assoc);
  }

  store_line-IsRaced :
      (l : LogLine) (o : Option LogLine) (s : Logs)
      → IsRaced id rows past s
      → IsRaced id rows past (store_line l o s)
  store_line-IsRaced l none s h = record {
    later = h.later;
    passed-later = h.passed-later;
    log-later = h.log-later;
  }
  store_line-IsRaced l (some m) s h = h

  publish_line-IsRaced :
      (o : Option LogLine) (s : Logs)
      → IsRaced id rows past s
      → IsRaced id rows past (publish_line o s)
  publish_line-IsRaced none s h = h
  publish_line-IsRaced (some l) s h = record {
    later = h.later;
    passed-later = h.passed-later;
    log-later = h.log-later;
  }

  move_all-IsRaced :
      (fs : List Flow) (s : Logs) → IsRaced id rows past s → IsRaced id rows past (move_all id fs s)
  unfolding move_all
  move_all-IsRaced [] s h = h
  move_all-IsRaced (store l ∷ fs) s h =
      move_all-IsRaced fs (move id (store l) s)
        (unfold move in store_line-IsRaced l s.unpublished s h)
  move_all-IsRaced (publish ∷ fs) s h =
      move_all-IsRaced fs (move id publish s)
        (unfold move in publish_line-IsRaced s.unpublished s h)
  move_all-IsRaced (receive ∷ fs) s h =
      move_all-IsRaced fs (move id receive s) (unfold move in receive_line-IsRaced s.queued s h)

-- The lines go on while an answer is on its way.
store_line-reply :
    (l : LogLine) (o : Option LogLine) (s : Logs) → (store_line l o s).reply ≡ s.reply
store_line-reply l none s = refl
store_line-reply l (some m) s = refl

publish_line-reply : (o : Option LogLine) (s : Logs) → (publish_line o s).reply ≡ s.reply
publish_line-reply none s = refl
publish_line-reply (some l) s = refl

receive_line-reply : (id : ℕ) (q : List LogLine) (s : Logs) → (receive_line id q s).reply ≡ s.reply
unfolding receive_line
receive_line-reply id [] s = refl
receive_line-reply id (l ∷ q) s = refl

move-reply : (id : ℕ) (f : Flow) (s : Logs) → (move id f s).reply ≡ s.reply
unfolding move
move-reply id (store l) s = store_line-reply l s.unpublished s
move-reply id publish s = publish_line-reply s.unpublished s
move-reply id receive s = receive_line-reply id s.queued s

move_all-reply : (id : ℕ) (fs : List Flow) (s : Logs) → (move_all id fs s).reply ≡ s.reply
unfolding move_all
move_all-reply id [] s = refl
move_all-reply id (f ∷ fs) s = move_all-reply id fs (move id f s) ∙ move-reply id f s

arrive_rows-IsRaced :
    (id : ℕ) (rows : List LogLine) (o : Option (List LogLine)) (s : Logs)
    → o ≡ some rows
    → IsRaced id rows s.passed (arrive_rows id o s)
arrive_rows-IsRaced id rows none s e = cc e
arrive_rows-IsRaced id rows (some found) s e = record {
  later = [];
  passed-later = sym (append-nil s.passed);
  log-later =
      lookup-insert id id found s.cache.op_logs
      ∙ ground arith
      ∙ e
      ∙ ap some (sym (append-nil rows));
}

-- A request for the log: what happens before the server reads the rows, until its answer arrives, and
-- then.
module _ (id : ℕ) (start : List LogLine) (cache : QueryCache) (before : List Step)
    (between after : List Flow) where
  abbrev pub at_read : Logs
  at_read = run id before (connected start cache)

  abbrev pub at_arrival : Logs
  at_arrival = move_all id between (step id read at_read)

  abbrev pub at_end : Logs
  at_end = move_all id after (step id arrive at_arrival)

  at_read-IsAccounted : IsAccounted at_read
  at_read-IsAccounted = run-IsAccounted id before (connected start cache) (sym (append-nil start))

  at_end-IsAccounted : IsAccounted at_end
  at_end-IsAccounted = move_all-IsAccounted id after (step id arrive at_arrival) (
      step-IsAccounted id arrive at_arrival (
        move_all-IsAccounted id between (step id read at_read)
          (step-IsAccounted id read at_read at_read-IsAccounted)))

  at_arrival-reply : at_read.reply ≡ none → at_arrival.reply ≡ some at_read.written
  unfolding step
  at_arrival-reply idle =
      move_all-reply id between (step id read at_read) ∙ ap (λ o. (read_rows o at_read).reply) idle

  at_end-IsRaced : at_read.reply ≡ none → IsRaced id at_read.written at_arrival.passed at_end
  unfolding step
  at_end-IsRaced idle =
      move_all-IsRaced id at_read.written at_arrival.passed after (step id arrive at_arrival)
        (arrive_rows-IsRaced id at_read.written at_arrival.reply at_arrival (at_arrival-reply idle))

  some_eq : {x y : List LogLine} → some x ≡ some y → x ≡ y
  some_eq e = cc e

  -- When every line has been handled, the console shows the rows that the server read and behind them
  -- the lines that were handled since the answer arrived. So it shows each line once, in order, exactly
  -- if the lines handled when the answer arrived were the rows that the server had read: a line
  -- that was handled in between is missing, and a row whose event came after the answer stands there
  -- twice. No other request for the log is under way, and none is sent later.
  pub log_raced :
      at_read.reply ≡ none
      → at_end.queued ≡ []
      → at_end.unpublished ≡ none
      → (later : List LogLine) × (at_end.written ≡ at_arrival.passed ++ later)
        × (shown_log id at_end ≡ some (at_read.written ++ later))
        × ((shown_log id at_end ≡ some at_end.written) ↔ (at_arrival.passed ≡ at_read.written))
  log_raced idle drained published =
      let r = at_end-IsRaced idle in
      let all = all_passed at_end at_end-IsAccounted drained published ∙ r.passed-later in
      (
        r.later,
        all,
        r.log-later,
        (
          λ same.
              append_cancel_right at_arrival.passed at_read.written r.later
                (sym all ∙ some_eq (sym same ∙ r.log-later)),
          λ same. r.log-later ∙ ap some (ap (λ x. x ++ r.later) (sym same) ∙ sym all),
        ),
      )
