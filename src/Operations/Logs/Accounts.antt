-- ===== src/Operations/Logs/Accounts.antt =====
-- internal/ops/runner.go and the event stream: where the lines of a log are.
use restic_ui.Base.{
  ℕ, Option, none, some, List, [], ◌∷◌, ◌++◌, ◌≡◌, refl, ap, ◌∙◌, append_assoc, append-nil,
}
use restic_ui.Types.{LogLine}
use restic_ui.Operations.Logs.{
  Logs, Flow, store, publish, receive, Step, flow, read, arrive, store_line, publish_line,
  receive_line, read_rows, arrive_rows, move, move_all, step, run,
}

abbrev pub as_list : Option LogLine → List LogLine
as_list none = []
as_list (some l) = l ∷ []

-- Each line of the database is past, on its way, or about to be published.
abbrev pub IsAccounted : Logs → Type 0
IsAccounted s = s.written ≡ s.passed ++ (s.queued ++ as_list s.unpublished)

store_line-IsAccounted :
    (l : LogLine) (o : Option LogLine) (s : Logs)
    → s.unpublished ≡ o
    → IsAccounted s
    → IsAccounted (store_line l o s)
store_line-IsAccounted l none s e h =
    ap (λ w. w ++ l ∷ []) (h ∙ ap (λ o. s.passed ++ (s.queued ++ as_list o)) e)
    ∙ simp (append_assoc, append-nil)
store_line-IsAccounted l (some m) s e h = h

publish_line-IsAccounted :
    (o : Option LogLine) (s : Logs)
    → s.unpublished ≡ o
    → IsAccounted s
    → IsAccounted (publish_line o s)
publish_line-IsAccounted none s e h = h
publish_line-IsAccounted (some l) s e h =
    h ∙ ap (λ o. s.passed ++ (s.queued ++ as_list o)) e ∙ simp (append_assoc, append-nil)

receive_line-IsAccounted :
    (id : ℕ) (q : List LogLine) (s : Logs)
    → s.queued ≡ q
    → IsAccounted s
    → IsAccounted (receive_line id q s)
unfolding receive_line
receive_line-IsAccounted id [] s e h = h
receive_line-IsAccounted id (l ∷ q) s e h =
    h ∙ ap (λ q'. s.passed ++ (q' ++ as_list s.unpublished)) e ∙ simp append_assoc

move-IsAccounted : (id : ℕ) (f : Flow) (s : Logs) → IsAccounted s → IsAccounted (move id f s)
unfolding move
move-IsAccounted id (store l) s h = store_line-IsAccounted l s.unpublished s refl h
move-IsAccounted id publish s h = publish_line-IsAccounted s.unpublished s refl h
move-IsAccounted id receive s h = receive_line-IsAccounted id s.queued s refl h

pub move_all-IsAccounted :
    (id : ℕ) (fs : List Flow) (s : Logs) → IsAccounted s → IsAccounted (move_all id fs s)
unfolding move_all
move_all-IsAccounted id [] s h = h
move_all-IsAccounted id (f ∷ fs) s h =
    move_all-IsAccounted id fs (move id f s) (move-IsAccounted id f s h)

read_rows-IsAccounted :
    (o : Option (List LogLine)) (s : Logs) → IsAccounted s → IsAccounted (read_rows o s)
read_rows-IsAccounted none s h = h
read_rows-IsAccounted (some rows) s h = h

arrive_rows-IsAccounted :
    (id : ℕ) (o : Option (List LogLine)) (s : Logs)
    → IsAccounted s
    → IsAccounted (arrive_rows id o s)
arrive_rows-IsAccounted id none s h = h
arrive_rows-IsAccounted id (some rows) s h = h

pub step-IsAccounted : (id : ℕ) (t : Step) (s : Logs) → IsAccounted s → IsAccounted (step id t s)
unfolding step
step-IsAccounted id (flow f) s h = move-IsAccounted id f s h
step-IsAccounted id read s h = read_rows-IsAccounted s.reply s h
step-IsAccounted id arrive s h = arrive_rows-IsAccounted id s.reply s h

pub run-IsAccounted :
    (id : ℕ) (ts : List Step) (s : Logs) → IsAccounted s → IsAccounted (run id ts s)
unfolding run
run-IsAccounted id [] s h = h
run-IsAccounted id (t ∷ ts) s h = run-IsAccounted id ts (step id t s) (step-IsAccounted id t s h)

-- Where nothing is on its way, all lines are past.
pub all_passed :
    (s : Logs) → IsAccounted s → s.queued ≡ [] → s.unpublished ≡ none → s.written ≡ s.passed
all_passed s h q u =
    h
    ∙ ap (λ l. s.passed ++ (l ++ as_list s.unpublished)) q
    ∙ ap (λ o. s.passed ++ as_list o) u
    ∙ append-nil s.passed
