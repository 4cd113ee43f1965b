-- ===== src/Operations/Notify.antt =====
-- `maybeToast` of web/src/hooks/useOperations.ts.
pub mod Once
use restic_ui.Base.{
  ℕ, ◌-◌, Bool, true, false, not, ◌&&◌, ◌||◌, Option, none, some, List, [], ◌∷◌, ◌++◌, leb,
  if◌then◌else◌,
}
use restic_ui.Base.Text.{Text, codes, is_empty}
use restic_ui.Base.Dict.{Dict, lookup, insert}
use restic_ui.Types.{OpStatus, OpSummary, Operation}
use restic_ui.Types.Bytes.{format_bytes, whole}
use restic_ui.Toasts.{Kind, Draft}

-- `TERMINAL.has(status)`
abbrev pub is_terminal : OpStatus → Bool
is_terminal OpStatus.queued = false
is_terminal OpStatus.running = false
is_terminal _ = true

abbrev pub is_canceled : OpStatus → Bool
is_canceled OpStatus.canceled = true
is_canceled _ = false

-- `STATUS_VERBS[status]`; a missing entry is spelled out by the template as `undefined`.
abbrev pub status_verb : OpStatus → Text
status_verb OpStatus.success = codes "succeeded"
status_verb OpStatus.warning = codes "finished with warnings"
status_verb OpStatus.error = codes "failed"
status_verb _ = codes "undefined"

abbrev pub kind_of : OpStatus → Kind
kind_of OpStatus.success = Kind.success
kind_of OpStatus.warning = Kind.warning
kind_of _ = Kind.error

-- `toUpperCase` of one code unit, for the ASCII letters that the names of operations begin with.
unfoldable pub to_upper : ℕ → ℕ
to_upper c = if leb b'a' c && leb c b'z' then c - 32 else c

-- `a || b` for strings that may be undefined.
abbrev pub or_text : Option Text → Option Text → Option Text
or_text none b = b
or_text (some a) b = if is_empty a then b else some a

-- `subject ? ` "${subject}"` : ""`
abbrev pub quoted : Option Text → Text
quoted none = []
quoted (some a) = if is_empty a then [] else codes " \"" ++ (a ++ codes "\"")

-- `op.summary?.data_added`
abbrev pub data_added : Option OpSummary → Option ℕ
data_added none = none
data_added (some s) = s.data_added

unfoldable pub added_message : OpStatus → Option ℕ → Option Text
added_message OpStatus.error n = none
added_message status none = none
added_message status (some n) = some (format_bytes (whole n) ++ codes " added")

pub data Toasting : Type 0 where
  quiet : Toasting
  toast : Draft → Toasting
  thrown : Toasting

-- The toast for a finished operation. `op.type[0].toUpperCase()` throws for an empty type.
unfoldable pub finished_toast : Operation → Text → Toasting
unfolding to_upper added_message
finished_toast op [] = thrown
finished_toast op (c ∷ cs) = toast (record {
  kind = kind_of op.status;
  title =
      (to_upper c ∷ cs)
      ++ (quoted (or_text op.plan_name op.repo_name) ++ (b' ' ∷ status_verb op.status));
  message = added_message op.status (data_added op.summary);
})

-- Whether the last status that was seen of the operation is a terminal one.
abbrev pub was_terminal : Option OpStatus → Bool
was_terminal none = false
was_terminal (some prev) = is_terminal prev

abbrev pub Seen : Type 0
Seen = Dict OpStatus

unfoldable pub maybe_toast : Operation → Seen → Seen × Toasting
unfolding finished_toast
maybe_toast op seen =
    let prev = lookup op.id seen in
    let seen' = insert op.id op.status seen in
    let made = finished_toast op op.type in
    (
      seen',
      if not (is_terminal op.status) || was_terminal prev
          then quiet
          else if is_canceled op.status
          then quiet
          else made,
    )

-- The `seen` map and the toasts after a run of operation events.
unfoldable pub toast_all : List Operation → Seen → List (ℕ × Toasting)
toast_all [] seen = []
toast_all (op ∷ ops) seen =
    let (seen', made) = maybe_toast op seen in (op.id, made) ∷ toast_all ops seen'
