-- ===== src/Operations/Stream.antt =====
-- The message handler of `useEventStream` in web/src/hooks/useOperations.ts. What one mounted effect
-- works on is a `Client`: its `seen` map, the query cache and the store of toasts.
pub mod Latest
use restic_ui.Base.{ℕ, Option, none, some, List, [], ◌∷◌}
use restic_ui.Base.Text.{Text}
use restic_ui.Types.{StreamEvent, Operation}
use restic_ui.Toasts.{ToastStore, push_toast}
use restic_ui.Operations.Notify.{Seen, Toasting, quiet, toast, thrown, maybe_toast}
use restic_ui.Operations.Cache.{QueryCache, apply_op, apply_log, apply_progress}

pub record Client : Type 0 where
  pub seen : Seen
  pub cache : QueryCache
  pub toasts : ToastStore

-- The case "op" behind `maybeToast`. An exception there ends the handler.
unfoldable pub finish_op : ℕ → Operation → Seen → Toasting → Client → Client
unfolding push_toast
finish_op now op seen quiet c = record c { seen = seen; cache = apply_op op c.cache }
finish_op now op seen (toast d) c = record {
  seen = seen;
  cache = apply_op op c.cache;
  toasts = push_toast now d c.toasts;
}
finish_op now op seen thrown c = record c { seen = seen }

unfoldable pub handle_event : ℕ → StreamEvent → Client → Client
unfolding finish_op maybe_toast
handle_event now (StreamEvent.op op) c =
    let (seen, made) = maybe_toast op c.seen in finish_op now op seen made c
handle_event now (StreamEvent.log id line) c = record c { cache = apply_log id line c.cache }
handle_event now (StreamEvent.progress id p) c = record c { cache = apply_progress id p c.cache }

-- A message that cannot be parsed is dropped.
unfoldable pub handle_parsed : ℕ → Option StreamEvent → Client → Client
unfolding handle_event
handle_parsed now none c = c
handle_parsed now (some ev) c = handle_event now ev c

-- `JSON.parse` is not this program's: `none` where it throws.
module _ (parse : Text → Option StreamEvent) where
  unfoldable pub on_message : ℕ → Text → Client → Client
  unfolding handle_parsed
  on_message now data_text c = handle_parsed now (parse data_text) c

  -- The messages that arrive, each at a time of the browser's clock.
  unfoldable pub receive : List (ℕ × Text) → Client → Client
  receive [] c = c
  receive ((now, data_text) ∷ rest) c = receive rest (on_message now data_text c)
