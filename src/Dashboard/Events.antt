-- ===== src/Dashboard/Events.antt =====
-- scanner/state.py: `AppState`, and scanner/dashboard.py: the stream of `/events`.
pub mod Reading
pub mod Clients
use pms_scanner.Prelude.{
  ℕ, Bool, true, false, Option, none, some, List, [], ◌∷◌, ◌++◌, Text, text_eq, codes,
  if◌then◌else◌,
}
use pms_scanner.Prelude.Dict
use pms_scanner.Prelude.Dict.{Dict}

-- `Json` is the type of the values in an event, `dumps` is `json.dumps`, and `shown` is the text of
-- a value in a formatted string.
module _ {Json : Type 0} (dumps : Dict Text Json → Text) (shown : Json → Text) where
  -- `event.get("type", "message")`
  unfoldable pub event_type : Dict Text Json → Text
  event_type event = elim (Dict.lookup (codes "type") event) [
    | none ↦ codes "message"
    | some value ↦ shown value
  ]

  abbrev pub frame : Text → Text → Text
  frame type body = codes "event: " ++ (type ++ 10 ∷ (codes "data: " ++ (body ++ 10 ∷ 10 ∷ [])))

  -- What one round of `generate` yields: for an event from the queue, or after 15 seconds without
  -- one.
  unfoldable pub yielded : Option (Dict Text Json) → Text
  unfolding event_type
  yielded (some event) = frame (event_type event) (dumps event)
  yielded none = frame (codes "heartbeat") (codes "{}")

  unfoldable pub generate : List (Option (Dict Text Json)) → Text
  unfolding yielded
  generate [] = []
  generate (round ∷ rounds) = yielded round ++ generate rounds

-- `AppState`: whether `loop` is set and open, and `event_queue`.
pub record AppState (Json : Type 0) : Type 0 where
  pub has_loop : Bool
  pub event_queue : List (Dict Text Json)

module _ {Json : Type 0} where
  -- `emit_event`
  unfoldable pub emit_event : Dict Text Json → AppState Json → AppState Json
  emit_event event s =
      if s.has_loop then record s { event_queue = s.event_queue ++ event ∷ [] } else s

  -- `event_queue.get()` within 15 seconds: the first event, or none where the queue stays empty.
  unfoldable pub next_event : AppState Json → Option (Dict Text Json) × AppState Json
  next_event s = elim s.event_queue [
    | [] ↦ (none, s)
    | event ∷ rest ↦ (some event, record s { event_queue = rest })
  ]
