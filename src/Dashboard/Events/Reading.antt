-- ===== src/Dashboard/Events/Reading.antt =====
-- What a browser reads from the stream of `/events`.
use mathlib.Core.List.{append_assoc, append-nil}
use pms_scanner.Prelude.{
  ℕ, zero, suc, ◌≡◌, refl, sym, ap, ◌∙◌, true, false, Option, none, some, List, [], ◌∷◌, ◌++◌, map,
  Text, text_eq, nat_eq, codes, ◌==◌, All, if◌then◌else◌,
}
use pms_scanner.Machine.{is_empty}
use pms_scanner.Prelude.Texts.{starts_with}
use pms_scanner.Prelude.Dict.{Dict}
use pms_scanner.Dashboard.Events.{AppState, event_type, frame, yielded, generate, emit_event}

onto_first : ℕ → List Text → List Text
onto_first c [] = (c ∷ []) ∷ []
onto_first c (l ∷ ls) = (c ∷ l) ∷ ls

-- The lines of a text.
lines : Text → List Text
unfolding onto_first
lines [] = [] ∷ []
lines (c ∷ s) = let rest = lines s in if c == 10 then [] ∷ rest else onto_first c rest

abbrev drop : ℕ → Text → Text
drop zero s = s
drop (suc n) [] = []
drop (suc n) (c ∷ s) = drop n s

-- A reader of events, as the format prescribes: the fields `event` and `data` are kept until an
-- empty line, at which the event counts if it has data. It gives the types and the data.
receive : List Text → Text → Text → List (Text × Text)
unfolding starts_with
receive [] type body = []
receive ([] ∷ ls) type body =
    let rest = receive ls [] [] in if is_empty body then rest else (type, body) ∷ rest
receive ((c ∷ l) ∷ ls) type body =
    if starts_with (codes "event: ") (c ∷ l)
    then receive ls (drop 7 (c ∷ l)) body
    else if starts_with (codes "data: ") (c ∷ l)
    then receive ls type (drop 6 (c ∷ l))
    else receive ls type body

pub received : Text → List (Text × Text)
unfolding lines receive
received stream = receive (lines stream) [] []

abbrev pub OneLine : Text → Type 0
OneLine s = All (λ c. (c == 10) ≡ false) s

lines-append : (s rest : Text) → OneLine s → lines (s ++ 10 ∷ rest) ≡ s ∷ lines rest
unfolding lines onto_first nat_eq
lines-append [] rest h = refl
lines-append (c ∷ s) rest h = rw (lines-append s rest h.1, h.0) refl

event_line : (type : Text) → OneLine type → OneLine (codes "event: " ++ type)
unfolding nat_eq
event_line type h = (refl, (refl, (refl, (refl, (refl, (refl, (refl, h)))))))

data_line : (body : Text) → OneLine body → OneLine (codes "data: " ++ body)
unfolding nat_eq
data_line body h = (refl, (refl, (refl, (refl, (refl, (refl, h))))))

heartbeat_line : OneLine (codes "heartbeat")
unfolding nat_eq
heartbeat_line = (refl, (refl, (refl, (refl, (refl, (refl, (refl, (refl, (refl, tt)))))))))

braces_line : OneLine (codes "{}")
unfolding nat_eq
braces_line = (refl, (refl, tt))

received_nil : received [] ≡ []
unfolding received lines receive
received_nil = refl

-- One frame, then the rest.
received-frame :
    (type body rest : Text)
    → OneLine type
    → OneLine body
    → is_empty body ≡ false
    → received
        ((codes "event: " ++ type) ++ 10 ∷ ((codes "data: " ++ body) ++ 10 ∷ ([] ++ 10 ∷ rest)))
      ≡ (type, body) ∷ received rest
unfolding received receive starts_with nat_eq
received-frame type body rest ht hb he =
    rw
      (
        lines-append (codes "event: " ++ type) ((codes "data: " ++ body) ++ 10 ∷ ([] ++ 10 ∷ rest))
            (event_line type ht),
        lines-append (codes "data: " ++ body) ([] ++ 10 ∷ rest) (data_line body hb),
        he,
      )
      refl

module _ {Json : Type 0} (dumps : Dict Text Json → Text) (shown : Json → Text) where
  frame_append :
      (type body rest : Text)
      → frame dumps shown type body ++ rest
        ≡ (codes "event: " ++ type) ++ 10 ∷ ((codes "data: " ++ body) ++ 10 ∷ ([] ++ 10 ∷ rest))
  frame_append type body rest =
      ap (λ (s : Text). codes "event: " ++ s)
        (append_assoc type (10 ∷ (codes "data: " ++ (body ++ 10 ∷ 10 ∷ []))) rest
          ∙ ap (λ (s : Text). type ++ 10 ∷ (codes "data: " ++ s))
              (append_assoc body (10 ∷ 10 ∷ []) rest))

  -- What the browser is told in a round.
  abbrev pub told : Option (Dict Text Json) → Text × Text
  told (some event) = (event_type dumps shown event, dumps event)
  told none = (codes "heartbeat", codes "{}")

  -- An event whose type and text are of one line.
  pub record IsPlain (event : Dict Text Json) : Type 0 where
    pub type_line : OneLine (event_type dumps shown event)
    pub text_line : OneLine (dumps event)
    pub text : is_empty (dumps event) ≡ false

  abbrev pub PlainRound : Option (Dict Text Json) → Type 0
  PlainRound (some event) = IsPlain event
  PlainRound none = Unit

  -- A reader of the stream of `/events` gets one event for each round of `generate`, in order:
  -- those of the queue with their types and the text that `json.dumps` gives, and a heartbeat for
  -- each wait without one. The types and texts must be of one line, and the texts not empty.
  pub received-generate :
      (rounds : List (Option (Dict Text Json)))
      → All PlainRound rounds
      → received (generate dumps shown rounds) ≡ map told rounds
  unfolding generate yielded
  received-generate [] h = received_nil
  received-generate (some event ∷ rounds) h =
      ap received
        (frame_append (event_type dumps shown event) (dumps event) (generate dumps shown rounds))
      ∙ received-frame _ _ _ h.0.type_line h.0.text_line h.0.text
      ∙ ap (λ t. told (some event) ∷ t) (received-generate rounds h.1)
  received-generate (none ∷ rounds) h =
      ap received (frame_append (codes "heartbeat") (codes "{}") (generate dumps shown rounds))
      ∙ received-frame (codes "heartbeat") (codes "{}") _ heartbeat_line braces_line refl
      ∙ ap (λ t. told none ∷ t) (received-generate rounds h.1)

-- What is emitted while the loop is there is queued, in order; without a loop it is dropped.
pub emit_all : {Json : Type 0} → List (Dict Text Json) → AppState Json → AppState Json
emit_all [] s = s
emit_all (event ∷ events) s = emit_all events (emit_event event s)

emit_all_lem :
    {Json : Type 0} (events queue : List (Dict Text Json))
    → emit_all events (record { has_loop = true; event_queue = queue })
      ≡ record { has_loop = true; event_queue = queue ++ events }
unfolding emit_all emit_event
emit_all_lem [] queue =
    ap (λ q. record { has_loop = true; event_queue = q }) (sym (append-nil queue))
emit_all_lem (event ∷ events) queue =
    emit_all_lem events (queue ++ event ∷ [])
    ∙ ap (λ q. record { has_loop = true; event_queue = q }) (append_assoc queue (event ∷ []) events)

module _ {Json : Type 0} (dumps : Dict Text Json → Text) (shown : Json → Text) where
  all_plain :
      (events : List (Dict Text Json))
      → All (IsPlain dumps shown) events
      → All (PlainRound dumps shown) (map some events)
  all_plain [] h = tt
  all_plain (event ∷ events) h = (h.0, all_plain events h.1)

  told-some :
      (events : List (Dict Text Json))
      → map (told dumps shown) (map some events)
        ≡ map (λ event. (event_type dumps shown event, dumps event)) events
  told-some [] = refl
  told-some (event ∷ events) = ap (λ ts. told dumps shown (some event) ∷ ts) (told-some events)

  -- The one reader of `/events` gets every event that was emitted while the loop was there, each
  -- once and in the order of the calls of `emit_event`. The types and texts must be of one line,
  -- and the texts not empty.
  pub emitted_is_received :
      (events : List (Dict Text Json))
      → All (IsPlain dumps shown) events
      → received (
          generate dumps shown
            (map some (emit_all events (record { has_loop = true; event_queue = [] })).event_queue))
        ≡ map (λ event. (event_type dumps shown event, dumps event)) events
  emitted_is_received events h =
      ap (λ (s : AppState Json). received (generate dumps shown (map some s.event_queue)))
        (emit_all_lem events [])
      ∙ received-generate dumps shown (map some events) (all_plain events h)
      ∙ told-some events
