-- ===== src/Dashboard/Events/Clients.antt =====
-- Several clients of `/events`, which take from the one queue of `AppState`.
use mathlib.Core.List.{append_assoc, append-nil}
use pms_scanner.Prelude.{
  ℕ, ◌+◌, ◌≤◌, ◌≡◌, ◌≢◌, sym, ap, ◌∙◌, true, Option, none, some, List, [], ◌∷◌, ◌++◌, map, Text,
  text_eq, nat_eq, ◌==◌, length, length-append, length-map, arith, if◌then◌else◌,
}
use pms_scanner.Prelude.Dict.{Dict}
use pms_scanner.Dashboard.Events.{AppState, emit_event, next_event}

-- A client's generator asks for the next event, or the program emits one.
pub data Turn (Json : Type 0) : Type 0 where
  asks : ℕ → Turn Json
  emits : Dict Text Json → Turn Json

module _ {Json : Type 0} where
  abbrev delivered :
      ℕ → Option (Dict Text Json) → List (ℕ × Dict Text Json) → List (ℕ × Dict Text Json)
  delivered k none rest = rest
  delivered k (some event) rest = (k, event) ∷ rest

  -- Which client gets which event, and what is left.
  pub serve : List (Turn Json) → AppState Json → List (ℕ × Dict Text Json) × AppState Json
  serve [] s = ([], s)
  serve (asks k ∷ turns) s =
      let (event, s₁) = next_event s in
      let (rest, s₂) = serve turns s₁ in (delivered k event rest, s₂)
  serve (emits event ∷ turns) s = serve turns (emit_event event s)

  abbrev pub emitted : List (Turn Json) → List (Dict Text Json)
  emitted [] = []
  emitted (asks k ∷ turns) = emitted turns
  emitted (emits event ∷ turns) = event ∷ emitted turns

  -- What client `k` gets.
  pub got : ℕ → List (ℕ × Dict Text Json) → List (Dict Text Json)
  got k [] = []
  got k ((j, event) ∷ rest) = let more = got k rest in if j == k then event ∷ more else more

  got_two :
      (j k : ℕ) (ds : List (ℕ × Dict Text Json))
      → j ≢ k
      → length (got j ds) + length (got k ds) ≤ length ds
  unfolding got
  got_two j k [] differ = omega arith
  got_two j k ((i, event) ∷ ds) differ = ground (arith, got_two j k ds differ)

  abbrev pub with_loop : List (Dict Text Json) → AppState Json
  with_loop queue = record { has_loop = true; event_queue = queue }

  conserved :
      (turns : List (Turn Json)) (queue : List (Dict Text Json))
      → let (ds, s) = serve turns (with_loop queue) in
        map (λ d. d.1) ds ++ s.event_queue ≡ queue ++ emitted turns
  unfolding serve next_event emit_event
  conserved [] queue = sym (append-nil queue)
  conserved (asks k ∷ turns) [] = conserved turns []
  conserved (asks k ∷ turns) (event ∷ queue) = ap (λ es. event ∷ es) (conserved turns queue)
  conserved (emits event ∷ turns) queue =
      conserved turns (queue ++ event ∷ []) ∙ append_assoc queue (event ∷ []) (emitted turns)

  -- The clients of `/events` share the events out among them. In whatever order they ask and the
  -- program emits, what they get and what is left is, in order, what waited and what was emitted;
  -- and two different clients together get no more events than there were.
  pub clients_share_events :
      (turns : List (Turn Json)) (queue : List (Dict Text Json))
      → let (ds, s) = serve turns (with_loop queue) in
        (map (λ d. d.1) ds ++ s.event_queue ≡ queue ++ emitted turns)
        × ((j k : ℕ)
            → j ≢ k
            → length (got j ds) + length (got k ds) ≤ length queue + length (emitted turns))
  clients_share_events turns queue =
      let (ds, s) = serve turns (with_loop queue) in
      (
        conserved turns queue,
        λ j k differ. omega (
          arith,
          got_two j k ds differ,
          length-map (λ (d : ℕ × Dict Text Json). d.1) ds,
          length-append (map (λ (d : ℕ × Dict Text Json). d.1) ds) s.event_queue,
          length-append queue (emitted turns),
          ap length (conserved turns queue),
        ),
      )
