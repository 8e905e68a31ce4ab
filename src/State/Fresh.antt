-- ===== src/State/Fresh.antt =====
-- scanner/state.py: what a new run state holds.
use pms_scanner.Prelude.{
  ◌≡◌, refl, inl, inr, some, List, [], ◌∷◌, Text, text_eq, ◌==◌, ==-refl, ==-true, Bool-cases, All,
  All-map, ◌∙◌, ap,
}
use mathlib.Core.Option
use pms_scanner.Prelude.Dict
use pms_scanner.Prelude.Dict.{Dict}
use pms_scanner.Machine.{MachineIdentity}
use pms_scanner.State.{PerEnvRunState, fresh, fresh_all, new_state}
use pms_scanner.State.Laws.{Update, env_state, calls, calls_isolated, own, effects}

module _ (machine : MachineIdentity) where
  abbrev Holds : Dict Text PerEnvRunState → Text → Type 0
  Holds d name = Dict.lookup name d ≡ some (fresh machine.name name)

  insert-Holds :
      (k name : Text) (d : Dict Text PerEnvRunState)
      → Holds d name
      → Holds (Dict.insert k (fresh machine.name k) d) name
  insert-Holds k name d h = elim (Bool-cases (k == name)) [
    | inl same ↦
        rw (Dict.lookup-insert k name (fresh machine.name k) d, same, ==-true k name same) refl
    | inr other ↦ rw (Dict.lookup-insert k name (fresh machine.name k) d, other) h
  ]

  inserted-Holds :
      (k : Text) (d : Dict Text PerEnvRunState) → Holds (Dict.insert k (fresh machine.name k) d) k
  inserted-Holds k d = rw (Dict.lookup-insert k k (fresh machine.name k) d, ==-refl k) refl

  fresh_all-Holds :
      (name : Text) (names : List Text) (d : Dict Text PerEnvRunState)
      → Holds d name
      → Holds (fresh_all machine names d) name
  unfolding fresh_all
  fresh_all-Holds name [] d h = h
  fresh_all-Holds name (k ∷ names) d h = fresh_all-Holds name names _ (insert-Holds k name d h)

  fresh_all-All :
      (names : List Text) (d : Dict Text PerEnvRunState)
      → All (Holds (fresh_all machine names d)) names
  unfolding fresh_all
  fresh_all-All [] d = tt
  fresh_all-All (k ∷ names) d =
      (fresh_all-Holds k names _ (inserted-Holds k d), fresh_all-All names _)

  pub new_state-All :
      (names : List Text)
      → All
          (λ name. env_state name (new_state machine names) ≡ some (fresh machine.name name))
          names
  unfolding new_state
  new_state-All names = fresh_all-All names []

  -- After any calls on a new state, each environment that it was made for has its record.
  pub calls-new_state :
      (names : List Text) (trace : List (Text × Update))
      → All
          (λ name.
            env_state name (calls trace (new_state machine names))
            ≡ some (effects (own name trace) (fresh machine.name name)))
          names
  calls-new_state names trace =
      All-map _ _
        (λ name h.
          calls_isolated name trace (new_state machine names)
          ∙ ap (Option.map (effects (own name trace))) h)
        names (new_state-All names)
