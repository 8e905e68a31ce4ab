-- ===== src/Batch/Run/Vanished.antt =====
-- `run_once` where a listed file is claimed by another machine before its age is asked for.
use pms_scanner.Prelude.{
  ℕ, ◌≡◌, refl, ap, ◌∙◌, true, ◌&&◌, none, some, List, ◌∷◌, Text, text_eq, contains, ==-refl,
  raised, file_not_found, reading, ◌>>=◌,
}
use pms_scanner.Prelude.Dict
use pms_scanner.FileName.{is_supported}
use pms_scanner.State.{PerEnvRunState, BatchRunState, mark_run_started}
use pms_scanner.State.Laws.{env_state, change-some}
use pms_scanner.Tree.{Tree, watch, folder_eq, path_eq, at, find, is_file, iterdir}
use pms_scanner.Batch.World.{Outside, Runner, World, on_tree, on_run, fire, now}
use pms_scanner.Batch.Run.{examine, find_settled, run_once}

module _ (o : Outside) (r : Runner) where
  find_settled-raised :
      (time : ℕ) (name : Text) (names : List Text) (t : Tree)
      → (is_file (at watch name) t && is_supported name) ≡ true
      → find (at watch name) (o.before_stat name t) ≡ none
      → find_settled o r time (name ∷ names) t ≡ (raised file_not_found, o.before_stat name t)
  unfolding find_settled examine ◌>>=◌
  find_settled-raised time name names t test gone = rw (test, gone) refl

  started_state :
      (s : BatchRunState) (st : PerEnvRunState) (time : ℕ)
      → env_state r.env.name s ≡ some st
      → env_state r.env.name (mark_run_started r.env.name time s).1
        ≡ some (record st { last_run_started_at = some time })
  unfolding mark_run_started
  started_state s st time known = rw (change-some r.env.name _ s st known) (
      Dict.lookup-insert r.env.name r.env.name (record st { last_run_started_at = some time })
        s.per_env
      ∙ rw (==-refl r.env.name) refl)

  ends_early :
      (w : World) (st : PerEnvRunState) (name : Text) (names : List Text)
      → contains w.tree.folders watch ≡ true
      → env_state r.env.name w.run ≡ some st
      → iterdir watch w.tree ≡ name ∷ names
      → (is_file (at watch name) w.tree && is_supported name) ≡ true
      → find (at watch name) (o.before_stat name w.tree) ≡ none
      → ((run_once o r w).0 ≡ raised file_not_found)
        × ((run_once o r w).1.run ≡ (mark_run_started r.env.name (now o w) w.run).1)
  unfolding run_once reading ◌>>=◌ on_run on_tree fire mark_run_started
  ends_early w st name names there known listed test gone =
      rw
        (
          there,
          change-some r.env.name _ w.run st known,
          listed,
          find_settled-raised (now o w) name names w.tree test gone,
        )
        (refl, refl)

  -- Where the first entry of the listing is a scan that is gone when its age is asked for, in a
  -- configured environment, the whole pass ends by `FileNotFoundError`, whatever other files wait:
  -- the run state shows a run that was started, and nothing else in it has changed.
  pub run_once_ends_early :
      (w : World) (st : PerEnvRunState) (name : Text) (names : List Text)
      → contains w.tree.folders watch ≡ true
      → env_state r.env.name w.run ≡ some st
      → iterdir watch w.tree ≡ name ∷ names
      → (is_file (at watch name) w.tree && is_supported name) ≡ true
      → find (at watch name) (o.before_stat name w.tree) ≡ none
      → ((run_once o r w).0 ≡ raised file_not_found)
        × (env_state r.env.name (run_once o r w).1.run
            ≡ some (record st { last_run_started_at = some (now o w) }))
  run_once_ends_early w st name names there known listed test gone =
      let (raises, same) = ends_early w st name names there known listed test gone in
      (raises, ap (env_state r.env.name) same ∙ started_state w.run st (now o w) known)
