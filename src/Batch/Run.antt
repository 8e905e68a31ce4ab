-- ===== src/Batch/Run.antt =====
-- scanner/batch.py: claims, crash recovery and one pass over the watch folder.
pub mod Claims
pub mod Recovery
pub mod Emptied
pub mod Returned
pub mod Peers
pub mod Vanished
pub mod Overlap
pub mod Settled
pub mod Elsewhere
pub mod Rounds
pub mod Sent
pub mod Keeps
pub mod Frees
pub mod Strangers
use pms_scanner.Prelude.{
  ℕ, ◌+◌, Bool, true, false, ◌&&◌, Option, none, some, List, [], ◌∷◌, ◌++◌, Text, codes, leb,
  contains, if◌then◌else◌, Exec, Result, ok, raised, Fault, file_not_found, pure, reading, ◌>>=◌,
  ◌>>◌,
}
use pms_scanner.FileName.{is_supported}
use pms_scanner.State.{mark_run_started, mark_run_finished}
use pms_scanner.Tree.{
  Tree, Folder, watch, processed, in_progress, folder_eq, at, find, exists, is_file, iterdir, mkdir,
  rename,
}
use pms_scanner.Batch.World.{
  Outside, Runner, World, run_started, run_done, on_tree, on_run, fire, now,
}
use pms_scanner.Batch.File.{in_self, process_file}

-- `_ensure_dirs`: `mkdir(parents=True)` makes the watch folder too.
unfoldable pub ensure_dirs : Text → Tree → Tree
ensure_dirs machine t =
    mkdir Folder.failed (mkdir processed (mkdir (in_progress machine) (mkdir watch t)))

-- The `except (FileNotFoundError, NotADirectoryError)` of `claim_file`.
abbrev pub lost_race : Result (Unit {0}) → Result Bool
lost_race (ok _) = ok true
lost_race (raised file_not_found) = ok false
lost_race (raised exc) = raised exc

module _ (o : Outside) (r : Runner) where
  -- `claim_file`: whether the file is this machine's now.
  unfoldable pub claim_file : Text → Exec Tree Bool
  claim_file name t =
      let (renamed, t') = rename o.denied (at watch name) (at (in_self o r) name) t in
      (lost_race renamed, t')

  -- The age test of `_find_settled`, at the wall clock `time`.
  abbrev pub is_settled : ℕ → ℕ → Bool
  is_settled time mtime = leb (mtime + r.settle) time

  -- One round of `_find_settled`: whether the entry is kept. A file that goes between `is_file`
  -- and `stat` makes `stat` raise.
  unfoldable pub examine : ℕ → Text → Exec Tree Bool
  examine time name t =
      if is_file (at watch name) t && is_supported name
      then elim (find (at watch name) (o.before_stat name t)) [
        | none ↦ (raised file_not_found, o.before_stat name t)
        | some node ↦ (ok (is_settled time node.mtime), o.before_stat name t)
      ]
      else (ok false, t)

  -- `for entry in watch.iterdir()`
  unfoldable pub find_settled : ℕ → List Text → Exec Tree (List Text)
  find_settled time [] = pure []
  find_settled time (name ∷ names) = do
    settled ← examine time name
    rest ← find_settled time names
    pure (if settled then name ∷ rest else rest)

  abbrev pub process_if : Bool → Text → Exec World (Unit {0})
  process_if true name = do process_file o r name; pure tt
  process_if false name = pure tt

  -- `for src in self._find_settled(watch)`
  unfoldable pub run_files : List Text → Exec World (Unit {0})
  run_files [] = pure tt
  run_files (name ∷ names) = do
    claimed ← on_tree (λ t. claim_file name (o.before_claim name t))
    process_if claimed name
    run_files names

  -- `run_once`
  unfoldable pub run_once : Exec World (Unit {0})
  run_once = reading λ w.
      if contains w.tree.folders watch
      then (do
        (reading λ w. on_run (mark_run_started r.env.name (now o w)))
        fire r run_started
        settled ← (reading λ w. on_tree (find_settled (now o w) (iterdir watch w.tree)))
        run_files settled
        (reading λ w. on_run (mark_run_finished r.env.name (now o w)))
        fire r run_done)
      else pure tt

  -- The name under which a stranded file returns.
  abbrev pub recovered_name : ℕ → Text → Tree → Text
  recovered_name clock name t =
      if exists (at watch name) t then name ++ (codes ".recovered-" ++ o.stamp clock) else name

  -- One round of `recover_stranded`, at the clock: whether the entry was returned.
  unfoldable pub recover_one : ℕ → Text → Exec Tree Bool
  recover_one clock name = reading λ t.
      if is_file (at (in_self o r) name) t && is_supported name
      then (do
        rename o.denied (at (in_self o r) name) (at watch (recovered_name clock name t))
        pure true)
      else pure false

  unfoldable pub recover_all : ℕ → List Text → Exec Tree (List Text)
  recover_all clock [] = pure []
  recover_all clock (name ∷ names) = do
    recovered ← recover_one clock name
    rest ← recover_all clock names
    pure (if recovered then name ∷ rest else rest)

  -- `recover_stranded`. A missing folder is the `except FileNotFoundError`.
  unfoldable pub recover_stranded : ℕ → Exec Tree (List Text)
  recover_stranded clock = reading λ t.
      if contains t.folders (in_self o r)
      then recover_all clock (iterdir (in_self o r) t)
      else pure []
