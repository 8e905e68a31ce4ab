-- ===== src/Batch/World.antt =====
-- scanner/batch.py: the runner's settings, the state that a run changes, and what lies outside.
pub mod Frame
use pms_scanner.Prelude.{
  ℕ, Bool, true, false, Option, none, some, List, [], ◌∷◌, Text, if◌then◌else◌, Exec, Fault, ok,
}
use pms_scanner.Prelude.Int.{ℤ}
use pms_scanner.Machine.{MachineIdentity}
use pms_scanner.Config.{Environment}
use pms_scanner.State.{BatchRunState}
use pms_scanner.Uploader.{Backend, Limits, Net}
use pms_scanner.Tree.{Tree, FilePath, Folder}
use pms_scanner.Pdf.{Imaging}
use pms_scanner.Notify.{NotifySettings, Mail, Notice}

-- What the program does not implement: imaging, the backend, the mail server, the renames that
-- the system refuses, the wall clock at each reading of the monotonic clock, and the clock's
-- text in the name of a recovered file.
pub record Outside : Type 1 where
  pub imaging : Imaging
  pub backend : Backend
  pub smtp : Mail → Bool
  pub denied : FilePath → FilePath → Bool
  pub wall : ℕ → ℕ
  pub stamp : ℕ → Text
  -- `str(exc)`
  pub describe : Fault → Text
  -- What other machines and the operator do to the tree while this machine is elsewhere: before
  -- it asks for the age of a listed file, and before it claims one.
  pub before_stat : Text → Tree → Tree
  pub before_claim : Text → Tree → Tree

-- `BatchRunner`
pub record Runner : Type 0 where
  pub env : Environment
  pub machine : MachineIdentity
  -- `_settle`, in milliseconds.
  pub settle : ℕ
  pub limits : Limits
  pub emit : Bool
  pub notifier : Option NotifySettings

pub data Status : Type 0 where
  completed failed failed_permanent : Status

pub data EventData : Type 0 where
  run_started run_done : EventData
  file_started : Text → EventData
  -- The file, the page, the number of pages, success, the rotation and the reduced resolution.
  page_done : Text → ℕ → ℕ → Bool → ℤ → Option ℕ → EventData
  file_done : Text → Status → EventData

pub record Event : Type 0 where
  pub env : Text
  pub machine : Text
  pub content : EventData

-- The events and the notices stand newest first.
pub record World : Type 0 where
  pub tree : Tree
  pub run : BatchRunState
  pub net : Net
  pub events : List Event
  pub notices : List Notice

module _ {A : Type 0} where
  unfoldable pub on_tree : Exec Tree A → Exec World A
  on_tree m w = let (r, t) = m w.tree in (r, record w { tree = t })

  unfoldable pub on_run : Exec BatchRunState A → Exec World A
  on_run m w = let (r, s) = m w.run in (r, record w { run = s })

  unfoldable pub on_net : Exec Net A → Exec World A
  on_net m w = let (r, n) = m w.net in (r, record w { net = n })

abbrev pub event : Runner → EventData → Event
event r content = record { env = r.env.name; machine = r.machine.name; content = content }

-- `_fire`
unfoldable pub fire : Runner → EventData → Exec World (Unit {0})
fire r content w =
    (ok tt, record w { events = if r.emit then event r content ∷ w.events else w.events })

unfoldable pub notify : Notice → Exec World (Unit {0})
notify notice w = (ok tt, record w { notices = notice ∷ w.notices })

-- `datetime.now(UTC)`
abbrev pub now : Outside → World → ℕ
now o w = o.wall w.net.clock
