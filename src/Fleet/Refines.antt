-- ===== src/Fleet/Refines.antt =====
-- Every change that the batch runner makes to the tree is a step of its machine.
use pms_scanner.Prelude.{ℕ, refl, List, [], ◌∷◌, Text}
use pms_scanner.Tree.{Tree, Folder, watch, processed, at, rename}
use pms_scanner.Tree.Laws.{stays, moves, rename-Moved}
use pms_scanner.Batch.Preserves.{Preserves, Preserves-bind, Preserves-pure, preserves_rules}
use pms_scanner.Batch.World.{Outside, Runner, World}
use pms_scanner.Batch.File.{in_self, process_file}
use pms_scanner.Batch.File.Places.{Placed, still, put, process_file-Placed}
use pms_scanner.Batch.Run.Keeps.{run_once-Preserves}
use pms_scanner.Batch.Run.{run_once, recover_one, recover_all, recover_stranded, ensure_dirs}
use pms_scanner.Fleet.{claims, puts, gives_back, makes, Trace, here, own, out}

module _ (o : Outside) (r : Runner) (Out : Tree → Tree → Type 0) (t0 : Tree) where
  abbrev Steps : Tree → Type 0
  Steps t = Trace r.machine.name Out t0 t

  module _ (before_stat : (name : Text) (t : Tree) → Out t (o.before_stat name t))
      (before_claim : (name : Text) (t : Tree) → Out t (o.before_claim name t)) where
    claimed-Steps :
        (name : Text) (t : Tree)
        → Steps t
        → Steps (rename o.denied (at watch name) (at (in_self o r) name) t).1
    claimed-Steps name t h =
        elim (rename-Moved o.denied (at watch name) (at (in_self o r) name) t) [
          | stays e failed same ↦ rw same h
          | moves node found done same ↦ own h (claims name node found same)
        ]

    placed-Steps : (name : Text) (t t' : Tree) → Placed (in_self o r) name t t' → Steps t → Steps t'
    placed-Steps name t t' (still same) h = rw same h
    placed-Steps name t t' (put folder node d found same) h =
        own h (puts folder name node d found same)

    process_file-Steps : (name : Text) → Preserves (λ w. Steps w.tree) (process_file o r name)
    process_file-Steps name = record {
      at = λ w h.
          placed-Steps name w.tree _ ((process_file-Placed o r name w.tree).at w (still refl)) h;
    }

    pub run_once-Steps : Preserves (λ w. Steps w.tree) (run_once o r)
    run_once-Steps =
        run_once-Preserves o r Steps (λ name t h. out h (before_stat name t))
          (λ name t h. out h (before_claim name t)) claimed-Steps process_file-Steps

  returned-Steps :
      (name new : Text) → Preserves Steps (rename o.denied (at (in_self o r) name) (at watch new))
  returned-Steps name new = record {
    at = λ t h. elim (rename-Moved o.denied (at (in_self o r) name) (at watch new) t) [
      | stays e failed same ↦ rw same h
      | moves node found done same ↦ own h (gives_back name new node found same)
    ];
  }

  recover_one-Steps : (clock : ℕ) (name : Text) → Preserves Steps (recover_one o r clock name)
  unfolding recover_one
  recover_one-Steps clock name = search (preserves_rules, returned-Steps) depth 8

  recover_all-Steps :
      (clock : ℕ) (names : List Text) → Preserves Steps (recover_all o r clock names)
  unfolding recover_all
  recover_all-Steps clock [] = search preserves_rules
  recover_all-Steps clock (name ∷ names) =
      Preserves-bind _ _ (recover_one-Steps clock name)
        (λ recovered. Preserves-bind _ _ (recover_all-Steps clock names) (λ rest. Preserves-pure _))

  recover_stranded-Steps : (clock : ℕ) → Preserves Steps (recover_stranded o r clock)
  unfolding recover_stranded
  recover_stranded-Steps clock = search (preserves_rules, recover_all-Steps) depth 8

  ensure_dirs-Steps : Steps (ensure_dirs r.machine.name t0)
  unfolding ensure_dirs
  ensure_dirs-Steps =
      own
        (own (own (own here (makes watch refl)) (makes (in_self o r) refl)) (makes processed refl))
        (makes Folder.failed refl)

-- The batch runner implements the machine of the fleet: making its folders, recovering what is
-- stranded, and a pass over the watch folder, whatever they meet and whether they return or raise,
-- change the tree by steps of the runner's own machine only, between the steps of others that the
-- pass meets when it asks for an age and when it claims.
pub batch_runner_refines :
    (o : Outside) (r : Runner) (Out : Tree → Tree → Type 0) (clock : ℕ) (w : World)
    → ((name : Text) (t : Tree) → Out t (o.before_stat name t))
    → ((name : Text) (t : Tree) → Out t (o.before_claim name t))
    → Trace r.machine.name Out w.tree (ensure_dirs r.machine.name w.tree)
      × Trace r.machine.name Out w.tree (recover_stranded o r clock w.tree).1
      × Trace r.machine.name Out w.tree (run_once o r w).1.tree
batch_runner_refines o r Out clock w before_stat before_claim = (
  ensure_dirs-Steps o r Out w.tree,
  (recover_stranded-Steps o r Out w.tree clock).at w.tree here,
  (run_once-Steps o r Out w.tree before_stat before_claim).at w here,
)
