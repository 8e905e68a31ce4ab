-- ===== src/Batch/World/Frame.antt =====
-- Which part of a run's state each kind of action leaves alone.
use pms_scanner.Prelude.{Exec, Result, ok, raised, arith}
use pms_scanner.State.{BatchRunState}
use pms_scanner.Tree.{Tree}
use pms_scanner.Uploader.{Net}
use pms_scanner.Notify.{Notice}
use pms_scanner.Batch.Preserves.{Preserves}
use pms_scanner.Batch.Ensures.{Ensures, After, Never}
use pms_scanner.Batch.World.{Runner, World, EventData, on_tree, on_run, on_net, fire, notify}

-- A property of the tree alone.
module _ (Q : Tree → Type 0) {A : Type 0} where
  pub on_run-tree : (m : Exec BatchRunState A) → Preserves (λ w. Q w.tree) (on_run m)
  unfolding on_run
  on_run-tree m = record { at = λ w h. h }

  pub on_net-tree : (m : Exec Net A) → Preserves (λ w. Q w.tree) (on_net m)
  unfolding on_net
  on_net-tree m = record { at = λ w h. h }

  pub on_tree-tree : (m : Exec Tree A) → Preserves Q m → Preserves (λ w. Q w.tree) (on_tree m)
  unfolding on_tree
  on_tree-tree m k = record { at = λ w h. k.at w.tree h }

module _ (Q : Tree → Type 0) where
  pub fire-tree : (r : Runner) (e : EventData) → Preserves (λ w. Q w.tree) (fire r e)
  unfolding fire
  fire-tree r e = record { at = λ w h. ground arith }

  pub notify-tree : (n : Notice) → Preserves (λ w. Q w.tree) (notify n)
  unfolding notify
  notify-tree n = record { at = λ w h. h }

-- A property of the run state alone.
module _ (R : BatchRunState → Type 0) {A : Type 0} where
  pub on_run-run : (m : Exec BatchRunState A) → Preserves R m → Preserves (λ w. R w.run) (on_run m)
  unfolding on_run
  on_run-run m k = record { at = λ w h. k.at w.run h }

  pub on_net-run : (m : Exec Net A) → Preserves (λ w. R w.run) (on_net m)
  unfolding on_net
  on_net-run m = record { at = λ w h. h }

  pub on_tree-run : (m : Exec Tree A) → Preserves (λ w. R w.run) (on_tree m)
  unfolding on_tree
  on_tree-run m = record { at = λ w h. h }

module _ (R : BatchRunState → Type 0) where
  pub fire-run : (r : Runner) (e : EventData) → Preserves (λ w. R w.run) (fire r e)
  unfolding fire
  fire-run r e = record { at = λ w h. ground arith }

  pub notify-run : (n : Notice) → Preserves (λ w. R w.run) (notify n)
  unfolding notify
  notify-run n = record { at = λ w h. h }

-- An action on the tree, in a run where `C` holds of the run state.
module _ (C : BatchRunState → Type 0) {A : Type 0} where
  on_tree_after :
      (Q : A → Tree → Type 0) (w : World) (res : Result A) (t : Tree)
      → After Q Never res t
      → C w.run
      → After (λ a u. Q a u.tree × C u.run) Never res (record w { tree = t })
  on_tree_after Q w (ok a) t h c = (h, c)
  on_tree_after Q w (raised e) t h c = h

  pub Ensures-on_tree :
      {P : Tree → Type 0} {Q : A → Tree → Type 0} (m : Exec Tree A)
      → Ensures P Q Never m
      → Ensures (λ w. P w.tree × C w.run) (λ a w. Q a w.tree × C w.run) Never (on_tree m)
  unfolding on_tree
  Ensures-on_tree {Q} m k = record { at = λ w h. on_tree_after Q w _ _ (k.at w.tree h.0) h.1 }

-- A property of the network's side alone.
module _ (S : Net → Type 0) {A : Type 0} where
  pub on_run-net : (m : Exec BatchRunState A) → Preserves (λ w. S w.net) (on_run m)
  unfolding on_run
  on_run-net m = record { at = λ w h. h }

  pub on_net-net : (m : Exec Net A) → Preserves S m → Preserves (λ w. S w.net) (on_net m)
  unfolding on_net
  on_net-net m k = record { at = λ w h. k.at w.net h }

  pub on_tree-net : (m : Exec Tree A) → Preserves (λ w. S w.net) (on_tree m)
  unfolding on_tree
  on_tree-net m = record { at = λ w h. h }

module _ (S : Net → Type 0) where
  pub fire-net : (r : Runner) (e : EventData) → Preserves (λ w. S w.net) (fire r e)
  unfolding fire
  fire-net r e = record { at = λ w h. ground arith }

  pub notify-net : (n : Notice) → Preserves (λ w. S w.net) (notify n)
  unfolding notify
  notify-net n = record { at = λ w h. h }
