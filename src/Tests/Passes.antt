-- ===== src/Tests/Passes.antt =====
-- The theorems about whole passes over the watch folder, at concrete data.
use mathlib.Core.Path.{subst}
use mathlib.Core.Option.{some-injective, none-ne-some}
use pms_scanner.Prelude.{
  ◌≡◌, refl, sym, inl, inr, arith, Bool-cases, true, none, some, List, [], ◌∷◌, Text, codes,
  text_eq, nat_eq, contains, ◌==◌, ==-false, ok, All, Listed,
}
use pms_scanner.Prelude.Dict
use pms_scanner.FileName.{is_supported, lower, suffix}
use pms_scanner.Tree.{
  Node, FilePath, Folder, watch, processed, in_progress, at, find, folder_eq, path_eq,
}
use pms_scanner.Tree.InOrder.{Unclaimed}
use pms_scanner.Uploader.{classify, response, batch, page_request}
use pms_scanner.Batch.World.{Outside, Runner, World, Status, Event, event, file_done, now}
use pms_scanner.Batch.File.{process_file}
use pms_scanner.Batch.File.Reported.{notices_after, process_file_reports}
use pms_scanner.Tests.Settings.{mail_settings}
use pms_scanner.Batch.File.Frees.{Free}
use pms_scanner.Batch.File.Kept.{Configured}
use pms_scanner.Batch.File.Accepted.{AllAccepted}
use pms_scanner.Batch.Run.{run_once}
use pms_scanner.Batch.Run.Frees.{run_once_frees}
use pms_scanner.Batch.Run.Settled.{Ready}
use pms_scanner.Batch.Run.Sent.{settled_scan_is_sent}
use pms_scanner.Tests.Files.{pages_of_scan, first_page, second_page}
use pms_scanner.Tests.{
  outside, claimed, mac, scan, scan_node, waiting_tree, staging_state, toy_backend,
}

abbrev waiting_world : World
waiting_world = record claimed { tree = waiting_tree }

-- The folders of the machine.
folders_there :
    (folder : Folder)
    → ((k : Text) → folder ≡ in_progress k → k ≡ codes "mac")
    → contains waiting_tree.folders folder ≡ true
unfolding folder_eq
folders_there watch mine = refl
folders_there processed mine = refl
folders_there Folder.failed mine = refl
folders_there (in_progress k) mine =
    subst (λ (m : Text). contains waiting_tree.folders (in_progress m) ≡ true) (sym (mine k refl))
      refl

only_files : (p : FilePath) (x : Node) → find p waiting_tree ≡ some x → x.is_file ≡ true
unfolding Dict.lookup
only_files p x h = elim (Bool-cases (at watch scan == p)) [
  | inl e ↦ subst (λ (n : Node). n.is_file ≡ true) (some-injective _ _ (rw e at h)) refl
  | inr e ↦ absurd (none-ne-some x (rw e at h))
]

nothing_claimed : Unclaimed (codes "mac") waiting_tree
unfolding Dict.lookup
nothing_claimed n = rw (==-false (at watch scan) (at (in_progress (codes "mac")) n) (λ e. cc)) refl

mac_is_Free : Free (codes "mac") waiting_tree
mac_is_Free = (record { there = folders_there; files = only_files }, nothing_claimed)

known_env : Configured (codes "staging") waiting_world.run
unfolding Dict.lookup text_eq nat_eq
known_env = (staging_state, refl)

run_once_frees_example : Free (codes "mac") (run_once outside mac waiting_world).1.tree
run_once_frees_example =
    run_once_frees outside mac waiting_world (λ src dst. refl) (λ name t h. h) (λ name t h. h)
      known_env mac_is_Free

-- A backend that stores every image.
abbrev generous : Outside
generous = record outside {
  backend = record toy_backend { reply = λ posts q. response 200 (batch (q.file_name ∷ []) 0) };
}

all_stored : AllAccepted generous mac
unfolding classify
all_stored = record {
  tries = omega arith;
  accepts = λ posts q. refl;
  encodes = λ image. (image, refl);
}

scan-Ready : Ready generous mac (now generous waiting_world) scan scan_node waiting_tree
unfolding Dict.lookup path_eq is_supported lower suffix text_eq nat_eq
scan-Ready = record { here = refl; supported = refl; settled = refl; file = refl }

settled_scan_is_sent_example :
    let (res, w') = run_once generous mac waiting_world in
    (res ≡ ok tt)
    × Free (codes "mac") w'.tree
    × (find (at watch scan) w'.tree ≡ none)
    × (find (at processed scan) w'.tree ≡ some scan_node)
    × All
        (λ p.
          (bytes : Text) × (generous.imaging.encode_tiff p.image ≡ ok bytes)
          × Listed
              (page_request mac.env scan p.page_num mac.limits.timeout_seconds bytes)
              w'.net.posts)
        (first_page ∷ second_page ∷ [])
settled_scan_is_sent_example =
    settled_scan_is_sent generous mac waiting_world (λ src dst. refl) (λ n t. refl) (λ n t. refl)
      known_env mac_is_Free all_stored scan scan_node scan-Ready pages_of_scan

-- A machine that sends notices.
abbrev telling : Runner
telling = record mac { notifier = some mail_settings }

process_file_reports_example :
    let (res, w') = process_file outside telling scan claimed in
    (status : Status) × (res ≡ ok status)
    × ((older : List Event) × (w'.events ≡ event telling (file_done scan status) ∷ older))
    × (w'.notices ≡ notices_after outside telling mail_settings scan status [])
process_file_reports_example =
    process_file_reports outside telling scan mail_settings claimed known_env refl refl
