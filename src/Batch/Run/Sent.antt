-- ===== src/Batch/Run/Sent.antt =====
-- `run_once` sends a scan that waits.
use pms_scanner.Prelude.{
  ℕ, ◌≡◌, ◌≢◌, refl, sym, ap, inl, inr, false, none, some, List, [], ◌∷◌, Text, Listed, All,
  text_eq, ◌==◌, ==-true, Bool-cases, arith, ok,
}
use mathlib.Core.Path.{subst}
use pms_scanner.State.{BatchRunState, PerEnvRunState, change, mark_run_started, mark_run_finished}
use pms_scanner.Tree.{Tree, Node, FilePath, watch, processed, at, find, iterdir, folder_eq}
use pms_scanner.Uploader.{page_request}
use pms_scanner.Pdf.{PageImage, process_pdf}
use pms_scanner.Batch.Ensures.{
  Ensures, Never, Ensures-also, Ensures-bind, Ensures-pure, Ensures-weaken, Ensures-reading,
  Ensures-reading_here, Ensures-end,
}
use pms_scanner.Batch.World.{Outside, Runner, World, Event, EventData, on_tree, on_run, fire, now}
use pms_scanner.Batch.World.Frame.{Ensures-on_tree}
use pms_scanner.Batch.File.Kept.{Configured, Both, change_sure, fire_sure}
use pms_scanner.Batch.File.Frees.{Free, Done}
use pms_scanner.Batch.File.Accepted.{AllAccepted}
use pms_scanner.Batch.Run.{find_settled, run_files, run_once}
use pms_scanner.Batch.Run.Settled.{Ready, iterdir-Listed, find_settled-Found}
use pms_scanner.Batch.Run.Elsewhere.{Waits, Sent, Waits-other, Sent-other, With, other_round}
use pms_scanner.Batch.Run.Rounds.{Sent-round, waiting_round}

module _ (o : Outside) (r : Runner) (allowed : (src dst : FilePath) → o.denied src dst ≡ false)
    (quiet_stat : (n : Text) (t : Tree) → o.before_stat n t ≡ t)
    (quiet_claim : (n : Text) (t : Tree) → o.before_claim n t ≡ t) (all : AllAccepted o r)
    (name : Text) (node : Node) (pages : List (PageImage o.imaging.Image)) where
  abbrev S : World → Type 0
  S = Sent o r all name node pages

  differs : (n : Text) → (n == name) ≡ false → name ≢ n
  differs n h e = ground arith

  files_after : (names : List Text) → Ensures (With r S) (λ u. With r S) Never (run_files o r names)
  unfolding run_files
  files_after [] = Ensures-pure {Q = λ u. With r S} tt
  files_after (n ∷ names) = elim (Bool-cases (n == name)) [
    | inl same ↦
        rw (==-true n name same)
          (Sent-round o r allowed quiet_claim all name node pages _ _ (files_after names))
    | inr other ↦
        other_round o r allowed quiet_claim all name S (Sent-other o r all name node pages) n
          (differs n other) _ _ (files_after names)
  ]

  module _ (loaded : process_pdf o.imaging name node.bytes ≡ ok pages) where
    files-Sent :
        (names : List Text)
        → Listed name names
        → Ensures (With r (Waits name node)) (λ u. With r S) Never (run_files o r names)
    unfolding run_files
    files-Sent [] listed = absurd listed
    files-Sent (n ∷ names) listed = elim (Bool-cases (n == name)) [
      | inl same ↦
          rw (==-true n name same) (
            waiting_round o r allowed quiet_claim all name node pages loaded _ _
              (files_after names))
      | inr other ↦
          other_round o r allowed quiet_claim all name (Waits name node) (Waits-other name node) n
            (differs n other) _ _ (files-Sent names (later n names other listed))
    ]
      where
        later :
            (n : Text) (names : List Text)
            → (n == name) ≡ false
            → Listed name (n ∷ names)
            → Listed name names
        later n names other l = elim l [
          | inl same ↦ absurd (differs n other (sym same))
          | inr rest ↦ rest
        ]

    -- What the changes of the run state and the events leave, of the tree and of the clock.
    changed :
        (Q : Tree → Type 0) (C : World → Type 0)
        → ((w : World) (s : BatchRunState) → C w → C (record w { run = s }))
        → (f : PerEnvRunState → PerEnvRunState)
        → Ensures
            (λ w. Both Q r.env.name w × C w)
            (λ u w. Both Q r.env.name w × C w)
            Never
            (on_run (change r.env.name f))
    unfolding on_run
    changed Q C local f =
        Ensures-also C (change_sure Q r.env.name Never f) (λ w h. h.0) (λ w h. local w _ h.1)

    fired :
        (Q : Tree → Type 0) (C : World → Type 0)
        → ((w : World) (es : List Event) → C w → C (record w { events = es }))
        → (x : EventData)
        → Ensures
            (λ w. Both Q r.env.name w × C w)
            (λ u w. Both Q r.env.name w × C w)
            Never
            (fire r x)
    unfolding fire
    fired Q C local x =
        Ensures-also C (fire_sure Q r.env.name Never r x) (λ w h. h.0) (λ w h. local w _ h.1)

    -- The scan is ready at the time that the clock shows.
    abbrev Due : ℕ → World → Type 0
    Due time w = Ready o r time name node w.tree × (now o w ≡ time)

    abbrev Settles : ℕ → World → Type 0
    Settles time w = Done r w × Due time w

    found_scan :
        (time : ℕ) (w : World)
        → Settles time w
        → Ensures
            (λ u. u ≡ w)
            (λ found u. Listed name found × With r (Waits name node) u)
            Never
            (on_tree (find_settled o r (now o w) (iterdir watch w.tree)))
    found_scan time w ((known, free), (ready, clock)) =
        Ensures-weaken
          (λ u e. (
            ap (λ (v : World). v.tree) e,
            subst (λ (v : World). Configured r.env.name v.run) (sym e) known,
          ))
          (λ found u ((same, listed), c). (
            listed name node (iterdir-Listed watch name node w.tree ready.here)
                (subst (λ (t : ℕ). Ready o r t name node w.tree) (sym clock) ready),
            (
              (c, subst (Free r.machine.name) (sym same) free),
              subst (λ (t : Tree). find (at watch name) t ≡ some node) (sym same) ready.here,
            ),
          ))
          (λ u h. h)
          (Ensures-on_tree (Configured r.env.name)
            (find_settled o r (now o w) (iterdir watch w.tree))
            (find_settled-Found o r (now o w) w.tree quiet_stat (iterdir watch w.tree)))

    run_once_sends : (time : ℕ) → Ensures (Settles time) (λ u. With r S) Never (run_once o r)
    unfolding run_once mark_run_started mark_run_finished
    run_once_sends time = Ensures-reading_here _ (λ w h. rw (h.0.1.0.there watch (λ k e. cc)) (
        Ensures-weaken (λ u e. subst (Settles time) (sym e) h) (λ a u k. k) (λ u k. k)
          (Ensures-bind
            (Ensures-reading _ (λ w. changed (Free r.machine.name) (Due time) (λ v s d. d) _))
            (λ _. Ensures-bind (fired (Free r.machine.name) (Due time) (λ v es d. d) _) (λ _.
              Ensures-bind (Ensures-reading_here _ (found_scan time)) (λ settled.
                Ensures-bind (record { at = λ u (listed, k). (files-Sent settled listed).at u k })
                  (λ _.
                    Ensures-bind
                      (Ensures-reading _ (λ w. changed (Free r.machine.name) S (λ v s d. d) _))
                      (λ _. fired (Free r.machine.name) S (λ v es d. d) _))))))))

-- A scan that waits is sent. Where the system refuses no rename and nobody else touches the tree
-- meanwhile, the environment is configured, the folders are there with only files in them and the
-- machine has nothing claimed, and where the backend accepts every request and every image can be
-- encoded: a pass over the watch folder returns, with nothing claimed, and every file that is a
-- scan, has settled and loads into pages has gone from the watch folder to `processed/`, and of
-- each of its pages the request, with the bytes of the encoded image and the number of the page,
-- has gone to the backend, whatever other files wait beside it and whatever becomes of them.
pub settled_scan_is_sent :
    (o : Outside) (r : Runner) (w : World)
    → ((src dst : FilePath) → o.denied src dst ≡ false)
    → ((n : Text) (t : Tree) → o.before_stat n t ≡ t)
    → ((n : Text) (t : Tree) → o.before_claim n t ≡ t)
    → Configured r.env.name w.run
    → Free r.machine.name w.tree
    → AllAccepted o r
    → (name : Text) (node : Node) {pages : List (PageImage o.imaging.Image)}
    → Ready o r (now o w) name node w.tree
    → process_pdf o.imaging name node.bytes ≡ ok pages
    → let (res, w') = run_once o r w in
      (res ≡ ok tt)
      × Free r.machine.name w'.tree
      × (find (at watch name) w'.tree ≡ none)
      × (find (at processed name) w'.tree ≡ some node)
      × All
          (λ p.
            (bytes : Text) × (o.imaging.encode_tiff p.image ≡ ok bytes)
            × Listed
                (page_request r.env name p.page_num r.limits.timeout_seconds bytes)
                w'.net.posts)
          pages
settled_scan_is_sent o r w allowed quiet_stat quiet_claim known free all name node {pages} ready
      loaded =
    let (a, done, ((c, free'), ((gone, there), posted))) =
      Ensures-end
        (run_once_sends o r allowed quiet_stat quiet_claim all name node pages loaded (now o w)) w
        ((known, free), (ready, refl)) in
    (done, free', gone, there, posted)
