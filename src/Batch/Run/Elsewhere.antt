-- ===== src/Batch/Run/Elsewhere.antt =====
-- A scan that waits, through the rounds of the loop for other files.
use mathlib.Core.Path.{subst}
use pms_scanner.Prelude.{
  ◌≡◌, ◌≢◌, refl, sym, ap, ◌∙◌, Bool, true, false, none, some, List, Text, Listed, All-map, text_eq,
  Exec, pure, ◌>>=◌,
}
use pms_scanner.Tree.{Tree, Node, FilePath, watch, processed, at, find, path_eq}
use pms_scanner.Uploader.{Request}
use pms_scanner.Pdf.{PageImage}
use pms_scanner.Tree.Laws.{find-rename_other}
use pms_scanner.Batch.Preserves.{Preserves-bind, Preserves-pure}
use pms_scanner.Batch.Ensures.{Ensures, Never, Ensures-also, Ensures-bind}
use pms_scanner.Batch.World.{Outside, Runner, World, on_tree}
use pms_scanner.Batch.File.{in_self, process_file}
use pms_scanner.Batch.File.Places.{process_file_touches_only}
use pms_scanner.Batch.File.Frees.{Free, Done}
use pms_scanner.Batch.File.Accepted.{AllAccepted, Posted}
use pms_scanner.Batch.File.Posts.{process_file-kept}
use pms_scanner.Batch.Run.{claim_file, process_if}
use pms_scanner.Batch.Run.Frees.{claim-Claimed, process_if-Done}

-- The scan waits.
abbrev pub Waits : Text → Node → World → Type 0
Waits name node w = find (at watch name) w.tree ≡ some node

-- It has gone to `processed/`.
abbrev pub Gone : Text → Node → Tree → Type 0
Gone name node t = (find (at watch name) t ≡ none) × (find (at processed name) t ≡ some node)

-- The machine has nothing claimed, and the world is as `T` says.
abbrev pub With : Runner → (World → Type 0) → World → Type 0
With r T w = Done r w × T w

-- The scan's places are as they were, and no request is off the record.
pub record Similar (name : Text) (w u : World) : Type 0 where
  pub places : (q : FilePath) → q.name ≡ name → find q u.tree ≡ find q w.tree
  pub posts : (q : Request) → Listed q w.net.posts → Listed q u.net.posts

module _ (name : Text) (node : Node) where
  pub Waits-other : (w u : World) → Similar name w u → Waits name node w → Waits name node u
  Waits-other w u s h = s.places (at watch name) refl ∙ h

module _ (o : Outside) (r : Runner) (all : AllAccepted o r) (name : Text) (node : Node)
    (pages : List (PageImage o.imaging.Image)) where
  -- It has been sent: it has gone to `processed/`, and the request of each page is on record.
  abbrev pub Sent : World → Type 0
  Sent w = Gone name node w.tree × Posted o r all name pages w.net.posts

  pub Sent-other : (w u : World) → Similar name w u → Sent w → Sent u
  Sent-other w u s ((h, k), posted) = (
    (s.places (at watch name) refl ∙ h, s.places (at processed name) refl ∙ k),
    All-map _ _ (λ p (bytes, e, l). (bytes, e, s.posts _ l)) pages posted,
  )

-- One claim of the loop.
abbrev pub claim : Outside → Runner → Text → Exec World Bool
claim o r n = on_tree (λ t. claim_file o r n (o.before_claim n t))

module _ (o : Outside) (r : Runner) (allowed : (src dst : FilePath) → o.denied src dst ≡ false)
    (quiet : (n : Text) (t : Tree) → o.before_claim n t ≡ t) (all : AllAccepted o r)
    (name : Text) where
  keeps_Free :
      (n : Text) (t : Tree) → Free r.machine.name t → Free r.machine.name (o.before_claim n t)
  keeps_Free n t free = subst (Free r.machine.name) (sym (quiet n t)) free

  -- Another file's round leaves the scan's places alone.
  module _ (n : Text) (other : name ≢ n) where
    claim_elsewhere :
        (q : FilePath) (t : Tree)
        → q.name ≡ name
        → find q (claim_file o r n (o.before_claim n t)).1 ≡ find q t
    unfolding claim_file
    claim_elsewhere q t e =
        find-rename_other o.denied (at watch n) (at (in_self o r) n) (o.before_claim n t) q
          (λ same. other (sym e ∙ sym (ap (λ (p : FilePath). p.name) same)))
          (λ same. other (sym e ∙ sym (ap (λ (p : FilePath). p.name) same)))
        ∙ ap (find q) (quiet n t)

    file_elsewhere :
        (q : FilePath) (w : World)
        → q.name ≡ name
        → find q (process_file o r n w).1.tree ≡ find q w.tree
    file_elsewhere q w e =
        process_file_touches_only o r n w.tree w q refl
          (λ same. other (sym e ∙ ap (λ (p : FilePath). p.name) same))
          (λ both. other (sym e ∙ both.1))

    process_if_elsewhere :
        (claimed : Bool) (q : FilePath) (w : World)
        → q.name ≡ name
        → find q (process_if o r claimed n w).1.tree ≡ find q w.tree
    unfolding pure
    process_if_elsewhere true q w e =
        (Preserves-bind {P = λ (u : World). find q u.tree ≡ find q w.tree} _ _
            (record { at = λ u h. file_elsewhere q u e ∙ h }) (λ status. Preserves-pure _)).at
          w refl
    process_if_elsewhere false q w e = refl

    claim-Similar : (w : World) → Similar name w (claim o r n w).1
    unfolding on_tree
    claim-Similar w = record { places = λ q e. claim_elsewhere q w.tree e; posts = λ q l. l }

    process_if_posts :
        (claimed : Bool) (q : Request) (w : World)
        → Listed q w.net.posts
        → Listed q (process_if o r claimed n w).1.net.posts
    unfolding pure
    process_if_posts true q w l =
        (Preserves-bind {P = λ (u : World). Listed q u.net.posts} _ _
            (process_file-kept o r all q n) (λ status. Preserves-pure _)).at
          w l
    process_if_posts false q w l = l

    process_if-Similar :
        (claimed : Bool) (w : World) → Similar name w (process_if o r claimed n w).1
    process_if-Similar claimed w = record {
      places = λ q e. process_if_elsewhere claimed q w e;
      posts = λ q l. process_if_posts claimed q w l;
    }

  -- A predicate on the scan's places and requests.
  module _ (T : World → Type 0) (local : (w u : World) → Similar name w u → T w → T u) where
    pub other_round :
        (n : Text)
        → name ≢ n
        → (rest : Exec World (Unit {0})) (Q : Unit {0} → World → Type 0)
        → Ensures (With r T) Q Never rest
        → Ensures
            (With r T)
            Q
            Never
            (claim o r n >>= λ claimed. process_if o r claimed n >>= λ _. rest)
    other_round n other rest Q k =
        Ensures-bind
          (Ensures-also T (claim-Claimed o r allowed keeps_Free n) (λ w h. h.0)
            (λ w h. local w _ (claim-Similar n other w) h.1))
          (λ claimed.
            Ensures-bind
              (Ensures-also T (process_if-Done o r allowed claimed n) (λ w h. h.0)
                (λ w h. local w _ (process_if-Similar n other claimed w) h.1))
              (λ _. k))
