-- ===== src/Batch/File/Pages.antt =====
-- What the loop over the pages of a file leaves, from the outcomes of its uploads.
use pms_scanner.Prelude.{
  ℕ, ◌+◌, ◌≡◌, refl, ◌∙◌, Bool, true, false, ◌&&◌, ◌||◌, Option, none, some, List, [], ◌∷◌, ◌++◌,
  Text, codes, text_eq, ==-refl, length, length-append, arith, Result, ok, ◌>>=◌,
}
use pms_scanner.Prelude.Dict
use pms_scanner.State.{
  PerEnvRunState, BatchRunState, change, add_pages_uploaded, add_error, set_current, show_current,
  bump_pages, log_error,
}
use pms_scanner.State.Laws.{env_state, change-some}
use pms_scanner.Uploader.{UploadOutcome, accepted, rejected, failed, Net}
use pms_scanner.Pdf.{PageImage}
use pms_scanner.Batch.World.{Outside, Runner, World, on_run, on_net, fire}
use pms_scanner.Batch.Page.{upload_page_with_downsample}
use pms_scanner.Batch.File.{
  note_outcome, process_page, process_pages, Flags, update_flags, is_accepted, is_rejected, value,
}

abbrev pub one_if : Bool → ℕ
one_if true = 1
one_if false = 0

abbrev pub one_unless : Bool → ℕ
one_unless true = 0
one_unless false = 1

abbrev pub accepted_count : List UploadOutcome → ℕ
accepted_count [] = 0
accepted_count (u ∷ us) = one_if (is_accepted u) + accepted_count us

abbrev pub refused_count : List UploadOutcome → ℕ
refused_count [] = 0
refused_count (u ∷ us) = one_unless (is_accepted u) + refused_count us

abbrev pub all_accepted : List UploadOutcome → Bool
all_accepted [] = true
all_accepted (u ∷ us) = is_accepted u && all_accepted us

abbrev pub any_rejected : List UploadOutcome → Bool
any_rejected [] = false
any_rejected (u ∷ us) = is_rejected u || any_rejected us

-- The record of the environment before and after pages with these outcomes.
pub record Tally (us : List UploadOutcome) (st st' : PerEnvRunState) : Type 0 where
  pub pages : st'.pages_uploaded ≡ st.pages_uploaded + accepted_count us
  pub errors : length st'.errors ≡ length st.errors + refused_count us
  pub files : st'.files_processed ≡ st.files_processed

Tally-trans :
    {vs : List UploadOutcome} {st st' st'' : PerEnvRunState} (u : UploadOutcome)
    → Tally (u ∷ []) st st'
    → Tally vs st' st''
    → Tally (u ∷ vs) st st''
Tally-trans u a b = omega arith

-- The uploads of the pages, one after the other, none of which raises.
pub data Uploads (o : Outside) (r : Runner) (name : Text)
    : List (PageImage o.imaging.Image) → Net → List UploadOutcome → Net → Type 0 where
  end : (n : Net) → Uploads o r name [] n [] n
  page :
      {pages : List (PageImage o.imaging.Image)} {n n' n'' : Net} {us : List UploadOutcome}
      (p : PageImage o.imaging.Image) (u : UploadOutcome) (dpi : Option ℕ)
      → upload_page_with_downsample o r name p.page_num p.image n ≡ (ok (u, dpi), n')
      → Uploads o r name pages n' us n''
      → Uploads o r name (p ∷ pages) n (u ∷ us) n''

abbrev pub all_flags : Flags → List UploadOutcome → Flags
all_flags flags [] = flags
all_flags flags (u ∷ us) = all_flags (update_flags flags u) us

pub all_flags_lem :
    (a b : Bool) (us : List UploadOutcome)
    → all_flags (record { all_ok = a; unrecoverable = b }) us
      ≡ record { all_ok = a && all_accepted us; unrecoverable = b || any_rejected us }
all_flags_lem a b [] = ground arith
all_flags_lem a b (u ∷ us) =
    all_flags_lem (a && is_accepted u) (b || is_rejected u) us ∙ ground arith

-- What a part of the loop has done.
abbrev pub Left :
    Runner
    → PerEnvRunState
    → List UploadOutcome
    → Flags
    → World
    → Net
    → Result Flags × World
    → Type 0
Left r st us flags w n (res, w') =
    (res ≡ ok (all_flags flags us))
    × (w'.tree ≡ w.tree)
    × (w'.net ≡ n)
    × ((st' : PerEnvRunState) × (env_state r.env.name w'.run ≡ some st') × Tally us st st')

module _ (o : Outside) (r : Runner) (name : Text) where
  abbrev with_env :
      (PerEnvRunState → PerEnvRunState) → BatchRunState → PerEnvRunState → BatchRunState
  with_env f s st = record s { per_env = Dict.insert r.env.name (f st) s.per_env }

  with_env-at :
      (f : PerEnvRunState → PerEnvRunState) (s : BatchRunState) (st : PerEnvRunState)
      → env_state r.env.name (with_env f s st) ≡ some (f st)
  with_env-at f s st = rw (Dict.lookup-insert, ==-refl r.env.name)

  -- Two changes of the environment's record, one after the other.
  second :
      (f g : PerEnvRunState → PerEnvRunState) (s : BatchRunState) (st : PerEnvRunState)
      → change r.env.name g (with_env f s st) ≡ (ok tt, with_env g (with_env f s st) (f st))
  second f g s st = change-some r.env.name g (with_env f s st) (f st) (with_env-at f s st)

  abbrev at_page : PageImage o.imaging.Image → PerEnvRunState → PerEnvRunState
  at_page p = show_current none (some p.page_num) none

  abbrev refusal : PageImage o.imaging.Image → UploadOutcome → Net → PerEnvRunState → PerEnvRunState
  refusal p u n = log_error (record {
    filename = name;
    message = codes "upload " ++ value u;
    page_num = some p.page_num;
    at = o.wall n.clock;
  })

  process_page-Left :
      (total : ℕ) (flags : Flags) (p : PageImage o.imaging.Image) (w : World) (st : PerEnvRunState)
      (u : UploadOutcome) (dpi : Option ℕ) (n : Net)
      → upload_page_with_downsample o r name p.page_num p.image w.net ≡ (ok (u, dpi), n)
      → env_state r.env.name w.run ≡ some st
      → Left r st (u ∷ []) flags w n (process_page o r name total flags p w)
  unfolding process_page note_outcome ◌>>=◌ on_run on_net fire add_pages_uploaded add_error
      set_current
  process_page-Left total flags p w st accepted dpi n up h =
      rw
        (
          up,
          change-some r.env.name (bump_pages 1) w.run st h,
          second (bump_pages 1) (at_page p) w.run st,
        )
        (
          refl,
          refl,
          refl,
          (
            at_page p (bump_pages 1 st),
            with_env-at (at_page p) (with_env (bump_pages 1) w.run st) (bump_pages 1 st),
            omega arith,
          ),
        )
  process_page-Left total flags p w st rejected dpi n up h =
      rw
        (
          up,
          change-some r.env.name (refusal p rejected n) w.run st h,
          second (refusal p rejected n) (at_page p) w.run st,
        )
        (
          refl,
          refl,
          refl,
          (
            at_page p (refusal p rejected n st),
            with_env-at (at_page p) (with_env (refusal p rejected n) w.run st)
                (refusal p rejected n st),
            omega (arith, length-append {0}),
          ),
        )
  process_page-Left total flags p w st failed dpi n up h =
      rw
        (
          up,
          change-some r.env.name (refusal p failed n) w.run st h,
          second (refusal p failed n) (at_page p) w.run st,
        )
        (
          refl,
          refl,
          refl,
          (
            at_page p (refusal p failed n st),
            with_env-at (at_page p) (with_env (refusal p failed n) w.run st)
                (refusal p failed n st),
            omega (arith, length-append {0}),
          ),
        )

  Left-trans :
      (u : UploadOutcome) (us : List UploadOutcome) (flags : Flags) (w w₁ : World) (n' : Net)
      (st st₁ : PerEnvRunState) (m : Result Flags × World)
      → w₁.tree ≡ w.tree
      → Tally (u ∷ []) st st₁
      → Left r st₁ us (update_flags flags u) w₁ n' m
      → Left r st (u ∷ us) flags w n' m
  Left-trans u us flags w w₁ n' st st₁ m same t (done, tree, net, (st', at_st', t')) =
      (done, tree ∙ same, net, (st', at_st', Tally-trans u t t'))

  pub process_pages-Left :
      (total : ℕ) (flags : Flags) (w : World) (st : PerEnvRunState)
      {pages : List (PageImage o.imaging.Image)} {n n' : Net} {us : List UploadOutcome}
      → Uploads o r name pages n us n'
      → w.net ≡ n
      → env_state r.env.name w.run ≡ some st
      → Left r st us flags w n' (process_pages o r name total flags pages w)
  unfolding process_pages ◌>>=◌
  process_pages-Left total flags w st (end n) e h = (refl, refl, e, (st, h, omega arith))
  process_pages-Left total flags w st (page {pages = ps} {us = us} p u dpi up rest) e h =
      let w₁ = (process_page o r name total flags p w).1 in
      let (done, tree, net, (st₁, at_st₁, t)) =
        process_page-Left total flags p w st u dpi _ (rw (← e) at up) h in
      rw done (
        Left-trans u us flags w w₁ _ st st₁
          (process_pages o r name total (update_flags flags u) ps w₁) tree t
          (process_pages-Left total (update_flags flags u) w₁ st₁ rest net at_st₁))
