-- ===== src/Batch/File/Accepted.antt =====
-- A claimed file where the backend accepts every page.
use mathlib.Core.Path.{subst}
use pms_scanner.Prelude.{
  ℕ, zero, suc, ◌<◌, ◌≡◌, refl, sym, ap, ◌∙◌, Bool, true, false, none, some, List, [], ◌∷◌, Text,
  arith, inl, inr, Listed, All, Result, ok, ◌>>=◌,
}
use pms_scanner.State.{PerEnvRunState}
use pms_scanner.State.Laws.{env_state}
use pms_scanner.Uploader.{
  UploadOutcome, accepted, Request, Net, returns, retry, classify, page_request,
}
use pms_scanner.Uploader.Attempts.{
  Story, exhausted, decided, escaped, AllRetried, upload_page_story,
}
use pms_scanner.Uploader.Attempts.{sent as sent_before}
use pms_scanner.Tree.{Folder, Node, processed, at, find, relocated}
use pms_scanner.Tree.Laws.{CanMove}
use pms_scanner.Pdf.{PageImage, process_pdf}
use pms_scanner.Batch.World.{Outside, Runner, World}
use pms_scanner.Batch.Page.{upload, upload_page_with_downsample}
use pms_scanner.Batch.File.{in_self, process_file}
use pms_scanner.Batch.File.Pages.{Uploads, end, page, all_accepted, any_rejected}
use pms_scanner.Batch.File.Outcome.{destination, process_file_outcome}

-- The backend accepts every request, and every image can be encoded.
pub record AllAccepted (o : Outside) (r : Runner) : Type 0 where
  pub tries : 0 < r.limits.max_retries
  pub accepts :
      (posts : List Request) (q : Request) → classify (o.backend.reply posts q) ≡ returns accepted
  pub encodes :
      (image : o.imaging.Image) → (bytes : Text) × (o.imaging.encode_tiff image ≡ ok bytes)

module _ (o : Outside) (r : Runner) (all : AllAccepted o r) (name : Text) where
  returns_ne_retry : (u : UploadOutcome) → returns u ≡ retry → ⊥
  returns_ne_retry u e = cc

  first_retried :
      (q : Request) (k : ℕ) (posts : List Request)
      → 0 < k
      → AllRetried o.backend q k posts
      → classify (o.backend.reply posts q) ≡ retry
  first_retried q zero posts some_left retried = absurd (omega arith)
  first_retried q (suc k) posts some_left retried = retried.0

  told :
      (q : Request) (k : ℕ) (posts posts' : List Request) (res : Result UploadOutcome)
      → 0 < k
      → Story o.backend q k posts res posts'
      → res ≡ ok accepted
  told q k posts posts' res some_left (exhausted retried same sent) = absurd (
      returns_ne_retry accepted
        (sym (all.accepts posts q) ∙ first_retried q k posts some_left retried))
  told q k posts posts' res some_left (decided i u lt retried c same sent) =
      cc (all.accepts (sent_before o.backend q i posts) q)
  told q k posts posts' res some_left (escaped i text lt retried c same sent) =
      cc (all.accepts (sent_before o.backend q i posts) q)

  upload-accepted :
      (page_num : ℕ) (image : o.imaging.Image) (n : Net)
      → (upload o r name page_num image n).0 ≡ ok accepted
  unfolding upload
  upload-accepted page_num image n =
      let (bytes, e) = all.encodes image in
      rw e (
        told _ _ _ _ _ all.tries (upload_page_story o.backend r.limits r.env name page_num bytes n))

  first_rung :
      (page_num : ℕ) (image : o.imaging.Image) (n : Net)
      → upload_page_with_downsample o r name page_num image n
        ≡ (ok (accepted, none), (upload o r name page_num image n).1)
  unfolding upload_page_with_downsample ◌>>=◌
  first_rung page_num image n = rw (upload-accepted page_num image n) refl

  -- A request that is on record stays there.
  abbrev pub Grows : List Request → List Request → Type 0
  Grows posts posts' = (q : Request) → Listed q posts → Listed q posts'

  -- The request of each page has been sent.
  abbrev pub Posted : List (PageImage o.imaging.Image) → List Request → Type 0
  Posted pages posts =
      All
        (λ p.
          (bytes : Text) × (o.imaging.encode_tiff p.image ≡ ok bytes)
          × Listed (page_request r.env name p.page_num r.limits.timeout_seconds bytes) posts)
        pages

  one_post :
      (q : Request) (k : ℕ) (posts posts' : List Request) (res : Result UploadOutcome)
      → 0 < k
      → Story o.backend q k posts res posts'
      → posts' ≡ q ∷ posts
  one_post q k posts posts' res some_left (exhausted retried same sent) = absurd (
      returns_ne_retry accepted
        (sym (all.accepts posts q) ∙ first_retried q k posts some_left retried))
  one_post q k posts posts' res some_left (decided zero u lt retried c same sent) = sent
  one_post q k posts posts' res some_left (decided (suc i) u lt retried c same sent) =
      absurd (returns_ne_retry accepted (sym (all.accepts posts q) ∙ retried.0))
  one_post q k posts posts' res some_left (escaped zero text lt retried c same sent) = sent
  one_post q k posts posts' res some_left (escaped (suc i) text lt retried c same sent) =
      absurd (returns_ne_retry accepted (sym (all.accepts posts q) ∙ retried.0))

  abbrev request_of : ℕ → o.imaging.Image → Request
  request_of page_num image =
      page_request r.env name page_num r.limits.timeout_seconds (all.encodes image).0

  upload-posts :
      (page_num : ℕ) (image : o.imaging.Image) (n : Net)
      → (upload o r name page_num image n).1.posts ≡ request_of page_num image ∷ n.posts
  unfolding upload
  upload-posts page_num image n =
      let (bytes, e) = all.encodes image in
      rw e (
        one_post _ _ _ _ _ all.tries
          (upload_page_story o.backend r.limits r.env name page_num bytes n))

  -- One page's upload keeps the requests that are on record.
  pub upload_page-Grows :
      (page_num : ℕ) (image : o.imaging.Image) (n : Net)
      → Grows n.posts (upload_page_with_downsample o r name page_num image n).1.posts
  upload_page-Grows page_num image n =
      rw (first_rung page_num image n, upload-posts page_num image n) (λ q l. inr l)

  all-Uploads :
      (pages : List (PageImage o.imaging.Image)) (n : Net)
      → (us : List UploadOutcome) × (n' : Net) × Uploads o r name pages n us n'
        × (all_accepted us ≡ true)
        × Grows n.posts n'.posts
        × Posted pages n'.posts
  all-Uploads [] n = ([], n, end n, refl, λ q l. l, tt)
  all-Uploads (p ∷ pages) n =
      let n₁ = (upload o r name p.page_num p.image n).1 in
      let (us, n', ups, e, grows, posted) = all-Uploads pages n₁ in
      let now : n₁.posts ≡ request_of p.page_num p.image ∷ n.posts =
        upload-posts p.page_num p.image n in
      let (bytes, encoded) = all.encodes p.image in
      (
        accepted ∷ us,
        n',
        page p accepted none (first_rung p.page_num p.image n) ups,
        e,
        λ q l. grows q (subst (Listed q) (sym now) (inr l)),
        ((bytes, encoded, grows _ (subst (Listed _) (sym now) (inl refl))), posted),
      )

  -- A claimed file whose pages load goes to `processed/`, and each of its pages has been sent.
  pub process_file_sends :
      (w : World) (node : Node) (st : PerEnvRunState) {pages : List (PageImage o.imaging.Image)}
      → find (at (in_self o r) name) w.tree ≡ some node
      → process_pdf o.imaging name node.bytes ≡ ok pages
      → CanMove o.denied (at (in_self o r) name) (at processed name) node w.tree
      → env_state r.env.name w.run ≡ some st
      → ((process_file o r name w).1.tree
          ≡ relocated (at (in_self o r) name) (at processed name) node w.tree)
        × Posted pages (process_file o r name w).1.net.posts
  process_file_sends w node st {pages} here loaded c h =
      let (us, n', ups, e, grows, posted) = all-Uploads pages w.net in
      let sends = to_processed (all_accepted us) (any_rejected us) e in
      let finished =
        process_file_outcome o r name w node st here loaded ups
          (subst (λ (f : Folder). CanMove o.denied (at (in_self o r) name) (at f name) node w.tree)
            (sym sends) c)
          h in
      (
        finished.1
            ∙ ap (λ (f : Folder). relocated (at (in_self o r) name) (at f name) node w.tree) sends,
        subst (λ (m : Net). Posted pages m.posts) (sym finished.3) posted,
      )
    where
      to_processed : (a u : Bool) → a ≡ true → destination a u ≡ processed
      to_processed true u e = refl
      to_processed false u e = cc
