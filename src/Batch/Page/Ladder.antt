-- ===== src/Batch/Page/Ladder.antt =====
-- scanner/batch.py: how the upload of a page goes down the ladder of resolutions.
use pms_scanner.Prelude.{
  ℕ, zero, suc, ◌+◌, ◌*◌, ◌≤◌, ◌≡◌, refl, ap, inl, inr, ◌⊎◌, Option, none, some, List, [], ◌∷◌,
  Text, arith, length, Exec, Result, ok, raised, Fault, pure, ◌>>=◌,
}
use pms_scanner.Uploader.{
  UploadOutcome, accepted, rejected, failed, Net, Request, upload_page, page_request,
}
use pms_scanner.Uploader.Attempts.{Story, exhausted, decided, escaped, sent, upload_page_story}
use pms_scanner.Pdf.{downsample_image}
use pms_scanner.Batch.World.{Outside, Runner}
use pms_scanner.Batch.Page.{
  downsample_dpi_ladder, upload, after_retry, ladder, after_full, upload_page_with_downsample,
}

module _ (o : Outside) (r : Runner) (name : Text) (page_num : ℕ) (image : o.imaging.Image) where
  -- The page at full resolution, or reduced.
  abbrev pub image_at : Option ℕ → o.imaging.Image
  image_at none = image
  image_at (some dpi) = downsample_image o.imaging image dpi

  -- An upload at each resolution in turn, for as long as the backend rejects the page.
  pub data Descent : List (Option ℕ) → Net → Result (UploadOutcome × Option ℕ) × Net → Type 0 where
    bottom : (n : Net) → Descent [] n (ok (rejected, none), n)
    taken :
        (rung : Option ℕ) (rungs : List (Option ℕ)) (n n' : Net)
        → upload o r name page_num (image_at rung) n ≡ (ok accepted, n')
        → Descent (rung ∷ rungs) n (ok (accepted, rung), n')
    stopped :
        (rung : Option ℕ) (rungs : List (Option ℕ)) (n n' : Net)
        → upload o r name page_num (image_at rung) n ≡ (ok failed, n')
        → Descent (rung ∷ rungs) n (ok (failed, none), n')
    broken :
        (rung : Option ℕ) (rungs : List (Option ℕ)) (n n' : Net) (e : Fault)
        → upload o r name page_num (image_at rung) n ≡ (raised e, n')
        → Descent (rung ∷ rungs) n (raised e, n')
    lower :
        (rung : Option ℕ) (rungs : List (Option ℕ)) (n n' : Net)
        (end : Result (UploadOutcome × Option ℕ) × Net)
        → upload o r name page_num (image_at rung) n ≡ (ok rejected, n')
        → Descent rungs n' end
        → Descent (rung ∷ rungs) n end

  abbrev reduced : List ℕ → List (Option ℕ)
  reduced [] = []
  reduced (dpi ∷ dpis) = some dpi ∷ reduced dpis

  -- The rest of the loop, from the outcome at one resolution.
  rung-Descent :
      (dpi : ℕ) (rungs : List (Option ℕ)) (n : Net) (rest : Exec Net (UploadOutcome × Option ℕ))
      → ((m : Net) → Descent rungs m (rest m))
      → (u : UploadOutcome) (n' : Net)
      → upload o r name page_num (image_at (some dpi)) n ≡ (ok u, n')
      → Descent (some dpi ∷ rungs) n (after_retry o r dpi u rest n')
  unfolding pure
  rung-Descent dpi rungs n rest k accepted n' e = taken (some dpi) rungs n n' e
  rung-Descent dpi rungs n rest k rejected n' e = lower (some dpi) rungs n n' _ e (k n')
  rung-Descent dpi rungs n rest k failed n' e = stopped (some dpi) rungs n n' e

  full-Descent :
      (rungs : List (Option ℕ)) (n : Net) (rest : Exec Net (UploadOutcome × Option ℕ))
      → ((m : Net) → Descent rungs m (rest m))
      → (u : UploadOutcome) (n' : Net) → upload o r name page_num image n ≡ (ok u, n')
      → Descent (none ∷ rungs) n (after_full o r u rest n')
  unfolding pure
  full-Descent rungs n rest k accepted n' e = taken none rungs n n' e
  full-Descent rungs n rest k rejected n' e = lower none rungs n n' _ e (k n')
  full-Descent rungs n rest k failed n' e = stopped none rungs n n' e

  Result-cases :
      (m : Result UploadOutcome × Net)
      → ((u : UploadOutcome) × (n' : Net) × (m ≡ (ok u, n')))
        ⊎ ((e : Fault) × (n' : Net) × (m ≡ (raised e, n')))
  Result-cases (ok u, n') = inl (u, n', refl)
  Result-cases (raised e, n') = inr (e, n', refl)

  ladder-Descent :
      (dpis : List ℕ) (n : Net) → Descent (reduced dpis) n (ladder o r name page_num image dpis n)
  unfolding ladder ◌>>=◌
  ladder-Descent [] n = bottom n
  ladder-Descent (dpi ∷ dpis) n =
      elim (Result-cases (upload o r name page_num (image_at (some dpi)) n)) [
        | inl (u, n', e) ↦ rw e (rung-Descent dpi (reduced dpis) n _ (ladder-Descent dpis) u n' e)
        | inr (fault, n', e) ↦ rw e (broken (some dpi) (reduced dpis) n n' fault e)
      ]

  -- A page goes up at full resolution, then at 150 and at 75 dots per inch, each only after the
  -- backend has rejected the resolution before. The first other outcome ends it: an accepted page
  -- with the resolution that was accepted, a failure as such. Rejected by all three, it is
  -- rejected.
  pub page_descends :
      (n : Net)
      → Descent
          (none ∷ some 150 ∷ some 75 ∷ [])
          n
          (upload_page_with_downsample o r name page_num image n)
  unfolding upload_page_with_downsample ◌>>=◌
  page_descends n = elim (Result-cases (upload o r name page_num image n)) [
    | inl (u, n', e) ↦
        rw e
          (full-Descent (some 150 ∷ some 75 ∷ []) n _ (ladder-Descent downsample_dpi_ladder) u n' e)
    | inr (fault, n', e) ↦ rw e (broken none (some 150 ∷ some 75 ∷ []) n n' fault e)
  ]

  -- Every resolution of the page can be encoded.
  abbrev pub Encodable : Type 0
  Encodable =
      (rung : Option ℕ) → (bytes : Text) × (o.imaging.encode_tiff (image_at rung) ≡ ok bytes)

  length-sent :
      (q : Request) (k : ℕ) (posts : List Request)
      → length (sent o.backend q k posts) ≡ length posts + k
  length-sent q zero posts = omega arith
  length-sent q (suc k) posts = omega (arith, length-sent q k (q ∷ posts))

  story_bound :
      (q : Request) (left : ℕ) (posts posts' : List Request) (res : Result UploadOutcome)
      → Story o.backend q left posts res posts'
      → length posts' ≤ length posts + left
  story_bound q left posts posts' res (exhausted _ _ e) = rw (e, length-sent) (omega arith)
  story_bound q left posts posts' res (decided k _ lt _ _ _ e) =
      rw (e, length-sent q (suc k) posts) (omega arith)
  story_bound q left posts posts' res (escaped k _ lt _ _ _ e) =
      rw (e, length-sent q (suc k) posts) (omega arith)

  upload_bound :
      (rung : Option ℕ) (n n' : Net) (res : Result UploadOutcome)
      → Encodable
      → upload o r name page_num (image_at rung) n ≡ (res, n')
      → length n'.posts ≤ length n.posts + r.limits.max_retries
  unfolding upload
  upload_bound rung n n' res k e =
      let (bytes, encoded) = k rung in
      let e' : upload_page o.backend r.limits r.env name page_num (ok bytes) n ≡ (res, n') =
        rw encoded at e in
      let bound =
        story_bound (page_request r.env name page_num r.limits.timeout_seconds bytes)
          r.limits.max_retries n.posts _ _
          (upload_page_story o.backend r.limits r.env name page_num bytes n) in
      omega (arith, ap (λ (m : Result UploadOutcome × Net). length m.1.posts) e', bound)

  descent_bound :
      (rungs : List (Option ℕ)) (n : Net) (end : Result (UploadOutcome × Option ℕ) × Net)
      → Encodable
      → Descent rungs n end
      → length end.1.posts ≤ length n.posts + length rungs * r.limits.max_retries
  descent_bound rungs n end k (bottom _) = omega arith
  descent_bound rungs n end k (taken rung rest _ n' e) = omega (arith, upload_bound rung n n' _ k e)
  descent_bound rungs n end k (stopped rung rest _ n' e) =
      omega (arith, upload_bound rung n n' _ k e)
  descent_bound rungs n end k (broken rung rest _ n' fault e) =
      omega (arith, upload_bound rung n n' _ k e)
  descent_bound rungs n end k (lower rung rest _ n' _ e d) =
      omega (arith, upload_bound rung n n' _ k e, descent_bound rest n' end k d)

  -- A page whose resolutions can all be encoded costs at most three times `max_retries` requests,
  -- whatever the backend answers.
  pub page_requests_bound :
      (n : Net)
      → Encodable
      → length (upload_page_with_downsample o r name page_num image n).1.posts
        ≤ length n.posts + 3 * r.limits.max_retries
  page_requests_bound n k = descent_bound _ n _ k (page_descends n)
