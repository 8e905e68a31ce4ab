-- ===== src/Uploader/Attempts.antt =====
-- What `upload_page` comes to, against a description without clock and rate limiter.
use mathlib.Core.Path.{subst}
use pms_scanner.Prelude.{
  ℕ, zero, suc, ◌+◌, ◌-◌, ◌≤◌, ◌<◌, ◌≡◌, refl, inl, inr, List, [], ◌∷◌, ◌++◌, Text, Bool-cases,
  le→leb, ltb→ge, arith, ltb, length, Exec, Result, ok, raised, other_error, ◌>>=◌, ◌>>◌,
}
use pms_scanner.Config.{Environment}
use pms_scanner.Uploader.Window.{
  rate_limit_max, rate_limit_window, drop_expired, oldest, try_acquire,
}
use pms_scanner.Uploader.{
  UploadOutcome, failed, Request, Backend, Net, Limits, Attempt, returns, retry, escapes, conclude,
  sleep, acquire_rounds, rate_limit_acquire, post, classify, back_off, attempts, page_request,
  upload_page,
}

length-drop_expired : (now : ℕ) (h : List ℕ) → length (drop_expired now h) ≤ length h
unfolding drop_expired
length-drop_expired now [] = omega arith
length-drop_expired now (t ∷ h) = ground (arith, length-drop_expired now h)

-- After the pause the oldest grant has left the window.
shrinks :
    (now later : ℕ) (kept : List ℕ)
    → rate_limit_max ≤ length kept
    → now + (rate_limit_window + oldest now kept + 50 - now) ≤ later
    → length (drop_expired later kept) < length kept
unfolding drop_expired
shrinks now later [] full enough = absurd (omega arith)
shrinks now later (t ∷ kept) full enough =
    rw (le→leb (t + rate_limit_window) later (omega arith))
      (omega (arith, length-drop_expired later kept))

module _ (backend : Backend) where
  acquire_rounds-returns :
      (rounds : ℕ) (n : Net)
      → length (drop_expired n.clock n.rate_history) < rounds
      → (n' : Net) × (acquire_rounds backend rounds n ≡ (ok tt, n')) × (n'.posts ≡ n.posts)
  unfolding acquire_rounds try_acquire
  acquire_rounds-returns zero n enough = absurd (omega arith)
  acquire_rounds-returns (suc rounds) n enough =
      let kept = drop_expired n.clock n.rate_history in
      let pause = rate_limit_window + oldest n.clock kept + 50 - n.clock in
      let n₁ = sleep backend pause (record n { rate_history = kept }) in
      elim (Bool-cases (ltb (length kept) rate_limit_max)) [
        | inl few ↦ (record n { rate_history = kept ++ n.clock ∷ [] }, ground arith, refl)
        | inr full ↦
            let fewer : length (drop_expired n₁.clock kept) < length kept =
              shrinks n.clock n₁.clock kept (ltb→ge _ _ full) (omega arith) in
            let fits : length kept ≤ rounds = omega arith in
            rw (full, acquire_rounds, try_acquire) (acquire_rounds-returns rounds n₁ (omega arith))
      ]

  -- The rate limiter lets every caller through, and sends nothing by itself.
  pub rate_limit_acquire-returns :
      (n : Net) → (n' : Net) × (rate_limit_acquire backend n ≡ (ok tt, n')) × (n'.posts ≡ n.posts)
  unfolding rate_limit_acquire
  rate_limit_acquire-returns n =
      acquire_rounds-returns (suc (length n.rate_history)) n
        (omega (arith, length-drop_expired n.clock n.rate_history))

  module _ (r : Request) where
    -- The requests after `k` more of `r`, the newest first.
    abbrev pub sent : ℕ → List Request → List Request
    sent zero posts = posts
    sent (suc k) posts = sent k (r ∷ posts)

    -- The next `k` replies to `r` are transient failures.
    abbrev pub AllRetried : ℕ → List Request → Type 0
    AllRetried zero posts = Unit
    AllRetried (suc k) posts = (classify (backend.reply posts r) ≡ retry) × AllRetried k (r ∷ posts)

    -- How `left` attempts can end: the attempts are used up by transient failures, or a reply that
    -- is none ends them, by its outcome or by the exception that its body raises.
    pub data Story (left : ℕ) (posts : List Request) (res : Result UploadOutcome)
        (posts' : List Request) : Type 0 where
      exhausted :
          AllRetried left posts
          → res ≡ ok failed
          → posts' ≡ sent left posts
          → Story left posts res posts'
      decided :
          (k : ℕ) (outcome : UploadOutcome)
          → k < left
          → AllRetried k posts
          → classify (backend.reply (sent k posts) r) ≡ returns outcome
          → res ≡ ok outcome
          → posts' ≡ sent (suc k) posts
          → Story left posts res posts'
      escaped :
          (k : ℕ) (text : Text)
          → k < left
          → AllRetried k posts
          → classify (backend.reply (sent k posts) r) ≡ escapes text
          → res ≡ raised (other_error text)
          → posts' ≡ sent (suc k) posts
          → Story left posts res posts'

    later :
        (left : ℕ) (posts : List Request) (res : Result UploadOutcome) (posts' : List Request)
        → classify (backend.reply posts r) ≡ retry
        → Story left (r ∷ posts) res posts'
        → Story (suc left) posts res posts'
    later left posts res posts' e (exhausted all same end) = exhausted (e, all) same end
    later left posts res posts' e (decided k outcome lt all c same end) =
        decided (suc k) outcome (omega arith) (e, all) c same end
    later left posts res posts' e (escaped k text lt all c same end) =
        escaped (suc k) text (omega arith) (e, all) c same end

rebase :
    (backend : Backend) (r : Request) {left : ℕ} {posts posts₁ posts' : List Request}
    {res : Result UploadOutcome}
    → posts₁ ≡ posts
    → Story backend r left posts₁ res posts'
    → Story backend r left posts res posts'
rebase backend r {left} {posts} {posts₁} {posts'} {res} same story =
    subst (λ p. Story backend r left p res posts') same story

module _ (backend : Backend) (limits : Limits) (request : Text → Request) (image_bytes : Text) where
  -- The first reply decides whether there is another attempt.
  after_reply :
      (left : ℕ) (posts : List Request) (n : Net) (again : Exec Net UploadOutcome) (a : Attempt)
      → n.posts ≡ request image_bytes ∷ posts
      → classify (backend.reply posts (request image_bytes)) ≡ a
      → Story backend
          (request image_bytes)
          left
          (request image_bytes ∷ posts)
          (again n).0
          (again n).1.posts
      → let (res, n') = conclude a again n in
        Story backend (request image_bytes) (suc left) posts res n'.posts
  unfolding ◌>>=◌
  after_reply left posts n again (returns outcome) e c story =
      decided 0 outcome (omega arith) tt c refl e
  after_reply left posts n again (escapes text) e c story = escaped 0 text (omega arith) tt c refl e
  after_reply left posts n again retry e c story = later backend _ left posts _ _ c story

  after_pause :
      (attempt left : ℕ)
      → ((m : Net)
          → let (res, n') = attempts backend limits (ok image_bytes) request (suc attempt) left m in
            Story backend (request image_bytes) left m.posts res n'.posts)
      → (m : Net)
      → let (res, n') =
          (do
            back_off backend limits (ok image_bytes) request attempt
            attempts backend limits (ok image_bytes) request (suc attempt) left)
            m in
        Story backend (request image_bytes) left m.posts res n'.posts
  unfolding ◌>>=◌ back_off
  after_pause attempt left story m = elim (Bool-cases (ltb (attempt + 1) limits.max_retries)) [
    | inl e ↦ rw e (story _)
    | inr e ↦ rw e (story _)
  ]

  -- An attempt that the rate limiter has let through, if the attempts after it have their story.
  granted_attempt :
      (left : ℕ) (n : Net) (again : Exec Net UploadOutcome)
      → ((m : Net) → Story backend (request image_bytes) left m.posts (again m).0 (again m).1.posts)
      → let (res, n') =
          (do reply ← post backend (request image_bytes); conclude (classify reply) again) n in
        Story backend (request image_bytes) (suc left) n.posts res n'.posts
  unfolding ◌>>=◌ post
  granted_attempt left n again story = after_reply left n.posts _ again _ refl refl (story _)

  attempts-Story :
      (attempt left : ℕ) (n : Net)
      → let (res, n') = attempts backend limits (ok image_bytes) request attempt left n in
        Story backend (request image_bytes) left n.posts res n'.posts
  unfolding attempts ◌>>=◌
  attempts-Story attempt zero n = exhausted tt refl refl
  attempts-Story attempt (suc left) n =
      let (n₁, granted, same) = rate_limit_acquire-returns backend n in
      rw granted (
        rebase backend _ same (
          granted_attempt left n₁
            (back_off backend limits (ok image_bytes) request attempt
              >> attempts backend limits (ok image_bytes) request (suc attempt) left)
            (after_pause attempt left (attempts-Story (suc attempt) left))))

-- However the backend answers and the clock runs, `upload_page` of an encoded page returns or
-- raises after at most `max_retries` requests, all of them the one request that the environment and
-- the page make up: FAILED after `max_retries` transient failures and no other reply, and else what
-- the first other reply calls for, sent after transient failures alone.
pub upload_page_story :
    (backend : Backend) (limits : Limits) (env : Environment) (name : Text) (page_num : ℕ)
    (image_bytes : Text) (n : Net)
    → let (res, n') = upload_page backend limits env name page_num (ok image_bytes) n in
      Story backend
        (page_request env name page_num limits.timeout_seconds image_bytes)
        limits.max_retries
        n.posts
        res
        n'.posts
unfolding upload_page
upload_page_story backend limits env name page_num image_bytes n =
    attempts-Story backend limits (page_request env name page_num limits.timeout_seconds)
      image_bytes 0 limits.max_retries n
