-- ===== src/Uploader.antt =====
-- scanner/uploader.py: one page to one backend, with retries. Times are in milliseconds.
pub mod Window
pub mod Attempts
use Prim.Native.Nat.{min}
use pms_scanner.Prelude.{
  ℕ, zero, suc, ◌+◌, ◌-◌, ◌*◌, ◌^◌, Bool, true, false, ◌&&◌, Option, none, some, List, [], ◌∷◌,
  ◌++◌, Text, codes, ltb, leb, if◌then◌else◌, Exec, ok, Result, raised, stalled, other_error,
  length, pure, raise, lift, ◌>>=◌, ◌>>◌,
}
use pms_scanner.FileName.{page_file_name}
use pms_scanner.Config.{Environment}
use Window.{Acquire, granted, wait, try_acquire}

pub data UploadOutcome : Type 0 where
  accepted rejected failed : UploadOutcome

-- `requests.post(...)`: what is sent.
pub record Request : Type 0 where
  pub url : Text
  pub api_key : Text
  pub file_name : Text
  pub image_bytes : Text
  pub requisition_id : Option Text
  pub timeout_seconds : ℕ

-- `response.json()` and the reading of its fields.
pub data Body : Type 0 where
  -- The names of the stored images, and how many files were rejected.
  batch : List Text → ℕ → Body
  -- No JSON: `requests.JSONDecodeError`, a `RequestException`.
  not_json : Body
  -- JSON of another shape: the reading raises something else, with this text.
  odd_json : Text → Body

-- What `requests.post` does: it raises an `HTTPError` (whose response may be missing) or another
-- `RequestException`, or it gives a response with its status.
pub data Reply : Type 0 where
  http_error : Option ℕ → Reply
  request_exception : Reply
  response : ℕ → Body → Reply

-- The backend and the clock, which the program does not implement: the reply to a request and the
-- time that it took may depend on all requests so far, and a sleep may take longer than asked.
pub record Backend : Type 0 where
  pub reply : List Request → Request → Reply
  pub latency : List Request → ℕ
  pub oversleep : ℕ → ℕ

-- The requests sent, the newest first; `_rate_history`; and the clock.
pub record Net : Type 0 where
  pub posts : List Request
  pub rate_history : List ℕ
  pub clock : ℕ

pub record Limits : Type 0 where
  pub timeout_seconds : ℕ
  pub max_retries : ℕ
  pub retry_max_wait_seconds : ℕ

-- What one attempt gives: a value to return, or another round of the loop, or an exception.
pub data Attempt : Type 0 where
  returns : UploadOutcome → Attempt
  retry : Attempt
  escapes : Text → Attempt

module _ (backend : Backend) where
  abbrev pub sleep : ℕ → Net → Net
  sleep ms n = record n { clock = n.clock + ms + backend.oversleep n.clock }

  -- The `while True` of `_rate_limit_acquire`, for a number of rounds.
  unfoldable pub acquire_rounds : ℕ → Exec Net (Unit {0})
  acquire_rounds zero n = (raised stalled, n)
  acquire_rounds (suc rounds) n = elim (try_acquire n.clock n.rate_history) [
    | granted history ↦ (ok tt, record n { rate_history = history })
    | wait ms history ↦ acquire_rounds rounds (sleep ms (record n { rate_history = history }))
  ]

  unfoldable pub rate_limit_acquire : Exec Net (Unit {0})
  unfolding acquire_rounds
  rate_limit_acquire n = acquire_rounds (suc (length n.rate_history)) n

  -- `requests.post`
  unfoldable pub post : Request → Exec Net Reply
  post r n = (
    ok (backend.reply n.posts r),
    record n { posts = r ∷ n.posts; clock = n.clock + backend.latency n.posts },
  )

-- `return UploadOutcome.ACCEPTED if accepted else UploadOutcome.REJECTED`
unfoldable pub stored : List Text → UploadOutcome
stored [] = rejected
stored (_ ∷ _) = accepted

-- `except requests.HTTPError`
unfoldable pub on_http_error : ℕ → Attempt
on_http_error status = if ltb status 500 then returns rejected else retry

-- `response.json()` and the rest of the `try` block.
unfoldable pub read_body : Body → Attempt
unfolding stored
read_body (batch names n) = returns (stored names)
read_body not_json = retry
read_body (odd_json text) = escapes text

-- What an attempt comes to: `raise_for_status` raises for 400 to 599, and the handlers follow.
unfoldable pub classify : Reply → Attempt
unfolding on_http_error read_body
classify (http_error none) = on_http_error 0
classify (http_error (some status)) = on_http_error status
classify request_exception = retry
classify (response status body) =
    if leb 400 status && ltb status 600 then on_http_error status else read_body body

-- How an attempt goes on: `again` is the next round of the loop.
abbrev pub conclude : Attempt → Exec Net UploadOutcome → Exec Net UploadOutcome
conclude (returns outcome) again = pure outcome
conclude (escapes text) again = raise (other_error text)
conclude retry again = again

module _ (backend : Backend) (limits : Limits) (encoded : Result Text)
    (request : Text → Request) where
  -- `if attempt < max_retries - 1: time.sleep(min(2**attempt, retry_max_wait_seconds))`
  unfoldable pub back_off : ℕ → Exec Net (Unit {0})
  back_off attempt n = (
    ok tt,
    if ltb (attempt + 1) limits.max_retries
        then sleep backend (1000 * min (2 ^ attempt) limits.retry_max_wait_seconds) n
        else n,
  )

  -- `for attempt in range(max_retries)`, with the number of attempts that are left.
  unfoldable pub attempts : ℕ → ℕ → Exec Net UploadOutcome
  attempts attempt zero = pure failed
  attempts attempt (suc left) = do
    image_bytes ← lift encoded
    rate_limit_acquire backend
    reply ← post backend (request image_bytes)
    conclude (classify reply) (back_off attempt >> attempts (suc attempt) left)

-- The request of `upload_page`: the destination and the credentials come from `env` alone.
unfoldable pub page_request : Environment → Text → ℕ → ℕ → Text → Request
page_request env path_name page_num timeout_seconds image_bytes = record {
  url = env.backend_base_url ++ codes "/api/scanned-images/upload";
  api_key = env.api_token;
  file_name = page_file_name path_name page_num;
  image_bytes = image_bytes;
  requisition_id = env.requisition_id;
  timeout_seconds = timeout_seconds;
}

-- `upload_page`, for an image that `_encode_tiff` encodes as `encoded`.
unfoldable pub upload_page :
    Backend → Limits → Environment → Text → ℕ → Result Text → Exec Net UploadOutcome
unfolding attempts
upload_page backend limits env path_name page_num encoded =
    attempts backend limits encoded (page_request env path_name page_num limits.timeout_seconds) 0
      limits.max_retries
