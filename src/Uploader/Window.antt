-- ===== src/Uploader/Window.antt =====
-- scanner/uploader.py: the rolling window of the rate limiter.
pub mod Spacing
use pms_scanner.Prelude.{ℕ, ◌+◌, ◌-◌, List, [], ◌∷◌, ◌++◌, ltb, leb, length, if◌then◌else◌}

abbrev pub rate_limit_max : ℕ
rate_limit_max = 60

abbrev pub rate_limit_window : ℕ
rate_limit_window = 60000

-- `while _rate_history and now - _rate_history[0] >= _RATE_LIMIT_WINDOW: popleft()`
unfoldable pub drop_expired : ℕ → List ℕ → List ℕ
drop_expired now [] = []
drop_expired now (t ∷ history) =
    let rest = drop_expired now history in
    if leb (t + rate_limit_window) now then rest else t ∷ history

pub data Acquire : Type 0 where
  granted : List ℕ → Acquire
  wait : ℕ → List ℕ → Acquire

-- `_rate_history[0]`, of a history that is not empty.
abbrev pub oldest : ℕ → List ℕ → ℕ
oldest now [] = now
oldest now (t ∷ _) = t

-- One round under the lock. The pause is `_RATE_LIMIT_WINDOW - (now - _rate_history[0]) + 0.05`.
unfoldable pub try_acquire : ℕ → List ℕ → Acquire
unfolding drop_expired
try_acquire now history =
    let kept = drop_expired now history in
    if ltb (length kept) rate_limit_max
    then granted (kept ++ now ∷ [])
    else wait (rate_limit_window + oldest now kept + 50 - now) kept
