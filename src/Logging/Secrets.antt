-- ===== src/Logging/Secrets.antt =====
-- No registered secret is in a message that has passed the filter.
use pms_scanner.Prelude.{
  zero, ◌≡◌, refl, ap, inl, inr, Bool, true, false, not, some, List, [], ◌∷◌, ◌++◌, All, Text,
  text_eq, ==-refl, keep_if, Bool-cases, and_true,
}
use pms_scanner.Prelude.Dict
use pms_scanner.Prelude.Texts.{includes}
use pms_scanner.Prelude.Texts.Replace.{StarFree, includes-replace_from, includes-replace_from_self}
use pms_scanner.Machine.{is_empty}
use pms_scanner.Logging.{
  is_secret, RedactingFilter, new_filter, mask, mask_all, LogRecord, LogFilter, redacting,
  other_filter, EnvMachineAdapter, Loggers, filters_of, any_redacting, has_any, make_logger,
  process, get_message, filter, pass, emit,
}

-- The message holds none of these secrets.
abbrev pub Conceals : List Text → Text → Type 0
Conceals secrets message = All (λ s. includes s message ≡ false) secrets

abbrev pub IsMaskable : Text → Type 0
IsMaskable s = (is_empty s ≡ false) × StarFree s

mask_self : (s message : Text) → IsMaskable s → includes s (mask s message) ≡ false
unfolding mask
mask_self [] message h = cc
mask_self (p ∷ ps) message h = includes-replace_from_self p ps message zero h.1

-- Masking another secret brings none back.
mask-keeps :
    (s t message : Text)
    → IsMaskable s
    → includes s message ≡ false
    → includes s (mask t message) ≡ false
unfolding mask
mask-keeps s [] message h k = k
mask-keeps [] (p ∷ ps) message h k = cc
mask-keeps (q ∷ qs) (p ∷ ps) message h k = includes-replace_from p ps q qs message zero h.1 k

mask_all-keeps :
    (s : Text) (ts : List Text) (message : Text)
    → IsMaskable s
    → includes s message ≡ false
    → includes s (mask_all ts message) ≡ false
unfolding mask_all
mask_all-keeps s [] message h k = k
mask_all-keeps s (t ∷ ts) message h k =
    mask_all-keeps s ts (mask t message) h (mask-keeps s t message h k)

mask_all-Conceals :
    (secrets : List Text) (message : Text)
    → All IsMaskable secrets
    → Conceals secrets (mask_all secrets message)
unfolding mask_all
mask_all-Conceals [] message h = tt
mask_all-Conceals (s ∷ secrets) message h = (
  mask_all-keeps s secrets (mask s message) h.0 (mask_self s message h.0),
  mask_all-Conceals secrets (mask s message) h.1,
)

keep_if_twice : (p : Text → Bool) (xs : List Text) → keep_if p (keep_if p xs) ≡ keep_if p xs
unfolding keep_if
keep_if_twice p [] = refl
keep_if_twice p (x ∷ xs) = elim (Bool-cases (p x)) [
  | inl e ↦ rw (e, keep_if) (rw (e, keep_if) (ap (◌∷◌ x) (keep_if_twice p xs)))
  | inr e ↦ rw (e, keep_if) (keep_if_twice p xs)
]

none-Conceals : (ss : List Text) (message : Text) → has_any ss ≡ false → Conceals ss message
none-Conceals [] message h = tt
none-Conceals (s ∷ ss) message h = cc

-- The secrets that are registered have no star.
registered :
    (secrets : List Text) → All StarFree secrets → All IsMaskable (keep_if is_secret secrets)
unfolding keep_if
registered [] h = tt
registered (s ∷ secrets) h = elim (Bool-cases (is_secret s)) [
  | inl e ↦
      rw (e, keep_if)
        ((not_true (is_empty s) (and_true (not (is_empty s)) _ e).0, h.0), registered secrets h.1)
  | inr e ↦ rw (e, keep_if) (registered secrets h.1)
]
  where
    not_true : (b : Bool) → not b ≡ true → b ≡ false
    not_true true h = cc
    not_true false h = refl

filters_of-insert :
    (name : Text) (loggers : Loggers) (fs : List LogFilter)
    → filters_of name (Dict.insert name fs loggers) ≡ fs
unfolding filters_of
filters_of-insert name loggers fs =
    let found : Dict.lookup name (Dict.insert name fs loggers) ≡ some fs =
      rw (Dict.lookup-insert, ==-refl name) refl in
    rw (found, filters_of) refl

-- The filters of a logger that `make_logger` gives secrets.
filters_of-make_logger :
    (name machine env : Text) (secrets : List Text) (loggers : Loggers)
    → any_redacting (filters_of name loggers) ≡ false
    → has_any (keep_if is_secret secrets) ≡ true
    → filters_of name (make_logger name machine env secrets loggers).1
      ≡ filters_of name loggers ++ redacting (record { patterns = keep_if is_secret secrets }) ∷ []
unfolding make_logger new_filter
filters_of-make_logger name machine env secrets loggers free some_secret =
    rw (some_secret, free, keep_if_twice is_secret secrets)
      (filters_of-insert name loggers (
        filters_of name loggers
        ++ redacting (record { patterns = keep_if is_secret secrets }) ∷ []))

module _ (format : Text → List Text → Text) where
  filter-Conceals :
      (secrets : List Text) (r : LogRecord)
      → All IsMaskable secrets
      → Conceals secrets (get_message format (filter format (record { patterns = secrets }) r))
  unfolding filter
  filter-Conceals [] r h = tt
  filter-Conceals (s ∷ secrets) r h = mask_all-Conceals (s ∷ secrets) (get_message format r) h

  pass-other :
      (fs : List LogFilter) (f : RedactingFilter) (r : LogRecord)
      → any_redacting fs ≡ false
      → pass format (fs ++ redacting f ∷ []) r ≡ filter format f r
  unfolding pass
  pass-other [] f r h = refl
  pass-other (redacting g ∷ fs) f r h = cc
  pass-other (other_filter ∷ fs) f r h = pass-other fs f r h

  -- What is emitted through such filters.
  emit-filter :
      (a : EnvMachineAdapter) (msg : Text) (args : List Text) (loggers : Loggers)
      (base : List LogFilter) (f : RedactingFilter)
      → filters_of a.logger loggers ≡ base ++ redacting f ∷ []
      → any_redacting base ≡ false
      → emit format a msg args loggers
        ≡ get_message format (filter format f (record { msg = process a msg; args = some args }))
  unfolding emit
  emit-filter a msg args loggers base f e free =
      rw (e, pass-other base f (record { msg = process a msg; args = some args }) free) refl

  -- After `make_logger` on a logger without a redacting filter, no message that the adapter emits
  -- holds a secret of the call that is not blank, if no secret of the call holds a star.
  pub make_logger-Conceals :
      (name machine env : Text) (secrets : List Text) (loggers : Loggers) (msg : Text)
      (args : List Text)
      → any_redacting (filters_of name loggers) ≡ false
      → All StarFree secrets
      → let (adapter, loggers') = make_logger name machine env secrets loggers in
        Conceals (keep_if is_secret secrets) (emit format adapter msg args loggers')
  unfolding make_logger
  make_logger-Conceals name machine env secrets loggers msg args free h =
      elim (Bool-cases (has_any (keep_if is_secret secrets))) [
        | inl e ↦
            let (adapter, loggers') = make_logger name machine env secrets loggers in
            rw
              (emit-filter adapter msg args loggers' (filters_of name loggers)
                (record { patterns = keep_if is_secret secrets })
                (filters_of-make_logger name machine env secrets loggers free e) free)
              (filter-Conceals (keep_if is_secret secrets)
                (record { msg = process adapter msg; args = some args }) (registered secrets h))
        | inr e ↦ none-Conceals (keep_if is_secret secrets) _ e
      ]

any_redacting-append :
    (fs : List LogFilter) (f : RedactingFilter) → any_redacting (fs ++ redacting f ∷ []) ≡ true
any_redacting-append [] f = refl
any_redacting-append (redacting g ∷ fs) f = refl
any_redacting-append (other_filter ∷ fs) f = any_redacting-append fs f

-- A logger with a redacting filter takes no other.
already :
    (name machine env : Text) (secrets : List Text) (loggers : Loggers)
    → any_redacting (filters_of name loggers) ≡ true
    → (make_logger name machine env secrets loggers).1 ≡ loggers
unfolding make_logger
already name machine env secrets loggers h =
    elim (Bool-cases (has_any (keep_if is_secret secrets))) [
      | inl e ↦ rw (e, h) refl
      | inr e ↦ rw e refl
    ]

-- Once a logger masks the secrets of one call, another call for its name registers none of its own:
-- the filters stay as they were.
pub second_logger_masks_nothing :
    (name machine env env' : Text) (secrets secrets' : List Text) (loggers : Loggers)
    → has_any (keep_if is_secret secrets) ≡ true
    → let loggers' = (make_logger name machine env secrets loggers).1 in
      (make_logger name machine env' secrets' loggers').1 ≡ loggers'
second_logger_masks_nothing name machine env env' secrets secrets' loggers h =
    elim (Bool-cases (any_redacting (filters_of name loggers))) [
      | inl e ↦
          rw (already name machine env secrets loggers e)
            (already name machine env' secrets' loggers e)
      | inr e ↦
          already name machine env' secrets' (make_logger name machine env secrets loggers).1 (
            rw (filters_of-make_logger name machine env secrets loggers e h) (
              any_redacting-append (filters_of name loggers)
                (record { patterns = keep_if is_secret secrets })))
    ]
