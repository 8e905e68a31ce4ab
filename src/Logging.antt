-- ===== src/Logging.antt =====
-- scanner/state.py: the logger that tags messages and masks secrets.
pub mod Secrets
use pms_scanner.Prelude.{
  ℕ, zero, Bool, true, false, ◌&&◌, ◌||◌, not, Option, none, some, List, [], ◌∷◌, ◌++◌, Text, codes,
  text_eq, keep_if, if◌then◌else◌,
}
use pms_scanner.Prelude.Dict
use pms_scanner.Prelude.Dict.{Dict}
use pms_scanner.Prelude.Texts.{replace_from}
use pms_scanner.Machine.{is_empty, strip}

-- `s and s.strip()`: a blank text is no secret.
abbrev pub is_secret : Text → Bool
is_secret s = not (is_empty s) && not (is_empty (strip s))

-- `_RedactingFilter`: the secrets that its patterns are the literals of.
pub record RedactingFilter : Type 0 where
  pub patterns : List Text

-- `_RedactingFilter(secrets)`
unfoldable pub new_filter : List Text → RedactingFilter
new_filter secrets = record { patterns = keep_if is_secret secrets }

-- `pat.sub("***", message)`
unfoldable pub mask : Text → Text → Text
mask [] message = message
mask (p ∷ ps) message = replace_from zero p ps (codes "***") message

-- `for pat in self._patterns`
unfoldable pub mask_all : List Text → Text → Text
unfolding mask
mask_all [] message = message
mask_all (s ∷ secrets) message = mask_all secrets (mask s message)

-- `logging.LogRecord`: the message with its arguments, which `format` puts in.
pub record LogRecord : Type 0 where
  pub msg : Text
  pub args : Option (List Text)

pub data LogFilter : Type 0 where
  redacting : RedactingFilter → LogFilter
  other_filter : LogFilter

abbrev pub is_redacting : LogFilter → Bool
is_redacting (redacting f) = true
is_redacting other_filter = false

-- What a call of `make_logger` returns: the logger's name, with the tags.
pub record EnvMachineAdapter : Type 0 where
  pub logger : Text
  pub machine : Text
  pub env : Text

-- The filters of each named logger.
abbrev pub Loggers : Type 0
Loggers = Dict Text (List LogFilter)

unfoldable pub filters_of : Text → Loggers → List LogFilter
filters_of name loggers = elim (Dict.lookup name loggers) [ none ↦ [] | some fs ↦ fs ]

abbrev pub any_redacting : List LogFilter → Bool
any_redacting [] = false
any_redacting (f ∷ fs) = is_redacting f || any_redacting fs

abbrev pub has_any : List Text → Bool
has_any [] = false
has_any (_ ∷ _) = true

-- `make_logger`
unfoldable pub make_logger : Text → Text → Text → List Text → Loggers → EnvMachineAdapter × Loggers
make_logger name machine env secrets loggers =
    let secret_list = keep_if is_secret secrets in
    let base = filters_of name loggers in
    (
      record { logger = name; machine = machine; env = env },
      if has_any secret_list && not (any_redacting base)
          then Dict.insert name (base ++ redacting (new_filter secret_list) ∷ []) loggers
          else loggers,
    )

-- `_EnvMachineAdapter.process`
unfoldable pub process : EnvMachineAdapter → Text → Text
process a msg =
    codes "[machine=" ++ (a.machine ++ (codes " env=" ++ (a.env ++ (codes "] " ++ msg))))

module _ (format : Text → List Text → Text) where
  -- `record.getMessage()`
  abbrev pub get_message : LogRecord → Text
  get_message r = elim r.args [ none ↦ r.msg | some args ↦ format r.msg args ]

  -- `_RedactingFilter.filter`
  unfoldable pub filter : RedactingFilter → LogRecord → LogRecord
  unfolding mask_all
  filter f r =
      if has_any f.patterns
      then record { msg = mask_all f.patterns (get_message r); args = none }
      else r

  -- The filters of a logger, in their order; another filter lets the record pass as it is.
  unfoldable pub pass : List LogFilter → LogRecord → LogRecord
  unfolding filter
  pass [] r = r
  pass (redacting f ∷ fs) r = pass fs (filter f r)
  pass (other_filter ∷ fs) r = pass fs r

  -- The message that a call of the adapter emits.
  unfoldable pub emit : EnvMachineAdapter → Text → List Text → Loggers → Text
  unfolding process pass filters_of
  emit a msg args loggers =
      get_message
        (pass (filters_of a.logger loggers) (record { msg = process a msg; args = some args }))
