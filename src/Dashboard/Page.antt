-- ===== src/Dashboard/Page.antt =====
-- scanner/dashboard.py: the script of the page at `/`, and what it makes of the answers of
-- `/status`.
pub mod Panes
pub mod Shown
pub mod Finished
use pms_scanner.Prelude.{
  ℕ, zero, suc, Bool, true, false, not, Option, none, some, List, [], ◌∷◌, ◌++◌, Text, text_eq,
  codes, ltb, length, if◌then◌else◌,
}
use pms_scanner.Prelude.Int.{ℤ}
use pms_scanner.Prelude.Dict
use pms_scanner.Prelude.Dict.{Dict}
use pms_scanner.FileName.{decimal}
use pms_scanner.Ntp.{
  ClockSyncOutcome, drift_corrected, drift_uncorrected, unreachable, rejected_kod,
}
use pms_scanner.State.{ErrorRecord}
use pms_scanner.Dashboard.{
  PerEnvRun, EnvStatus, NtpStatus, StatusPage, Answer, unavailable, broken, not_found, done,
}

-- The elements of a pane. A bar is as wide as the first number of the second, or empty where that
-- is 0.
pub data Element : Type 0 where
  heading meta empty file_name errs : Text → Element
  progress_bar : ℕ → ℕ → Element
  kv : Text → ℕ → Element

pub record Pane : Type 0 where
  pub disabled : Bool
  pub parts : List Element

-- `String(n).padStart(2, '0')`
abbrev pad2 : ℕ → Text
pad2 n = if ltb n 10 then b'0' ∷ decimal n else decimal n

-- A space, a middle dot and a space.
abbrev dot : Text
dot = 32 ∷ 183 ∷ 32 ∷ []

abbrev pub meta_of : EnvStatus → Text
meta_of env =
    codes "backend "
    ++ (env.backend_base_url
        ++ (dot
            ++ (codes "poll :"
                ++ (pad2 env.schedule_offset_seconds
                    ++ (if env.enabled then [] else dot ++ codes "DISABLED")))))

-- `if (run.current_file)`: an empty text counts as none.
abbrev pub file_parts : Option Text → ℕ → ℕ → List Element
file_parts none page total = []
file_parts (some []) page total = []
file_parts (some (c ∷ s)) page total = file_name (c ∷ s) ∷ progress_bar page total ∷ []

-- `e.page_num ? ' p' + e.page_num : ''`
abbrev page_text : Option ℕ → Text
page_text none = []
page_text (some zero) = []
page_text (some (suc n)) = codes " p" ++ decimal (suc n)

abbrev error_lines : List ErrorRecord → List Element
error_lines [] = []
error_lines (e ∷ es) =
    errs (e.filename ++ (page_text e.page_num ++ (codes ": " ++ e.message))) ∷ error_lines es

-- `env.current_run || env.last_run`
abbrev pub run_shown : EnvStatus → Option PerEnvRun
run_shown env = elim env.current_run [ some run ↦ some run | none ↦ env.last_run ]

abbrev pub run_parts : Option PerEnvRun → List Element
run_parts none = empty (codes "idle " ++ 8212 ∷ codes " no run yet") ∷ []
run_parts (some run) =
    file_parts run.current_file run.current_page run.total_pages
    ++ kv (codes "files processed") run.files_processed
      ∷ kv (codes "pages uploaded") run.pages_uploaded
      ∷ kv (codes "errors") (length run.errors)
      ∷ error_lines run.errors

-- `buildPane`
unfoldable pub build_pane : Text → EnvStatus → Pane
build_pane name env = record {
  disabled = not env.enabled;
  parts = heading name ∷ meta (meta_of env) ∷ run_parts (run_shown env);
}

-- The page: the name of the machine, the line about the clock and whether it has the class of a
-- warning, and the panes.
pub record Page : Type 0 where
  pub machine : Text
  pub ntp_text : Text
  pub ntp_warns : Option Bool
  pub panes : List Pane

abbrev or_question : Text → Text
or_question [] = codes "?"
or_question (c ∷ s) = c ∷ s

-- The values of `ClockSyncOutcome`.
abbrev outcome_text : ClockSyncOutcome → Text
outcome_text ClockSyncOutcome.ok = codes "ok"
outcome_text drift_corrected = codes "drift_corrected"
outcome_text drift_uncorrected = codes "drift_uncorrected"
outcome_text unreachable = codes "unreachable"
outcome_text rejected_kod = codes "rejected_kod"

abbrev warns : NtpStatus → Bool
warns ntp = elim ntp.last_drift_warning [ none ↦ false | some warn ↦ true ]

-- `Object.keys(envs).sort().forEach(...)`: a name without an entry would end it.
unfoldable pub build_panes : Dict Text EnvStatus → List Text → List Pane
unfolding build_pane
build_panes envs [] = []
build_panes envs (name ∷ names) = elim (Dict.lookup name envs) [
  | none ↦ []
  | some env ↦ build_pane name env ∷ build_panes envs names
]

-- `fixed` is `toFixed(3)` and `sort` is `Array.sort`.
module _ (fixed : ℤ → Text) (sort : List Text → List Text) where
  abbrev offset_text : Option ℤ → Text
  offset_text none = codes "?"
  offset_text (some offset) = fixed offset

  -- `renderNtp`: without a measurement the class stays what it was.
  unfoldable pub render_ntp : NtpStatus → Page → Page
  render_ntp ntp page = elim ntp.outcome [
    | none ↦ record page { ntp_text = codes "NTP " ++ 8230 ∷ [] }
    | some result ↦ record page {
      ntp_warns = some (warns ntp);
      ntp_text =
          codes "NTP "
          ++ (ntp.source
              ++ (codes " offset="
                  ++ (offset_text ntp.offset_seconds
                      ++ (codes "s ("
                          ++ (outcome_text result
                              ++ (codes ")"
                                  ++ (if warns ntp then 32 ∷ 9888 ∷ codes " drift" else [])))))));
    }
  ]

  -- What `refresh` makes of the answer of `/status`. An answer without the fields shows no
  -- machine, no clock and no panes; one that is no JSON changes nothing.
  unfoldable pub refresh : Answer StatusPage → Page → Page
  unfolding render_ntp build_panes
  refresh (done shown) page =
      record (render_ntp shown.ntp (record page { machine = or_question shown.machine })) {
        panes = build_panes shown.environments (sort (Dict.keys shown.environments));
      }
  refresh broken page = page
  refresh answer page = record page {
    machine = codes "?";
    ntp_text = codes "NTP " ++ 8230 ∷ [];
    panes = [];
  }
