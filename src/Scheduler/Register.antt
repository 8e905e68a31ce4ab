-- ===== src/Scheduler/Register.antt =====
-- scanner/scheduler.py: the `Scheduler`, its registrations and its life cycle.
use pms_scanner.Prelude.{
  ℕ, ◌*◌, Bool, true, false, Option, none, some, List, [], ◌∷◌, ◌++◌, Text, text_eq, codes, length,
  leb, if◌then◌else◌,
}
use pms_scanner.Prelude.Dict
use pms_scanner.Prelude.Dict.{Dict}
use pms_scanner.Config.Assembly.{AppSettings}
use pms_scanner.State.{BatchRunState, reset_daily}
use pms_scanner.Dashboard.Events.{AppState, emit_event}
use pms_scanner.Scheduler.{JobSpec, enabled_environments, build_jobs}

-- `CronTrigger`, by its `hour`, `minute` and `second`, the hour left out for a poll; `DateTrigger`,
-- at once; `IntervalTrigger`.
pub data Trigger : Type 0 where
  cron : Option Text → Text → ℕ → Trigger
  date : Trigger
  interval : ℕ → Trigger

-- `_dispatch` with its argument, and `_daily_reset`.
pub data Action : Type 0 where
  poll : Text → Action
  daily_reset : Action

pub record Job : Type 0 where
  pub action : Action
  pub trigger : Trigger
  pub max_instances : ℕ
  pub coalesce : Bool
  pub misfire_grace_time : ℕ

-- `Scheduler`, with the jobs of its `_scheduler` by their ids.
pub record Scheduler : Type 0 where
  pub settings : AppSettings
  pub has_state : Bool
  pub max_workers : ℕ
  pub jobs : Dict Text Job
  pub running : Bool

abbrev pub max : ℕ → ℕ → ℕ
max a b = if leb a b then b else a

-- `__post_init__`
abbrev pub pool_size : ℕ → ℕ
pool_size enabled = max 4 (2 * max 1 enabled)

unfoldable pub new_scheduler : AppSettings → Bool → Scheduler
new_scheduler settings has_state = record {
  settings = settings;
  has_state = has_state;
  max_workers = pool_size (length (enabled_environments settings));
  jobs = [];
  running = false;
}

-- `trigger` in `register`, by `immediate` and `interval_seconds`.
abbrev pub trigger_of : Bool → Option ℕ → JobSpec → Trigger
trigger_of immediate (some seconds) spec = interval seconds
trigger_of true none spec = date
trigger_of false none spec = cron none spec.minute spec.second

abbrev pub poll_job : Bool → Option ℕ → JobSpec → Job
poll_job immediate every spec = record {
  action = poll spec.env_name;
  trigger = trigger_of immediate every spec;
  max_instances = spec.max_instances;
  coalesce = spec.coalesce;
  misfire_grace_time = spec.misfire_grace_time;
}

-- `add_job(..., replace_existing=True)` of each spec.
unfoldable pub add_polls : Bool → Option ℕ → List JobSpec → Dict Text Job → Dict Text Job
add_polls immediate every [] jobs = jobs
add_polls immediate every (spec ∷ specs) jobs =
    add_polls immediate every specs (Dict.insert spec.job_id (poll_job immediate every spec) jobs)

abbrev pub daily_reset_job_id : AppSettings → Text
daily_reset_job_id s = s.machine.name ++ codes ":daily-reset"

-- The job at midnight.
abbrev pub daily_job : Job
daily_job = record {
  action = daily_reset;
  trigger = cron (some (codes "0")) (codes "0") 0;
  max_instances = 1;
  coalesce = true;
  misfire_grace_time = 3600;
}

-- `_register_daily_reset`
unfoldable pub register_daily_reset : Scheduler → Scheduler
register_daily_reset s =
    if s.has_state
    then record s { jobs = Dict.insert (daily_reset_job_id s.settings) daily_job s.jobs }
    else s

unfoldable pub register : Bool → Option ℕ → Scheduler → Scheduler
unfolding build_jobs add_polls register_daily_reset
register immediate every s =
    register_daily_reset
      (record s { jobs = add_polls immediate every (build_jobs s.settings) s.jobs })

-- The event at midnight.
abbrev pub counters_reset : AppSettings → Dict Text Text
counters_reset s = (codes "type", codes "counters_reset") ∷ (codes "machine", s.machine.name) ∷ []

-- `_daily_reset`
unfoldable pub run_daily_reset :
    AppSettings → BatchRunState → AppState Text → BatchRunState × AppState Text
unfolding reset_daily emit_event
run_daily_reset s state bus = (reset_daily state, emit_event (counters_reset s) bus)

-- `start`; `stop` and `shutdown`, which wait for the running jobs.
abbrev pub start : Scheduler → Scheduler
start s = if s.running then s else record s { running = true }

abbrev pub stop : Scheduler → Scheduler
stop s = if s.running then record s { running = false } else s
