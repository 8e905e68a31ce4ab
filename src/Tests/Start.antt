-- ===== src/Tests/Start.antt =====
-- The theorems about the schedule, the dashboard and the start, at concrete data.
use pms_scanner.Prelude.{
  raised, file_not_found, ℕ, ◌≤◌, ◌≡◌, ◌⊎◌, refl, Bool, true, false, ◌&&◌, none, some, List, [],
  ◌∷◌, ◌++◌, map, All, Text, codes, text_eq, nat_eq, keep_if, length, contains, get_elem?, ok,
  reading, ◌>>=◌,
}
use pms_scanner.Prelude.Int.{pos}
use pms_scanner.Prelude.Dict
use pms_scanner.FileName.{is_supported}
use pms_scanner.Machine.{identify}
use pms_scanner.Config.{Environment}
use pms_scanner.Config.Assembly.{load_settings, valid}
use pms_scanner.Ntp.{NtpMeasurement, NtpOutcome}
use pms_scanner.State.{new_state}
use pms_scanner.State.Laws.{Update, pages, current, started, calls, own, env_state}
use pms_scanner.Tree.{watch, find, at, is_file, iterdir, rename, folder_eq, path_eq}
use pms_scanner.Batch.World.{Runner, Outside, World, now}
use pms_scanner.Batch.Run.Vanished.{run_once_ends_early}
use pms_scanner.Batch.File.{in_self}
use pms_scanner.Batch.Run.{run_once, recover_stranded, recover_all, recover_one}
use pms_scanner.Batch.Run.Returned.{recover_stranded_returns}
use pms_scanner.Scheduler.{build_jobs}
use pms_scanner.Scheduler.Register.{
  register, new_scheduler, poll_job, daily_reset_job_id, daily_job,
}
use pms_scanner.Scheduler.Registered.{register_keeps_all}
use pms_scanner.Runs.{dispatch, manual_runner}
use pms_scanner.Dashboard.{
  StatusPage, EnvStatus, Started, status, configure, unconfigured, done, not_found, manual_run,
}
use pms_scanner.Dashboard.Entry.{IsEntry}
use pms_scanner.Dashboard.Status.{status_is_accurate}
use pms_scanner.Dashboard.Trigger.{run_all_is_schedule, run_one_by_name}
use pms_scanner.Startup.{Disk, main}
use pms_scanner.Startup.Order.{MainStory, main_story}
use pms_scanner.Tests.{
  outside, claimed, mac, scan, scan_node, claimed_tree, waiting_tree, run_state, staging_state,
}
use pms_scanner.Tests.Services.{no_dot}
use pms_scanner.Tests.Settings.{raw_settings, settings, same_path}

pub loaded : load_settings same_path raw_settings ≡ valid settings
unfolding load_settings identify text_eq nat_eq keep_if
loaded = refl

register_keeps_all_example :
    let sched = register false none (new_scheduler settings true) in
    (sched.jobs
      ≡ map (λ spec. (spec.job_id, poll_job false none spec)) (build_jobs settings)
        ++ (daily_reset_job_id settings, daily_job) ∷ [])
    × (length sched.jobs ≤ sched.max_workers)
register_keeps_all_example = register_keeps_all same_path raw_settings settings false none loaded

abbrev pub trace : List (Text × Update)
trace =
    (codes "staging", started 7)
    ∷ (codes "production", started 8)
    ∷ (codes "staging", current (some scan) none none)
    ∷ (codes "production", pages 2)
    ∷ []

status_is_accurate_example :
    (page : StatusPage) × (status (
        configure settings
          (calls trace (new_state settings.machine (map (λ e. e.name) settings.environments)))
          unconfigured)
      ≡ done page)
    × (page.machine ≡ settings.machine.name)
    × All
        (λ e.
          (entry : EnvStatus) × (Dict.lookup e.name page.environments ≡ some entry)
          × IsEntry e (own e.name trace) entry)
        settings.environments
status_is_accurate_example = status_is_accurate same_path raw_settings settings trace loaded

abbrev run_id : Text → Text
run_id name = codes "id-" ++ name

abbrev returns : Runner → Bool
returns r = true

run_all_is_schedule_example :
    (a : Started) × (manual_run run_id returns (configure settings run_state unconfigured) none
      ≡ done a)
    × (a.triggered ≡ map (λ j. j.env_name) (build_jobs settings))
    × (map some a.runners ≡ map (λ j. dispatch settings j.env_name) (build_jobs settings))
run_all_is_schedule_example =
    run_all_is_schedule run_id returns same_path raw_settings settings run_state (λ r. refl) loaded

run_one_by_name_example :
    ((contains (map (λ e. e.name) settings.environments) (codes "staging") ≡ false)
      × (manual_run run_id returns
            (configure settings run_state unconfigured)
            (some (codes "staging"))
          ≡ not_found (codes "staging")))
    ⊎ ((place : ℕ) × (env : Environment) × (get_elem? settings.environments place ≡ some env)
        × (env.name ≡ codes "staging")
        × (manual_run run_id returns
              (configure settings run_state unconfigured)
              (some (codes "staging"))
            ≡ done (record {
              machine = settings.machine.name;
              triggered = codes "staging" ∷ [];
              runners = manual_runner settings env ∷ [];
              run_ids = (codes "staging", run_id (codes "staging")) ∷ [];
            })))
run_one_by_name_example =
    run_one_by_name run_id returns settings run_state (codes "staging") (λ r. refl)

own_folder : contains claimed_tree.folders (in_self outside mac) ≡ true
unfolding folder_eq
own_folder = refl

recovered : (recover_stranded outside mac 0 claimed_tree).0 ≡ ok (scan ∷ [])
unfolding recover_stranded recover_all recover_one iterdir rename reading ◌>>=◌ folder_eq path_eq
    Dict.lookup is_supported text_eq nat_eq
recovered = refl

abbrev answer : NtpMeasurement
answer = record {
  source = codes "pool.ntp.org";
  offset_seconds = pos 20;
  measured_at = 5;
  outcome = NtpOutcome.ok;
  stratum = 2;
}

abbrev disk : Disk
disk place = waiting_tree

main_story_example :
    MainStory
      (λ i. some answer)
      (λ i. i)
      same_path
      (λ e. outside)
      0
      raw_settings
      disk
      (main same_path (λ e. outside) 0 (λ i. some answer) (λ i. i) raw_settings disk)
main_story_example =
    main_story (λ i. some answer) (λ i. i) same_path (λ e. outside) 0 raw_settings disk

scan_here : find (at (in_self outside mac) scan) claimed_tree ≡ some scan_node
unfolding Dict.lookup path_eq
scan_here = refl

name_free : find (at watch scan) claimed_tree ≡ none
unfolding Dict.lookup path_eq
name_free = refl

scan_supported : is_supported scan ≡ true
unfolding is_supported text_eq nat_eq
scan_supported = refl

recover_stranded_returns_example :
    (find (at (in_self outside mac) scan) (recover_stranded outside mac 0 claimed_tree).1 ≡ none)
    × (find (at watch scan) (recover_stranded outside mac 0 claimed_tree).1 ≡ some scan_node)
recover_stranded_returns_example =
    recover_stranded_returns outside mac 0 scan scan_node no_dot scan_supported claimed_tree
      (scan ∷ []) own_folder recovered refl scan_here name_free

-- Another machine takes whatever waits.
abbrev contended : Outside
contended = record outside { before_stat = λ name t. record t { nodes = [] } }

abbrev waiting_world : World
waiting_world = record claimed { tree = waiting_tree }

watch_there : contains waiting_tree.folders watch ≡ true
unfolding folder_eq
watch_there = refl

staging_here : env_state (codes "staging") run_state ≡ some staging_state
unfolding Dict.lookup text_eq
staging_here = refl

listing : iterdir watch waiting_tree ≡ scan ∷ []
unfolding iterdir folder_eq
listing = refl

is_scan : (is_file (at watch scan) waiting_tree && is_supported scan) ≡ true
unfolding Dict.lookup path_eq is_supported text_eq nat_eq
is_scan = refl

taken : find (at watch scan) (contended.before_stat scan waiting_tree) ≡ none
unfolding Dict.lookup
taken = refl

run_once_ends_early_example :
    ((run_once contended mac waiting_world).0 ≡ raised file_not_found)
    × (env_state (codes "staging") (run_once contended mac waiting_world).1.run
        ≡ some (record staging_state { last_run_started_at = some (now contended waiting_world) }))
run_once_ends_early_example =
    run_once_ends_early contended mac waiting_world staging_state scan [] watch_there staging_here
      listing is_scan taken
