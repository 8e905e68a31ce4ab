-- ===== src/Startup/Order.antt =====
-- Every way in which `main` can end.
use mathlib.Core.Path.{subst}
use mathlib.Core.Option.{none-ne-some}
use pms_scanner.Prelude.{
  ℕ, suc, ◌*◌, ◌≤◌, ◌<◌, ◌≡◌, ◌≢◌, refl, sym, ap, ◌∙◌, inl, inr, true, false, Option, none, some,
  List, [], ◌∷◌, Text, All, All-map, Pairwise, Bool-cases, Result, ok, raised, pure, proceed, ◌>>=◌,
}
use pms_scanner.Prelude.Int.{abs}
use pms_scanner.Config.{Environment}
use pms_scanner.Config.Assembly.{
  RawSettings, AppSettings, Outcome, valid, refused, load_settings, clean,
}
use pms_scanner.Config.Assembly.Valid.{Apart, AllApart, assemble_valid}
use pms_scanner.Ntp.{NtpMeasurement}
use pms_scanner.Ntp.Gate.{
  Verdict, passed, drift_exceeded, no_response, verify, verify-Within, GateStory, verify_story,
  passes, refuses, gives_up,
}
use pms_scanner.Batch.World.{Outside}
use pms_scanner.Scheduler.{enabled_environments}
use pms_scanner.Startup.{
  Disk, Refusal, bad_settings, clock_drift, no_time_source, Boot, booted, exits, hung, Process,
  judged, gate, create_dirs, built, build_runtime, runtime_of, process_of, running, Ending, serving,
  exited, crashed, waits_forever, served, recover_envs, configure_services, after_boot, main,
}
use pms_scanner.Startup.Folders.{IsReady, recover_envs-IsReady}

all_places :
    (resolve : Text → Text) (a : Environment) (es : List Environment)
    → All (Apart resolve a) es
    → All (λ b. resolve a.watch_dir ≢ resolve b.watch_dir) es
all_places resolve a es h = All-map _ _ (λ b k. k.0) es h

apart_places :
    (resolve : Text → Text) (es : List Environment)
    → AllApart resolve es
    → Pairwise (λ a b. resolve a.watch_dir ≢ resolve b.watch_dir) es
apart_places resolve [] h = tt
apart_places resolve (a ∷ es) h = (all_places resolve a es h.0, apart_places resolve es h.1)

module _ (measures : ℕ → Option NtpMeasurement) (monotonic : ℕ → ℕ) where
  abbrev pub verdict : AppSettings → Option Verdict
  verdict s =
      verify measures monotonic s.options.ntp.max_drift_seconds
        (s.options.ntp.startup_timeout_seconds * 1000)

  -- What the gate has shown before the rest of the start.
  abbrev pub ClockChecked : AppSettings → Option NtpMeasurement → Type 0
  ClockChecked s none = s.options.ntp.startup_required ≡ false
  ClockChecked s (some m) =
      (verdict s ≡ some (passed m)) × (abs m.offset_seconds ≤ s.options.ntp.max_drift_seconds)

  abbrev pub GateGives : AppSettings → Boot (Option NtpMeasurement) → Type 0
  GateGives s (booted m) = ClockChecked s m
  GateGives s (exits (bad_settings e)) = ⊥
  GateGives s (exits (clock_drift m)) =
      (s.options.ntp.startup_required ≡ true) × (verdict s ≡ some (drift_exceeded m))
  GateGives s (exits no_time_source) =
      (s.options.ntp.startup_required ≡ true) × (verdict s ≡ some no_response)
  GateGives s hung = (s.options.ntp.startup_required ≡ true) × (verdict s ≡ none)

  judged-GateGives :
      (s : AppSettings) (v : Option Verdict)
      → s.options.ntp.startup_required ≡ true
      → verdict s ≡ v
      → GateGives s (judged v)
  judged-GateGives s none r e = (r, e)
  judged-GateGives s (some (passed m)) r e =
      (e, verify-Within s.options.ntp.max_drift_seconds m measures monotonic _ e)
  judged-GateGives s (some (drift_exceeded m)) r e = (r, e)
  judged-GateGives s (some no_response) r e = (r, e)

  gate-GateGives : (s : AppSettings) → GateGives s (gate measures monotonic s)
  unfolding gate
  gate-GateGives s = elim (Bool-cases s.options.ntp.startup_required) [
    | inl r ↦ subst (GateGives s) (sym (gate_on r)) (judged-GateGives s (verdict s) r refl)
    | inr r ↦ subst (GateGives s) (sym (gate_off r)) r
  ]
    where
      gate_on :
          s.options.ntp.startup_required ≡ true → gate measures monotonic s ≡ judged (verdict s)
      gate_on r = rw r refl

      gate_off : s.options.ntp.startup_required ≡ false → gate measures monotonic s ≡ booted none
      gate_off r = rw r refl

  module _ (resolve : Text → Text) (outside : Environment → Outside) (clock : ℕ) (raw : RawSettings)
      (d : Disk) where
    -- The program as it serves: the settings are those that were loaded, the clock was checked
    -- where that is required, and the result is in the run state that `/status` shows; every
    -- enabled environment has its folders, and nothing is stranded; the jobs and the monitor run.
    pub record IsServing (p : Process) (d' : Disk) : Type 0 where
      pub settings : AppSettings
      pub measurement : Option NtpMeasurement
      pub accepted : load_settings resolve raw ≡ valid settings
      pub checked : ClockChecked settings measurement
      pub is_process : p ≡ running (process_of (runtime_of settings measurement))
      pub ready :
          All
            (λ e. IsReady settings.machine.name (d' (resolve e.watch_dir)))
            (enabled_environments settings)

    abbrev pub Why : Refusal → Type 0
    Why (bad_settings e) = load_settings resolve raw ≡ refused e
    Why why = (s : AppSettings) × (load_settings resolve raw ≡ valid s) × GateGives s (exits why)

    abbrev pub MainStory : Ending × Disk → Type 0
    MainStory (serving p, d') = IsServing p d'
    MainStory (exited why, d') = (d' ≡ d) × Why why
    MainStory (crashed exc, d') =
        (s : AppSettings) × (load_settings resolve raw ≡ valid s)
        × (recover_envs resolve outside clock s (enabled_environments s)
              (create_dirs resolve s.machine.name (enabled_environments s) d)
            ≡ (raised exc, d'))
    MainStory (waits_forever, d') =
        (d' ≡ d) × ((s : AppSettings) × (load_settings resolve raw ≡ valid s) × GateGives s hung)

    loaded-AllApart :
        (s : AppSettings)
        → load_settings resolve raw ≡ valid s
        → AllApart resolve (enabled_environments s)
    unfolding load_settings
    loaded-AllApart s a = (assemble_valid resolve (clean raw) s a).apart

    services-MainStory :
        (s : AppSettings) (m : Option NtpMeasurement) (r : Result (Unit {0})) (d' : Disk)
        → load_settings resolve raw ≡ valid s
        → ClockChecked s m
        → recover_envs resolve outside clock s
            (enabled_environments s)
            (create_dirs resolve s.machine.name (enabled_environments s) d)
          ≡ (r, d')
        → MainStory (
            let (p, d'') = proceed {S = Disk} (λ _. pure (process_of (runtime_of s m))) r d' in
            (served p, d''))
    unfolding pure
    services-MainStory s m (raised exc) d' a c e = (s, a, e)
    services-MainStory s m (ok tt) d' a c e =
        let places = apart_places resolve (enabled_environments s) (loaded-AllApart s a) in
        record {
          settings = s;
          measurement = m;
          accepted = a;
          checked = c;
          is_process = refl;
          ready =
              subst
                (λ (u : Disk).
                  All (λ e. IsReady s.machine.name (u (resolve e.watch_dir)))
                    (enabled_environments s))
                (ap (λ (x : Result (Unit {0}) × Disk). x.1) e)
                (recover_envs-IsReady resolve outside clock s (enabled_environments s) _ places
                  (ap (λ (x : Result (Unit {0}) × Disk). x.0) e));
        }

    boot-MainStory :
        (s : AppSettings) (boot : Boot (Option NtpMeasurement))
        → load_settings resolve raw ≡ valid s
        → GateGives s boot
        → MainStory (after_boot resolve outside clock (built resolve s d boot))
    unfolding configure_services ◌>>=◌
    boot-MainStory s (booted m) a g = services-MainStory s m _ _ a g refl
    boot-MainStory s (exits (bad_settings e)) a g = absurd g
    boot-MainStory s (exits (clock_drift m)) a g = (refl, (s, a, g))
    boot-MainStory s (exits no_time_source) a g = (refl, (s, a, g))
    boot-MainStory s hung a g = (refl, (s, a, g))

    settings-MainStory :
        (loaded : Outcome AppSettings)
        → load_settings resolve raw ≡ loaded
        → MainStory (elim loaded [
          | refused e ↦ (exited (bad_settings e), d)
          | valid s ↦
              after_boot resolve outside clock (build_runtime resolve measures monotonic s d)
        ])
    unfolding build_runtime
    settings-MainStory (refused e) a = (refl, a)
    settings-MainStory (valid s) a =
        boot-MainStory s (gate measures monotonic s) a (gate-GateGives s)

    -- Where `main` serves, the settings were loaded, and where they require a check of the clock
    -- the gate passed by a measurement within the limit; the process is the one that
    -- `configure_services` makes of them, started, and every enabled environment has its folders
    -- and nothing stranded in this machine's. Where it exits, no folder was touched, and the
    -- settings were refused, or they require the check and the gate refused by an offset or for
    -- want of an answer. Any other exception comes from the recovery, and it waits only where the
    -- gate does not end.
    pub main_story : MainStory (main resolve outside clock measures monotonic raw d)
    unfolding main
    main_story = settings-MainStory (load_settings resolve raw) refl

-- If the monotonic clock never goes back and moves on with every sleep, the start does not wait
-- for the time source for ever: `main` serves, exits with code 1, or ends by an exception.
pub main_ends :
    (measures : ℕ → Option NtpMeasurement) (monotonic : ℕ → ℕ) (resolve : Text → Text)
    (outside : Environment → Outside) (clock : ℕ) (raw : RawSettings) (d : Disk)
    → monotonic 0 ≤ monotonic 1
    → ((i : ℕ) → monotonic (suc i) < monotonic (suc (suc i)))
    → (main resolve outside clock measures monotonic raw d).0 ≢ waits_forever
main_ends measures monotonic resolve outside clock raw d begins moves e =
    let (same, (s, a, (r, never))) =
      subst
        (λ (x : Ending).
          MainStory measures monotonic resolve outside clock raw d
            (x, (main resolve outside clock measures monotonic raw d).1))
        e (main_story measures monotonic resolve outside clock raw d) in
    ends (verdict measures monotonic s) never (
      verify_story measures monotonic s.options.ntp.max_drift_seconds
        (s.options.ntp.startup_timeout_seconds * 1000) begins moves)
  where
    ends :
        {timeout max_drift : ℕ} (v : Option Verdict)
        → v ≡ none
        → GateStory measures monotonic max_drift timeout 0 v
        → ⊥
    ends v never (passes k m all found within e) = none-ne-some _ (sym never ∙ e)
    ends v never (refuses k m all found beyond e) = none-ne-some _ (sym never ∙ e)
    ends v never (gives_up k all nothing late e) = none-ne-some _ (sym never ∙ e)
