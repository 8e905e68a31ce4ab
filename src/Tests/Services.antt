-- ===== src/Tests/Services.antt =====
-- The theorems about the shared services, at concrete data.
use pms_scanner.Prelude.{
  or_false, ℕ, zero, suc, ◌+◌, ◌*◌, ◌≤◌, ◌<◌, ◌≡◌, refl, arith, true, false, Option, none, some,
  List, [], ◌∷◌, Text, codes, text_eq, nat_eq, ok, contains, ◌==◌,
}
use mathlib.Core.Option
use pms_scanner.Prelude.Int.{pos}
use pms_scanner.Prelude.Dict
use pms_scanner.Machine.{identify, identity, strip, reserved}
use pms_scanner.Machine.Validation.{IsFolderName, identify_valid}
use pms_scanner.Ntp.{NtpMeasurement, NtpOutcome}
use pms_scanner.Ntp.Gate.{verify, GateStory, verify_story}
use pms_scanner.Ntp.Drift.{Table, HelperRun, exited, check, check-Table}
use pms_scanner.State.Laws.{
  Update, pages, files, started, calls, own, effects, env_state, calls_isolated,
}
use pms_scanner.Tree.{at, watch, find, path_eq, folder_eq, exists}
use pms_scanner.Tree.Laws.{CanMove}
use pms_scanner.Uploader.{upload_page, page_request}
use pms_scanner.Uploader.Attempts.{Story, upload_page_story}
use pms_scanner.Uploader.Window.Spacing.{Ascending, Spaced, rounds, nothing_yet, rate_limit}
use pms_scanner.Notify.{is_configured, notify_quarantine}
use pms_scanner.Notify.Delivery.{Reported, notify_quarantine-Reported}
use pms_scanner.Batch.File.{in_self}
use pms_scanner.Batch.Run.{examine, recovered_name}
use pms_scanner.Batch.Run.Claims.{race, claim_race, claim_winner}
use pms_scanner.Batch.Run.Recovery.{DotFree, recovered_file_is_ignored}
use pms_scanner.Tests.Settings.{mail_settings}
use pms_scanner.Tests.{
  outside, mac, mini, scan, scan_node, waiting_tree, staging, run_state, idle, toy_backend,
}

can_claim :
    CanMove outside.denied (at watch scan) (at (in_self outside mac) scan) scan_node waiting_tree
unfolding path_eq folder_eq Dict.lookup
can_claim = record {
  allowed = refl;
  folder = refl;
  here = refl;
  node_file = refl;
  no_folder = λ old h. cc;
}

claim_race_example : (race outside scan (mini ∷ mac ∷ mini ∷ []) waiting_tree).0 ≤ 1
claim_race_example = claim_race outside scan (mini ∷ mac ∷ mini ∷ []) waiting_tree

claim_winner_example :
    let (winners, t') = race outside scan (mac ∷ mini ∷ []) waiting_tree in
    (winners ≡ 1)
    × (find (at (in_self outside mac) scan) t' ≡ some scan_node)
    × (find (at watch scan) t' ≡ none)
claim_winner_example = claim_winner outside scan mac (mini ∷ []) waiting_tree scan_node can_claim

dot_free : (s : Text) → contains s b'.' ≡ false → DotFree s
dot_free [] h = tt
dot_free (c ∷ s) h =
    let (differs, rest) = or_false (b'.' == c) (contains s b'.') h in
    (λ e. different c e differs, dot_free s rest)
  where
    different : (c : ℕ) → c ≡ b'.' → (b'.' == c) ≡ false → ⊥
    different c e h = ground arith

pub no_dot : DotFree (outside.stamp 0)
unfolding nat_eq
no_dot = dot_free (outside.stamp 0) refl

waiting : exists (at watch scan) waiting_tree ≡ true
unfolding path_eq Dict.lookup
waiting = refl

recovered_file_is_ignored_example :
    examine outside mac 0 (recovered_name outside mac 0 scan waiting_tree) waiting_tree
    ≡ (ok false, waiting_tree)
recovered_file_is_ignored_example =
    recovered_file_is_ignored outside mac 0 0 scan waiting_tree waiting_tree no_dot waiting

upload_page_story_example :
    let (res, n') = upload_page toy_backend mac.limits staging scan 1 (ok (codes "page")) idle in
    Story toy_backend (page_request staging scan 1 30 (codes "page")) 3 [] res n'.posts
upload_page_story_example =
    upload_page_story toy_backend mac.limits staging scan 1 (codes "page") idle

-- Readings a second apart.
ramp : ℕ → ℕ → List ℕ
ramp zero since = []
ramp (suc k) since = since ∷ ramp k (since + 1000)

ramp-Ascending : (k since : ℕ) (before : ℕ) → before ≤ since → Ascending before (ramp k since)
unfolding ramp
ramp-Ascending zero since before h = tt
ramp-Ascending (suc k) since before h = (h, ramp-Ascending k (since + 1000) since (omega arith))

rate_limit_example : Spaced (rounds (ramp 70 500) nothing_yet).grants
rate_limit_example = rate_limit (ramp 70 500) (ramp-Ascending 70 500 0 (omega arith))

abbrev measurement : ℕ → NtpMeasurement
measurement offset = record {
  source = codes "pool.ntp.org";
  offset_seconds = pos offset;
  measured_at = 7;
  outcome = NtpOutcome.ok;
  stratum = 2;
}

-- No answer at first, then a small offset.
answers : ℕ → Option NtpMeasurement
answers zero = none
answers (suc i) = some (measurement 250)

ticks : ℕ → ℕ
ticks i = i * 1000000

ticks_begin : ticks 0 ≤ ticks 1
unfolding ticks
ticks_begin = omega arith

ticks_move : (i : ℕ) → ticks (suc i) < ticks (suc (suc i))
unfolding ticks
ticks_move i = omega arith

verify_story_example :
    GateStory answers ticks 1000000 30000000 0 (verify answers ticks 1000000 30000000)
verify_story_example = verify_story answers ticks 1000000 30000000 ticks_begin ticks_move

abbrev helper : Text → Text → HelperRun
helper command source = exited (pos 0)

check-Table_example : Table helper 1000000 (codes "pool.ntp.org") true true (some (codes "fix")) (
    check helper 1000000 (codes "pool.ntp.org") 9 (some (measurement 5000000)) (some (codes "fix")))
check-Table_example =
    check-Table helper 1000000 (codes "pool.ntp.org") 9 (some (measurement 5000000))
      (some (codes "fix"))

abbrev trace : List (Text × Update)
trace =
    (codes "staging", pages 2) ∷ (codes "production", files 1) ∷ (codes "staging", started 9) ∷ []

calls_isolated_example :
    env_state (codes "staging") (calls trace run_state)
    ≡ Option.map (effects (own (codes "staging") trace)) (env_state (codes "staging") run_state)
calls_isolated_example = calls_isolated (codes "staging") trace run_state

accepted_name : identify (codes " mac-mini ") ≡ identity (record { name = codes "mac-mini" })
unfolding identify text_eq nat_eq
accepted_name = refl

identify_valid_example :
    (codes "mac-mini" ≡ strip (codes " mac-mini "))
    × IsFolderName (codes "mac-mini")
    × (contains reserved (codes "mac-mini") ≡ false)
identify_valid_example =
    identify_valid (codes " mac-mini ") (record { name = codes "mac-mini" }) accepted_name

notify_quarantine-Reported_example :
    Reported outside.smtp mail_settings scan
      (codes "/failed")
      (codes "staging")
      (codes "mac")
      (codes "rejected")
      (is_configured mail_settings)
      (notify_quarantine outside.smtp mail_settings scan
        (codes "/failed")
        (codes "staging")
        (codes "mac")
        (codes "rejected"))
notify_quarantine-Reported_example =
    notify_quarantine-Reported outside.smtp mail_settings scan (codes "/failed") (codes "staging")
      (codes "mac") (codes "rejected")
