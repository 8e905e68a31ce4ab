-- ===== src/Lib.antt =====
-- pms-scanner: a fleet of machines uploads the scans of shared watch folders to the backends of
-- several environments. This library models the program under scanner/.
--
-- The parts and how they interact. A machine (scanner/machine.py) serves the environments of its
-- settings (scanner/config.py). For each, the batch runner (scanner/batch.py) lists the watch folder,
-- claims a settled file by a rename into its own folder below in-progress/, splits it into pages
-- (scanner/pdf_processor.py), uploads each (scanner/uploader.py), at lower resolutions where the
-- backend rejects it, and moves the file to processed/, failed/ or back. It counts what it does in
-- the run state (scanner/state.py) and reports a quarantined file by mail (scanner/notify.py). The
-- clock is checked at the start and while the program runs (scanner/ntp.py). The start
-- (scanner/__main__.py) refuses bad settings and a bad clock, recovers stranded files, and registers
-- the jobs (scanner/scheduler.py) that run the batch runners; the dashboard (scanner/dashboard.py)
-- shows the run state, sends its events to browsers and starts runs by hand.
--
-- The files:
--   Prelude    numbers, lists, texts as lists of code points, dictionaries, and the methods that
--              change an object and may raise: functions `S → Result A × S`, where what was written
--              before an exception stays written.
--   Machine    `MachineIdentity`: `identify` is its `__post_init__`.
--   Config     `Environment`; Config/Assembly has `assemble`, `build_env`, `is_https` and
--              `check_distinct` for `_assemble`, `_build_env`, `_check_scheme`, `_check_distinct`,
--              and `load_settings`; Config/Options has the other settings and their validators,
--              Config/Message `_format`.
--   Ntp        `measure`; Ntp/Gate has `NTPGate.verify`, Ntp/Drift `DriftMonitor.check_once`,
--              Ntp/Monitor its thread.
--   State      `BatchRunState`, with a function for each method; a call is one step under the lock.
--   Logging    `_RedactingFilter`, `_EnvMachineAdapter` and `make_logger` of scanner/state.py.
--   FileName   `Path.suffix`, `Path.stem`, the names of uploaded pages, the supported suffixes.
--   Uploader   `upload_page`; Uploader/Window has one round of `_rate_limit_acquire`.
--   Tree       the folders of one environment, and `os.rename`, which is one atomic step.
--   Pdf        `process_pdf` and `downsample_image`.
--   Notify     `notify_quarantine`.
--   Batch      Batch/World has the state of a run and what lies outside; Batch/Page has
--              `_upload_page_with_downsample`, Batch/File `_process_file` and `_dispose`, Batch/Run
--              `claim_file`, `recover_stranded` and `run_once`. The proofs about each stand
--              in the child modules.
--   Scheduler  `build_jobs`: a job for each enabled environment, at its second of every minute;
--              Scheduler/Register has the `Scheduler`, with its jobs by their ids.
--   Runs       the runners that `_default_run_env` and `_run_env_once` make.
--   Dashboard  `configure`, `status` and `manual_run`; Dashboard/Events has `generate` of `/events`
--              and the `AppState` of scanner/state.py, Dashboard/Page the script of the page.
--   Startup    `build_runtime`, `configure_services` and `main`, over the trees of all environments.
--   Fleet      the specification of a fleet: the steps that machines and operators take on the tree
--              of an environment, and traces of them.
--   Tests      a small fleet, and the theorems at concrete data.
--
-- Units, bounds and fuel. Offsets of the clock are in microseconds, times of the uploader and the
-- runner in milliseconds. `rate_limit_acquire` has as many rounds as the history has entries, and one
-- more: after each pause the oldest grant has left the window. `verify` has as many rounds as the
-- timeout has units, and one more, for a clock that moves on by a unit with each sleep. The digits of
-- a number and the lines of a text are counted by the number and by the length. The startup
-- timeout is turned into milliseconds, the unit of the monotonic clock there.
--
-- What lies outside and is a parameter: the backend and its delays, the clocks, the images and the
-- libraries that read and render them, the mail server, the renames that the system refuses,
-- `Path.resolve`, the texts of exceptions, the program that corrects the clock, and what other
-- machines do to the folders while this one lists or claims; for the page, the browser's `toFixed`
-- and `sort`.
--
-- Not modelled: APScheduler, FastAPI, asyncio and uvicorn; the markup and the style of the
-- page, and `/healthz`, a constant; the reading of variables by pydantic; the modes of folders, and
-- failures to make one, which end `main`; a level of the log that `logging` does not know, which
-- ends `main`, too; log lines other than those of `make_logger`; watch folders inside one another;
-- two runs of one environment at the same time, but for the claim of a name that is claimed
-- already. Other machines act before a pass asks for the age of a file and before it claims one,
-- never while `_process_file` deals with one. The limits of the uploads, the allowed drift and the
-- timeouts are naturals: a negative one, with which `time.sleep` would raise, and a drift that is
-- not a number are left out. The folder that a notice names is the watch folder with `/failed`
-- behind it, without the normal form that `pathlib` gives a path.
pub mod Prelude
pub mod Machine
pub mod Ntp
pub mod State
pub mod FileName
pub mod Config
pub mod Dashboard
pub mod Uploader
pub mod Tree
pub mod Pdf
pub mod Notify
pub mod Batch
pub mod Scheduler
pub mod Logging
pub mod Runs
pub mod Startup
pub mod Fleet
pub mod Tests
