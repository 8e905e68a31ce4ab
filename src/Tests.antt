-- ===== src/Tests.antt =====
-- A small fleet, and the theorems at concrete data.
pub mod Files
pub mod Fleet
pub mod Passes
pub mod Pages
pub mod Services
pub mod Settings
pub mod Start
pub mod Streams
use pms_scanner.Prelude.{
  ℕ, Bool, true, false, Option, none, some, List, [], ◌∷◌, Text, codes, ltb, length, Result, ok,
  if◌then◌else◌,
}
use pms_scanner.Prelude.Int.{pos}
use pms_scanner.Machine.{MachineIdentity}
use pms_scanner.Config.{Environment}
use pms_scanner.State.{BatchRunState, PerEnvRunState, fresh}
use pms_scanner.Uploader.{
  Backend, Reply, Request, Limits, Net, http_error, response, request_exception, batch,
}
use pms_scanner.Tree.{Tree, Node, Folder, watch, processed, in_progress, FilePath, at}
use pms_scanner.Pdf.{Imaging, osd_text, osd_error}
use pms_scanner.Batch.World.{Outside, Runner, World}

-- An image is a text, and a smaller image a shorter one.
abbrev pub toy_imaging : Imaging
toy_imaging = record {
  Image = Text;
  FitzPage = Text;
  open_pdf = λ bytes. ok (bytes ∷ codes "second" ∷ []);
  open_tiff = λ bytes. ok (bytes ∷ []);
  page_rotation = λ page. 0;
  get_pixmap = λ page dpi. ok page;
  image_to_osd = λ image. osd_error;
  rotate = λ image degrees. image;
  width = λ image. length image;
  height = λ image. 1;
  resize = λ image w h. codes "small";
  encode_tiff = λ image. ok image;
}

-- The first request fails, and a large image is refused.
toy_reply : List Request → Request → Reply
toy_reply [] r = request_exception
toy_reply (_ ∷ _) r =
    if ltb 8 (length r.image_bytes)
    then http_error (some 413)
    else response 200 (batch (r.file_name ∷ []) 0)

abbrev pub toy_backend : Backend
unfolding toy_reply
toy_backend = record { reply = toy_reply; latency = λ posts. 120; oversleep = λ clock. 3 }

abbrev pub outside : Outside
outside = record {
  imaging = toy_imaging;
  backend = toy_backend;
  smtp = λ mail. true;
  denied = λ src dst. false;
  wall = λ clock. 1700000000000;
  stamp = λ clock. codes "20260101T000000Z";
  describe = λ fault. codes "error";
  before_stat = λ name t. t;
  before_claim = λ name t. t;
}

abbrev pub staging : Environment
staging = record {
  name = codes "staging";
  enabled = true;
  watch_dir = codes "/scans";
  backend_base_url = codes "https://b";
  api_token = codes "key";
  requisition_id = none;
  schedule_offset_seconds = 15;
}

abbrev pub runner_of : Text → Runner
runner_of machine = record {
  env = staging;
  machine = record { name = machine };
  settle = 10000;
  limits = record { timeout_seconds = 30; max_retries = 3; retry_max_wait_seconds = 10 };
  emit = true;
  notifier = none;
}

abbrev pub mac : Runner
mac = runner_of (codes "mac")

abbrev pub mini : Runner
mini = runner_of (codes "mini")

abbrev pub scan : Text
scan = codes "a.pdf"

abbrev pub scan_node : Node
scan_node = record { is_file = true; mtime = 5; bytes = codes "a large first page" }

abbrev pub all_folders : List Folder
all_folders =
    watch ∷ processed ∷ Folder.failed ∷ in_progress (codes "mac") ∷ in_progress (codes "mini") ∷ []

abbrev pub claimed_tree : Tree
claimed_tree = record {
  folders = all_folders;
  nodes = (at (in_progress (codes "mac")) scan, scan_node) ∷ [];
}

abbrev pub waiting_tree : Tree
waiting_tree = record { folders = all_folders; nodes = (at watch scan, scan_node) ∷ [] }

abbrev pub staging_state : PerEnvRunState
staging_state = fresh (codes "mac") (codes "staging")

abbrev pub run_state : BatchRunState
run_state = record {
  machine = record { name = codes "mac" };
  per_env = (codes "staging", staging_state) ∷ [];
  recent_clock_sync = none;
  last_drift_warning = none;
}

abbrev pub idle : Net
idle = record { posts = []; rate_history = []; clock = 0 }

abbrev pub claimed : World
claimed = record { tree = claimed_tree; run = run_state; net = idle; events = []; notices = [] }
