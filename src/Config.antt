-- ===== src/Config.antt =====
-- scanner/config.py: the environments and their folders.
pub mod Options
pub mod Assembly
pub mod Message
use pms_scanner.Prelude.{ℕ, Bool, Option, Text}

-- `Environment`. Its tree below `watch_dir` is modelled by the folders of `Tree`.
pub record Environment : Type 0 where
  pub name : Text
  pub enabled : Bool
  pub watch_dir : Text
  pub backend_base_url : Text
  pub api_token : Text
  pub requisition_id : Option Text
  pub schedule_offset_seconds : ℕ
