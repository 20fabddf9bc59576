-- ===== src/Commission.antt =====
-- commission_jobs.py: the commissioning jobs, the table that holds them, and the coroutines that carry
-- them out. A job object is known by its job id. Times are in milliseconds of the clock; a progress
-- is in hundredths.
pub mod Codes
pub mod Records
pub mod Create
pub mod Claim
pub mod Late
pub mod Worker
pub mod Expiry
use indigo_matter.Prelude.{ℕ, String, Bool, true, false, Option, List, ℤ}
use indigo_matter.Python.{Json}
use indigo_matter.Python.Table.{Table}

pub data JobStatus : Type 0 where
  pending commissioning reading_descriptors creating_devices success failed : JobStatus

-- TERMINAL
abbrev pub is_terminal : JobStatus → Bool
is_terminal success = true
is_terminal failed = true
is_terminal _ = false

abbrev pub is_failed : JobStatus → Bool
is_failed failed = true
is_failed _ = false

-- RETENTION, 15 minutes
abbrev pub retention : ℕ
retention = 900000

-- RECONCILE_WINDOW, 5 minutes
abbrev pub reconcile_window : ℕ
reconcile_window = 300000

abbrev pub commissioning_timeout : String
commissioning_timeout = "commissioning_timeout"

-- A node id off the wire is an `int` or a text.
pub data NodeId : Type 0 where
  number : ℤ → NodeId
  text : String → NodeId

-- `{"code": …, "message": …}`, with a "matterErrorCode" where there is one.
pub record JobError : Type 0 where
  pub code : String
  pub message : String
  pub matter_error_code : Option ℤ

pub record Job : Type 0 where
  pub job_id : String
  pub setup_code : String
  pub suggested_name : String
  pub suggested_room : Json
  pub discriminator : Option ℤ
  pub domio_node_id : Json
  pub expected_fabric_slots : Option ℤ
  pub node_id : Option NodeId
  pub status : JobStatus
  pub progress : ℕ
  pub message : String
  pub started_at : ℕ
  pub terminal_at : Option ℕ
  pub result : Option Json
  pub error : Option JobError

-- `_removing` holds the keys of the nodes that are being removed.
pub record Jobs : Type 0 where
  pub jobs : Table String Job
  pub by_code : Table String String
  pub removing : List NodeId
