-- ===== src/Commission/Create.antt =====
-- commission_jobs.py, `create_job` and `get_job`: a request is checked, a duplicate refused, and a job
-- opened whose worker is scheduled.
pub mod Duplicate
pub mod Examples
use indigo_matter.Prelude.{ℕ, String, Bool, not, Option, none, some, ℤ, pos, str_eq, if◌then◌else◌}
use indigo_matter.Python.Table
use indigo_matter.Python.{
  Json, null, int, str, Fields, end, field, overflow_error, attribute_error, Result, ok, err, ◌>>=◌,
  truthy, int_of, strip_text,
}
use indigo_matter.Python.Dict.{get}
use indigo_matter.Python.Table.{Table, text_key}
use indigo_matter.Commission.{pending, is_terminal, Job, Jobs}
use indigo_matter.Commission.Codes.{is_valid_setup_code}
use indigo_matter.Commission.Records.{reap, unlist}

-- The HTTP status, and the body.
pub record Response : Type 0 where
  pub status : ℕ
  pub body : Fields

-- What the loop does with a coroutine: takes it, or raises a RuntimeError with a text.
pub data Schedule : Type 0 where
  scheduled : Schedule
  refused : String → Schedule

-- `(value or "").strip()`
pub stripped : Json → Result String
stripped (str s) = ok (strip_text s)
stripped v = if truthy v then err attribute_error else ok ""

-- `value or None`
pub or_none : Json → Json
or_none v = if truthy v then v else null

-- protocol.py, `opt_int`
pub opt_int : Json → Result (Option ℤ)
opt_int null = ok none
opt_int v = elim (int_of v) [
  | ok z ↦ ok (some z)
  | err overflow_error ↦ err overflow_error
  | err _ ↦ ok none
]

pub failure : ℕ → String → String → Response
failure status code message = record {
  status = status;
  body = field "error" (str code) (field "message" (str message) end);
}

pub duplicate : String → Response
duplicate existing_id = record {
  status = 409;
  body = field "error" (str "duplicate") (
      field "existingJobId" (str existing_id)
        (field "message" (str "Commissioning for this setup code is already in progress") end));
}

pub accepted : String → Response
accepted job_id = record {
  status = 202;
  body = field "jobId" (str job_id) (field "estimatedDurationSeconds" (int (pos 30)) end);
}

pub new_job : String → String → String → Fields → ℕ → Result Job
new_job job_id setup_code name params now = do
  discriminator ← opt_int (get "discriminator" params)
  expected_fabric_slots ← opt_int (get "expectedFabricSlots" params)
  ok (record {
    job_id = job_id;
    setup_code = setup_code;
    suggested_name = name;
    suggested_room = or_none (get "suggestedRoom" params);
    discriminator = discriminator;
    domio_node_id = or_none (get "domioNodeId" params);
    expected_fabric_slots = expected_fabric_slots;
    node_id = none;
    status = pending;
    progress = 0;
    message = "";
    started_at = now;
    terminal_at = none;
    result = none;
    error = none;
  })

pub open_job : Job → Jobs → Jobs
open_job job table = record table {
  jobs = Table.insert job.job_id job table.jobs;
  by_code = Table.insert job.setup_code job.job_id table.by_code;
}

-- What takes the opened job back when its worker could not be scheduled.
pub take_back : Job → Jobs → Jobs
take_back job table = record table {
  jobs = Table.remove job.job_id table.jobs;
  by_code = unlist job.setup_code job.job_id table.by_code;
}

-- The job that the setup code names, if it has not ended.
unfoldable pub in_progress : String → Jobs → Option String
in_progress setup_code table = elim (Table.lookup setup_code table.by_code) [
  | none ↦ none
  | some existing_id ↦ elim (Table.lookup existing_id table.jobs) [
    | none ↦ none
    | some existing ↦ if is_terminal existing.status then none else some existing_id
  ]
]

-- The answer, the table, and the job whose worker was started.
abbrev pub Created : Type 0
Created = Result Response × Jobs × Option String

pub launch : Schedule → Job → Jobs → Created
launch scheduled job table = (ok (accepted job.job_id), open_job job table, some job.job_id)
launch (refused why) job table =
    (ok (failure 503 "matter_server_unreachable" why), take_back job (open_job job table), none)

-- What follows the look for a duplicate, on the table that was reaped.
pub create_new : Schedule → Option String → Result Job → Jobs → Created
create_new loop (some existing_id) made table = (ok (duplicate existing_id), table, none)
create_new loop none (ok job) table = launch loop job table
create_new loop none (err e) table = (err e, table, none)

-- What follows the checks of the request.
pub create_checked : Bool → String → Schedule → ℕ → Fields → String → String → Jobs → Created
create_checked connected uuid loop now params setup_code name table =
    if not connected
    then (
      ok (
          failure 503 "matter_server_unreachable"
            "Not connected to matter-server; check it is running and reachable, then retry"),
      table,
      none,
    )
    else create_new loop (in_progress setup_code (reap now table))
        (new_job uuid setup_code name params now) (reap now table)

pub create_named : Bool → String → Schedule → ℕ → Fields → String → Result String → Jobs → Created
create_named connected uuid loop now params setup_code (err e) table = (err e, table, none)
create_named connected uuid loop now params setup_code (ok name) table =
    if str_eq name ""
    then (ok (failure 400 "invalid_request" "suggestedName is required"), table, none)
    else create_checked connected uuid loop now params setup_code name table

pub create_coded : Bool → String → Schedule → ℕ → Fields → Result String → Jobs → Created
create_coded connected uuid loop now params (err e) table = (err e, table, none)
create_coded connected uuid loop now params (ok setup_code) table =
    if not (is_valid_setup_code setup_code)
    then (
      ok (
          failure 400 "invalid_setup_code"
            "Setup code must be an MT:... QR payload or an 11- or 21-digit numeric pairing code"),
      table,
      none,
    )
    else create_named connected uuid loop now params setup_code
        (stripped (get "suggestedName" params)) table

unfoldable pub create_job : Bool → String → Schedule → ℕ → Fields → Jobs → Created
create_job connected uuid loop now params table =
    create_coded connected uuid loop now params (stripped (get "setupCode" params)) table

-- `get_job`: the job that a client polls, and the table without the jobs that were too old.
unfoldable pub get_job : ℕ → String → Jobs → Option Job × Jobs
get_job now job_id table = (Table.lookup job_id (reap now table).jobs, reap now table)
