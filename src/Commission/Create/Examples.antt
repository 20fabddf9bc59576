-- ===== src/Commission/Create/Examples.antt =====
-- commission_jobs.py: two requests with one setup code.
use indigo_matter.Prelude.{true, some, none, [], ◌≡◌, refl}
use indigo_matter.Python.{null, str, Fields, end, field, ok, strip_text, truthy}
use indigo_matter.Python.Dict
use indigo_matter.Python.Dict.{get}
use indigo_matter.Python.Table
use indigo_matter.Python.Table.{text_key}
use indigo_matter.Commission.{pending, Job, Jobs}
use indigo_matter.Commission.Codes.{is_valid_setup_code}
use indigo_matter.Commission.Records.{reap, drop_all, expired}
use indigo_matter.Commission.Create.{
  scheduled, stripped, opt_int, or_none, new_job, in_progress, create_job, accepted, duplicate,
}
use indigo_matter.Commission.Create.Duplicate.{IsRequest, create_job-create_job}

abbrev request : Fields
request = field "setupCode" (str " 12345678901 ") (field "suggestedName" (str "Plug") end)

abbrev empty_table : Jobs
empty_table = record { jobs = []; by_code = []; removing = [] }

abbrev first_job : Job
first_job = record {
  job_id = "job-1";
  setup_code = "12345678901";
  suggested_name = "Plug";
  suggested_room = null;
  discriminator = none;
  domio_node_id = null;
  expected_fabric_slots = none;
  node_id = none;
  status = pending;
  progress = 0;
  message = "";
  started_at = 1000;
  terminal_at = none;
  result = none;
  error = none;
}

request-IsRequest : IsRequest request "12345678901" "Plug"
unfolding stripped strip_text Dict.lookup is_valid_setup_code
request-IsRequest = record { coded = refl; valid = refl; named = refl; nonblank = refl }

free : in_progress "12345678901" (reap 1000 empty_table) ≡ none
unfolding in_progress reap drop_all expired Table.lookup
free = refl

made : new_job "job-1" "12345678901" "Plug" request 1000 ≡ ok first_job
unfolding new_job opt_int or_none Dict.lookup truthy
made = refl

create_job-create_job_example :
    ((create_job true "job-1" scheduled 1000 request empty_table).0 ≡ ok (accepted "job-1"))
    × ((create_job true "job-1" scheduled 1000 request empty_table).2 ≡ some "job-1")
    × ((create_job true "job-2" scheduled 2000 request
          (create_job true "job-1" scheduled 1000 request empty_table).1).0
        ≡ ok (duplicate "job-1"))
    × ((create_job true "job-2" scheduled 2000 request
          (create_job true "job-1" scheduled 1000 request empty_table).1).2
        ≡ none)
create_job-create_job_example =
    create_job-create_job "job-1" "job-2" "12345678901" "Plug" "Plug" scheduled 1000 2000 request
      request first_job empty_table tt tt request-IsRequest request-IsRequest free made
