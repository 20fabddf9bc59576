-- ===== src/Commission/Claim/Examples.antt =====
-- commission_jobs.py: a plug whose commissioning timed out, and then joins.
use indigo_matter.Prelude.{true, false, none, some, [], ◌∷◌, pos, ◌≡◌, refl}
use indigo_matter.Python.{null}
use indigo_matter.Python.Table
use indigo_matter.Python.Table.{Table, text_key, IsUnique}
use indigo_matter.Commission.{failed, commissioning_timeout, number, Job, Jobs}
use indigo_matter.Commission.Codes.{node_key, is_node}
use indigo_matter.Commission.Records.{is_removing}
use indigo_matter.Commission.Create.{refused}
use indigo_matter.Commission.Claim.{
  is_candidate, candidates_of, timeout_candidates, keep, last, is_one_code, attributed, claimable,
  reconcile_node_added, has_code,
}
use indigo_matter.Commission.Claim.Attribution.{IsAttributed, claimable-IsAttributed}
use indigo_matter.Commission.Claim.Restored.{IsReconciled, reconcile_node_added-IsReconciled}

abbrev pub plug : Job
plug = record {
  job_id = "job-1";
  setup_code = "12345678901";
  suggested_name = "Plug";
  suggested_room = null;
  discriminator = none;
  domio_node_id = null;
  expected_fabric_slots = none;
  node_id = none;
  status = failed;
  progress = 20;
  message = "";
  started_at = 1000;
  terminal_at = some 301000;
  result = none;
  error =
      some (record { code = commissioning_timeout; message = "timeout"; matter_error_code = none });
}

abbrev pub table : Jobs
table = record {
  jobs = ("job-1", plug) ∷ [];
  by_code = ("12345678901", "job-1") ∷ [];
  removing = [];
}

claims : (claimable (number (pos 5)) 365000 table).0 ≡ some plug
unfolding claimable timeout_candidates candidates_of is_candidate has_code attributed keep last
    is_one_code is_removing is_node
claims = refl

claimable-IsAttributed_example :
    (is_removing table.removing (node_key (number (pos 5))) ≡ false)
    × (is_candidate (some 365000) plug ≡ true)
    × IsAttributed (number (pos 5)) (timeout_candidates (some 365000) table) plug
claimable-IsAttributed_example = claimable-IsAttributed (number (pos 5)) 365000 table plug claims

table-IsUnique : IsUnique table.jobs
unfolding Table.lookup
table-IsUnique = (refl, tt)

reconcile_node_added-IsReconciled_example :
    IsReconciled
      (refused "no running event loop")
      (number (pos 5))
      365000
      table
      (reconcile_node_added
        (refused "no running event loop")
        365000
        (some (number (pos 5)))
        table).0
      (reconcile_node_added
        (refused "no running event loop")
        365000
        (some (number (pos 5)))
        table).1
reconcile_node_added-IsReconciled_example =
    reconcile_node_added-IsReconciled (refused "no running event loop") 365000 (number (pos 5))
      table table-IsUnique (refl, tt)
