-- ===== src/Replace/Examples.antt =====
-- node_replace.py: a plug with a button is replaced by a plug.
use indigo_matter.Prelude.{true, false, [], ◌∷◌, ◌≡◌, refl, pos}
use indigo_matter.Python.Table
use indigo_matter.Python.Table.{int_key}
use indigo_matter.Replace.{
  DeviceRef, ReplacementPlan, same_key, is_before, insert_ref, sorted, pop_candidate, matched,
  plan_replacement, reasons_for, shape_matches, refusal_reasons,
}
use indigo_matter.Replace.Partition.{IsPartition, plan_replacement-IsPartition}
use indigo_matter.Replace.Safe.{IsSafe, refusal_reasons-IsSafe}

abbrev old_plug : DeviceRef
old_plug = record { dev_id = pos 1; endpoint_id = pos 1; type_id = "matterRelay"; name = "Plug" }

abbrev old_button : DeviceRef
old_button = record {
  dev_id = pos 2;
  endpoint_id = pos 2;
  type_id = "matterButton";
  name = "Button";
}

abbrev new_plug : DeviceRef
new_plug = record { dev_id = pos 3; endpoint_id = pos 1; type_id = "matterRelay"; name = "Plug 2" }

abbrev plan : ReplacementPlan
plan = record {
  old_node = pos 5;
  new_node = pos 6;
  pairs = (old_plug, new_plug) ∷ [];
  unmatched_old = old_button ∷ [];
  unmatched_new = [];
  extra_deletes = [];
}

plan_test :
    plan_replacement (pos 5) (old_button ∷ old_plug ∷ []) (pos 6) (new_plug ∷ []) false ≡ plan
unfolding plan_replacement matched sorted insert_ref is_before pop_candidate same_key
plan_test = refl

plan_replacement-IsPartition_example :
    IsPartition
      (old_button ∷ old_plug ∷ [])
      (new_plug ∷ [])
      (plan_replacement (pos 5) (old_button ∷ old_plug ∷ []) (pos 6) (new_plug ∷ []) false)
plan_replacement-IsPartition_example =
    plan_replacement-IsPartition (pos 5) (old_button ∷ old_plug ∷ []) (pos 6) (new_plug ∷ []) false

not_refused : refusal_reasons plan true (pos 9 ∷ []) [] [] ≡ []
unfolding refusal_reasons shape_matches reasons_for Table.lookup
not_refused = refl

refusal_reasons-IsSafe_example : IsSafe plan true (pos 9 ∷ []) [] []
refusal_reasons-IsSafe_example = refusal_reasons-IsSafe plan true (pos 9 ∷ []) [] [] not_refused
