-- ===== src/Commission/Expiry/Examples.antt =====
-- commission_jobs.py: the window of a plug closes, whose node a late answer named.
use indigo_matter.Prelude.{false, some, [], ◌∷◌, pos}
use indigo_matter.Python.Table
use indigo_matter.Python.Table.{text_key}
use indigo_matter.Commission.{number, Job, Jobs}
use indigo_matter.Commission.Claim.{returned}
use indigo_matter.Commission.Claim.Examples.{plug}
use indigo_matter.Commission.Expiry.{Tracked}

abbrev named_plug : Job
named_plug = record plug { node_id = some (number (pos 5)) }

abbrev named_table : Jobs
named_table = record { jobs = ("job-1", named_plug) ∷ []; by_code = []; removing = [] }

abbrev marked_table : Jobs
marked_table = record named_table { removing = number (pos 5) ∷ [] }

abbrev tracks_none : Tracked
tracks_none = some (λ z. returned false)
