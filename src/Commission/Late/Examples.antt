-- ===== src/Commission/Late/Examples.antt =====
-- commission_jobs.py: a late answer about a plug.
use indigo_matter.Prelude.{some, pos}
use indigo_matter.Commission.Late.{late_error, note_late}
use indigo_matter.Commission.Late.Settled.{IsNoted, note_late-IsNoted}
use indigo_matter.Commission.Claim.Examples.{plug}

note_late-IsNoted_example :
    IsNoted
      (late_error (some (pos 3)) "PASE failed")
      plug
      (note_late (late_error (some (pos 3)) "PASE failed") plug)
note_late-IsNoted_example = note_late-IsNoted (late_error (some (pos 3)) "PASE failed") plug
