-- ===== src/Commission/Worker/Examples.antt =====
-- commission_jobs.py: the run of a plug that joins, and whose devices cannot be created.
use indigo_matter.Prelude.{some, ◌≢◌, refl, pos}
use indigo_matter.Python.Table
use indigo_matter.Python.Table.{text_key}
use indigo_matter.Commission.{failed, number}
use indigo_matter.Commission.Worker.{returned, cancelled, raised}
use indigo_matter.Commission.Worker.Run.{Replies, worked}
use indigo_matter.Commission.Worker.Stopping.{IsThere, IsEnded}
use indigo_matter.Commission.Worker.Ended.{worked-IsEnded}
use indigo_matter.Commission.Claim.Examples.{plug, table}

abbrev broken_replies : Replies
broken_replies = record {
  commission = returned (some (number (pos 5)));
  read = returned tt;
  devices = raised "no such room";
  removal = returned tt;
}

not_cancelled : broken_replies.removal ≢ cancelled
not_cancelled h = cc

plug-IsThere : IsThere "job-1" table
unfolding Table.lookup
plug-IsThere = (plug, refl)

worked-IsEnded_example :
    IsEnded "job-1" failed
      (worked (λ n. 1000) "job-1" broken_replies table).0
      (worked (λ n. 1000) "job-1" broken_replies table).1
worked-IsEnded_example =
    worked-IsEnded (λ n. 1000) "job-1" broken_replies table not_cancelled plug-IsThere
