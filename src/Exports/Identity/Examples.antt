-- ===== src/Exports/Identity/Examples.antt =====
-- bridge_protocol.py: the identities of a republished device.
use indigo_matter.Prelude.{some, pos, ◌≡◌, arith}
use indigo_matter.Exports.Identity.{published_id_for, parse_published_id}
use indigo_matter.Exports.Identity.RoundTrip.{parse_published_id-published_id_for}

parse_published_id-published_id_for_example :
    parse_published_id (published_id_for (pos 1894385558) 3)
    ≡ some (record { device_id = pos 1894385558; generation = 3 })
parse_published_id-published_id_for_example =
    parse_published_id-published_id_for (pos 1894385558) 3 (omega arith) (omega arith) (omega arith)
