-- ===== src/Clock/Tests.antt =====
-- Texts of times, and the theorems of Clock at concrete times.
use dynamis_code_apps_templa.Prelude.{◌+◌, ◌*◌, ◌≡◌, refl, false, some, ascii, arith, leb}
use dynamis_code_apps_templa.Clock.{second, timestamp, stamp, stamp_leb, parse_stamp}
use dynamis_code_apps_templa.Clock.Digits.{digits, strip, tens}
use dynamis_code_apps_templa.Clock.Order.{stamp_leb-timestamp, stamp_leb_whole}
use dynamis_code_apps_templa.Clock.RoundTrip.{parse_stamp-texts}

-- Seven seconds and 250 milliseconds, in both layouts.
quarter_past_seven :
    ((stamp (7 * second + 250000000)).frac ≡ ascii ".25Z")
    × ((timestamp (7 * second + 250000000)).frac ≡ ascii ".250000000Z")
unfolding stamp timestamp digits strip tens
quarter_past_seven = (refl, refl)

stamp_leb-timestamp_example :
    stamp_leb (timestamp 1999999999) (timestamp 2000000000) ≡ leb 1999999999 2000000000
stamp_leb-timestamp_example = stamp_leb-timestamp 1999999999 2000000000

stamp_leb_whole_example : stamp_leb (stamp (2 * second)) (stamp (2 * second + 500000000)) ≡ false
stamp_leb_whole_example = stamp_leb_whole 2 500000000 (omega arith) (omega arith)

parse_stamp-texts_example :
    (parse_stamp (timestamp 2500000000) ≡ some 2500000000)
    × (parse_stamp (stamp 2500000000) ≡ some 2500000000)
parse_stamp-texts_example = parse_stamp-texts 2500000000
