-- ===== src/Tests/Positions.antt =====
-- The theorems on osmdbt-catchup, the paths of states and the configured directories at concrete inputs.
use osmdbt.Common.{◌≡◌, ◌⊎◌, refl, bytes_eq, List, [], ◌∷◌, Bytes, codes, ok, arith, All}
use osmdbt.Number.{strtoull, read_number, starts_number, skip_prefix, read_sign, skip_space, c_str}
use osmdbt.Number.Digits.{digit_value, scan}
use osmdbt.Osm.{Osmium}
use osmdbt.Lsn.{LsnType, str, lsn_of, read_upper, read_lower, lsn_gtb}
use osmdbt.Files.{create_replication_log_name}
use osmdbt.GetLog.{lsn_dash}
use osmdbt.CreateDiff.App.{has_log_extension}
use osmdbt.Catchup.{match_fixed, span_hex, match_name, new_lsn, get_lsn}
use osmdbt.Catchup.Laws.{IsBelow, Names, get_lsn_lem}
use osmdbt.Catchup.Names.{new_lsn-create_replication_log_name}
use osmdbt.State.{State, path}
use osmdbt.State.Paths.{Shows, path_lem}
use osmdbt.Tests.Sample.{sample}

abbrev dated : Osmium
dated = record sample { to_iso_all = λ t. codes "2020-03-06T15:09:02Z" }

abbrev lsn_26 : LsnType
lsn_26 = record { lsn = 26 }

new_lsn-create_replication_log_name_example :
    new_lsn (create_replication_log_name dated (lsn_dash (str lsn_26)) 5) ≡ ok lsn_26
unfolding match_fixed
new_lsn-create_replication_log_name_example =
    new_lsn-create_replication_log_name dated 5 lsn_26 refl (omega arith)

abbrev files : List Bytes
files =
    codes "osm-repl-2020-03-06T15:09:02Z-lsn-0-1A.log"
    ∷ codes "osm-repl-2020-03-05T15:09:02Z-lsn-0-9.log"
    ∷ codes "osm-repl-2020-03-04T15:09:02Z-lsn-0-8.log.done"
    ∷ []

lsn_of_both : get_lsn files ≡ ok lsn_26
unfolding get_lsn has_log_extension bytes_eq match_name match_fixed span_hex lsn_of read_upper
    strtoull read_number starts_number skip_prefix read_sign skip_space c_str digit_value scan
    read_lower lsn_gtb
lsn_of_both = refl

get_lsn_lem_example :
    All (IsBelow lsn_26) files × ((lsn_26 ≡ record { lsn = 0 }) ⊎ Names files lsn_26)
get_lsn_lem_example = get_lsn_lem files lsn_26 lsn_of_both

abbrev state_1234 : State
state_1234 = record { sequence_number = 1234; timestamp = 77 }

path_lem_example : Shows (path state_1234) 1234
path_lem_example = path_lem state_1234 (omega arith)
