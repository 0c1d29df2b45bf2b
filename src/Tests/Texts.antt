-- ===== src/Tests/Texts.antt =====
-- The theorems on log sequence numbers, state files, objects and the plugin at concrete inputs.
use mathlib.Core.List.{Perm}
use osmdbt.Common.{
  err, error_parsing_lsn, ◌+◌, ◌*◌, ◌≡◌, refl, false, if◌then◌else◌, [], ◌∷◌, ◌++◌, some, codes,
  bytes_eq, ok, pos, negsuc, arith,
}
use osmdbt.Number.{
  strtoull, read_number, starts_number, skip_prefix, read_sign, skip_space, c_str, to_string,
}
use osmdbt.Number.Digits.{print, digit_value, scan}
use osmdbt.Osm.{node, way}
use osmdbt.OsmObj.{OsmObj, OsmObjects, no_objects, is_nwr}
use osmdbt.OsmObj.Order.{InOrder, sort_objects, sort_objects_lem}
use osmdbt.OsmObj.Added.{add_all}
use osmdbt.OsmObj.ReadLog.{read_parts}
use osmdbt.OsmObj.ReadLog.Lines.{IsLoggable, new_version, read_parts-new_version}
use osmdbt.Lsn.{LsnType, lsn_of, read_upper, read_lower, str, two_32}
use osmdbt.Lsn.RoundTrip.{lsn_of-str, lsn_of_refuses}
use osmdbt.Plugin.{Change, Context, insert, transaction}
use osmdbt.Plugin.Laws.{messages_of, concerns_osm, transaction_lem}
use osmdbt.Tests.Sample.{sample, sample-IsDocumented}

abbrev small_lsn : LsnType
small_lsn = record { lsn = 27 * two_32 + 2748 }

lsn_of-str_example : lsn_of (str small_lsn) ≡ ok small_lsn
lsn_of-str_example = lsn_of-str small_lsn (omega arith)

lsn_text : lsn_of (codes "1B/ABC") ≡ ok small_lsn
unfolding lsn_of read_upper strtoull read_number starts_number skip_prefix read_sign skip_space
    c_str digit_value scan read_lower
lsn_text = refl

lsn_of_refuses_example : lsn_of (codes "1B ABC") ≡ err error_parsing_lsn
lsn_of_refuses_example = lsn_of_refuses (codes "1B ABC") (omega arith)

abbrev way_12 : OsmObj
way_12 = record { type = way; id = pos 12; version = 3; cid = 7 }

abbrev node_5 : OsmObj
node_5 = record { type = node; id = negsuc 4; version = 1; cid = 7 }

way_12-IsLoggable : IsLoggable way_12 12
unfolding is_nwr
way_12-IsLoggable = record {
  nwr = refl;
  id = refl;
  id_lt = omega arith;
  version_lt = omega arith;
  cid_lt = omega arith;
}

read_parts-new_version_example :
    read_parts sample
      (sample.split_string
        (codes "0/1A"
          ++ b' ' ∷ (codes "731" ++ b' ' ∷ new_version sample sample-IsDocumented way_12 12))
        b' ')
      (no_objects, some [])
    ≡ ok (add_all (way_12 ∷ []) (no_objects, some []))
read_parts-new_version_example =
    read_parts-new_version sample sample-IsDocumented (codes "0/1A") (codes "731") way_12 12
      (no_objects, some []) (omega arith) (omega arith) way_12-IsLoggable

abbrev two_nodes : OsmObjects
two_nodes = record {
  nodes = record node_5 { id = pos 9 } ∷ node_5 ∷ [];
  ways = way_12 ∷ [];
  relations = [];
}

sort_objects_lem_example :
    (Perm (sort_objects sample two_nodes).nodes two_nodes.nodes
      × InOrder sample (sort_objects sample two_nodes).nodes)
    × (Perm (sort_objects sample two_nodes).ways two_nodes.ways
        × InOrder sample (sort_objects sample two_nodes).ways)
    × (Perm (sort_objects sample two_nodes).relations two_nodes.relations
        × InOrder sample (sort_objects sample two_nodes).relations)
sort_objects_lem_example = sort_objects_lem sample two_nodes

abbrev new_node : Change
new_node = record {
  table = codes "nodes";
  action = insert;
  newtuple = some (
      (codes "node_id", some (pos 5))
      ∷ (codes "version", some (pos 1))
      ∷ (codes "changeset_id", some (pos 7))
      ∷ []);
}

abbrev no_context : Context
no_context = record { private_flag = false; out = [] }

transaction_lem_example : transaction (new_node ∷ []) no_context ≡ record {
  private_flag = false;
  out =
      []
      ++ (messages_of (new_node ∷ [])
          ++ (if concerns_osm (new_node ∷ []) then codes "C" ∷ [] else []));
}
transaction_lem_example = transaction_lem (new_node ∷ []) no_context refl

transaction_run : (transaction (new_node ∷ []) no_context).out ≡ codes "N n5 v1 c7" ∷ codes "C" ∷ []
unfolding transaction bytes_eq to_string print
transaction_run = refl
