-- ===== src/Tests/Diffs.antt =====
-- The theorems on osmdbt-create-diff at concrete inputs.
use osmdbt.Common.{ℕ, ◌≡◌, refl, List, [], ◌∷◌, none, some, Bytes, codes, ok, pos, All, arith}
use osmdbt.Osm.{node}
use osmdbt.OsmObj.{OsmObj, Cache, cache_at}
use osmdbt.CreateDiff.Key.{IsAscending, has_key, key_eqb, key_ltb}
use osmdbt.CreateDiff.Rows.{Tag, WayNode, ObjectRow, tag_owner, way_node_owner, member_owner}
use osmdbt.CreateDiff.Query.{Database, MemberRow, wanted, get_members}
use osmdbt.CreateDiff.Process.{
  start_node, start_way, start_relation, process_nodes, process_ways, process_relations,
}
use osmdbt.CreateDiff.Join.{kept, keys, IsReady, latest, objects_of}
use osmdbt.CreateDiff.Complete.{
  IsPartsOf, with_tags, with_node_refs, with_members, process_nodes-objects_of,
  process_ways-objects_of, process_relations-objects_of,
}
use osmdbt.CreateDiff.Redaction.{process_nodes_redacted}
use osmdbt.Tests.Sample.{sample, sample-IsDocumented}

abbrev row_of : ℕ → ObjectRow
row_of n = record {
  id = pos n;
  version = 2;
  changeset_id = 7;
  visible = codes "t";
  timestamp = sample.to_iso_all 9;
  redaction_id = none;
  longitude = pos 10;
  latitude = pos 20;
}

abbrev rows : List ObjectRow
rows = row_of 5 ∷ row_of 6 ∷ []

abbrev tag_of : ℕ → Bytes → Tag
tag_of n key = record { key = key; value = codes "yes"; id = pos n; version = 2 }

abbrev tags : List Tag
tags = tag_of 5 (codes "a") ∷ tag_of 5 (codes "b") ∷ tag_of 6 (codes "a") ∷ []

abbrev refs : List WayNode
refs = record { way_id = pos 5; node_ref = pos 1; version = 2 } ∷ []

abbrev member_rows : List MemberRow
member_rows =
    record {
      relation_id = pos 6;
      version = 2;
      member_type = codes "N";
      member_id = pos 1;
      member_role = codes "stop";
    }
    ∷ []

abbrev db : Database
db = record {
  node_rows = λ q. rows;
  way_rows = λ q. rows;
  relation_rows = λ q. rows;
  node_tags = λ q. tags;
  way_tags = λ q. tags;
  relation_tags = λ q. tags;
  way_nodes = λ q. refs;
  member_rows = λ q. member_rows;
  changeset_rows = λ ids. [];
}

abbrev cucache : Cache
cucache = (7, record { id = 3; username = codes "joe" }) ∷ []

abbrev objs : List OsmObj
objs = record { type = node; id = pos 5; version = 2; cid = 7 } ∷ []

readable : sample.timestamp_of (sample.to_iso_all 9) ≡ some 9
readable = sample-IsDocumented.timestamp_of_iso 9 (omega arith)

rows-IsReady : All (IsReady sample cucache) rows
unfolding cache_at
rows-IsReady = ((9, _, readable, refl), ((9, _, readable, refl), tt))

rows-IsAscending : IsAscending (keys (kept rows))
unfolding key_ltb
rows-IsAscending = ((refl, tt), (tt, tt))

tags-IsPartsOf : IsPartsOf tag_owner rows tags
unfolding key_ltb key_eqb has_key
tags-IsPartsOf = (((refl, (refl, tt)), ((refl, tt), (tt, tt))), (refl, (refl, (refl, tt))))

refs-IsPartsOf : IsPartsOf way_node_owner rows refs
unfolding key_ltb key_eqb has_key
refs-IsPartsOf = ((tt, tt), (refl, tt))

members-IsPartsOf : IsPartsOf member_owner rows (get_members db (wanted objs))
unfolding key_ltb key_eqb has_key get_members
members-IsPartsOf = ((tt, tt), (refl, tt))

process_nodes-objects_of_example :
    process_nodes sample db cucache objs 4
    ≡ ok (objects_of sample cucache start_node (with_tags tags) rows, latest sample rows 4)
process_nodes-objects_of_example =
    process_nodes-objects_of sample db cucache objs 4 rows-IsReady rows-IsAscending tags-IsPartsOf

process_ways-objects_of_example :
    process_ways sample db cucache objs 4
    ≡ ok (
      objects_of sample cucache start_way (λ k b. with_node_refs refs k (with_tags tags k b)) rows,
      latest sample rows 4,
    )
process_ways-objects_of_example =
    process_ways-objects_of sample db cucache objs 4 rows-IsReady rows-IsAscending tags-IsPartsOf
      refs-IsPartsOf

process_relations-objects_of_example :
    process_relations sample db cucache objs 4
    ≡ ok (
      objects_of sample cucache start_relation
          (λ k b. with_members (get_members db (wanted objs)) k (with_tags tags k b))
          rows,
      latest sample rows 4,
    )
process_relations-objects_of_example =
    process_relations-objects_of sample db cucache objs 4 rows-IsReady rows-IsAscending
      tags-IsPartsOf members-IsPartsOf

-- The node 5 is redacted, and node 6 follows it.
abbrev redacted_rows : List ObjectRow
redacted_rows = record (row_of 5) { redaction_id = some (codes "1") } ∷ row_of 6 ∷ []

abbrev redacted_db : Database
redacted_db = record db { node_rows = λ q. redacted_rows }

redacted-IsReady : All (IsReady sample cucache) redacted_rows
unfolding cache_at
redacted-IsReady = ((9, _, readable, refl), ((9, _, readable, refl), tt))

process_nodes_redacted_example :
    process_nodes sample redacted_db cucache objs 4
    ≡ ok (
      objects_of sample cucache start_node (λ k b. b) (row_of 6 ∷ []),
      latest sample redacted_rows 4,
    )
unfolding has_key key_eqb
process_nodes_redacted_example =
    process_nodes_redacted sample redacted_db cucache objs 4 (tag_of 5 (codes "a"))
      (tag_of 5 (codes "b") ∷ tag_of 6 (codes "a") ∷ []) redacted-IsReady (tt, tt) refl refl
