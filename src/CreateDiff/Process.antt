-- ===== src/CreateDiff/Process.antt =====
-- set_attributes, process_nodes, process_ways and process_relations. The buffer is the list of the
-- objects committed to it.
use osmdbt.Common.{
  ℕ, Bool, true, false, List, [], ◌∷◌, ◌++◌, Option, none, some, ltb, ◌==◌, if◌then◌else◌, Bytes,
  pos, Result, ok, ◌>>=◌, or_throw, invalid_timestamp, changeset_not_in_cache,
}
use osmdbt.Osm.{Osmium, ItemType, node, way, relation}
use osmdbt.OsmObj.{OsmObj, Cache, UserInfo, cache_at}
use osmdbt.CreateDiff.Key.{Key}
use osmdbt.CreateDiff.Rows.{
  Tag, WayNode, Member, ObjectRow, Object, row_key, add_tags, add_way_nodes, add_members,
}
use osmdbt.CreateDiff.Query.{Database, wanted, get_members}

first_is : ℕ → Bytes → Bool
first_is b [] = false
first_is b (c ∷ s) = c == b

-- A new builder of a type.
abbrev pub new_builder : ItemType → Object
new_builder t = record {
  type = t;
  id = pos 0;
  version = 0;
  changeset = 0;
  visible = true;
  uid = 0;
  timestamp = 0;
  user = [];
  location = none;
  tags = [];
  node_refs = [];
  members = [];
}

unfoldable pub set_user : Object → ObjectRow → ℕ → UserInfo → Object
unfolding first_is
set_user builder row timestamp user = record builder {
  id = row.id;
  version = row.version;
  changeset = row.changeset_id;
  visible = first_is b't' row.visible;
  uid = user.id;
  timestamp = timestamp;
  user = user.username;
}

unfoldable pub set_attributes : Object → Cache → ℕ → ObjectRow → Result Object
set_attributes builder cucache timestamp row = do
  user ← or_throw (cache_at row.changeset_id cucache) changeset_not_in_cache
  ok (set_user builder row timestamp user)

-- The loop that the three functions share, over what differs: the cursors `C`, the builder that they
-- start from, and the functions that add the parts of the object.
module _ {C : Type 0} (start : ObjectRow → Object) (add_parts : Key → C → Object → C × Object) where
  -- The end of a round: a redacted object is passed over.
  unfoldable pub commit_row : Cache → ObjectRow → C → ℕ → Option Bytes → Result (C × List Object)
  commit_row cucache row it timestamp (some redaction) = ok (it, [])
  commit_row cucache row it timestamp none = do
    builder ← set_attributes (start row) cucache timestamp row
    let (it', object) = add_parts (row_key row) it builder
    ok (it', object ∷ [])

  unfoldable pub rows_loop :
      Osmium → Cache → List ObjectRow → C → ℕ → List Object → Result (List Object × ℕ)
  unfolding commit_row
  rows_loop osm cucache [] it max_timestamp buffer = ok (buffer, max_timestamp)
  rows_loop osm cucache (row ∷ rows) it max_timestamp buffer = do
    timestamp ← or_throw (osm.timestamp_of row.timestamp) invalid_timestamp
    committed ← commit_row cucache row it timestamp row.redaction_id
    rows_loop osm cucache rows committed.0
        (if ltb max_timestamp timestamp then timestamp else max_timestamp) (buffer ++ committed.1)

unfoldable pub start_node : ObjectRow → Object
start_node row = record (new_builder node) { location = some (row.longitude, row.latitude) }

abbrev pub start_way : ObjectRow → Object
start_way row = new_builder way

abbrev pub start_relation : ObjectRow → Object
start_relation row = new_builder relation

unfoldable pub add_way_parts :
    Key → List Tag × List WayNode → Object → (List Tag × List WayNode) × Object
add_way_parts k (it, wn_it) builder =
    let (it', tagged) = add_tags k it builder in
    let (wn_it', object) = add_way_nodes k wn_it tagged in ((it', wn_it'), object)

unfoldable pub add_relation_parts :
    Key → List Tag × List Member → Object → (List Tag × List Member) × Object
add_relation_parts k (it, member_it) builder =
    let (it', tagged) = add_tags k it builder in
    let (member_it', object) = add_members k member_it tagged in ((it', member_it'), object)

module _ (osm : Osmium) (db : Database) (cucache : Cache) (objs : List OsmObj) where
  unfoldable pub process_nodes : ℕ → Result (List Object × ℕ)
  process_nodes max_timestamp =
      let query = wanted objs in
      rows_loop start_node add_tags osm cucache (db.node_rows query) (db.node_tags query)
        max_timestamp []

  unfoldable pub process_ways : ℕ → Result (List Object × ℕ)
  process_ways max_timestamp =
      let query = wanted objs in
      rows_loop start_way add_way_parts osm cucache (db.way_rows query)
        (db.way_tags query, db.way_nodes query) max_timestamp []

  unfoldable pub process_relations : ℕ → Result (List Object × ℕ)
  process_relations max_timestamp =
      let query = wanted objs in
      rows_loop start_relation add_relation_parts osm cucache (db.relation_rows query)
        (db.relation_tags query, get_members db query) max_timestamp []
