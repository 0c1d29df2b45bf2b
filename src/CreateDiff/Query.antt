-- ===== src/CreateDiff/Query.antt =====
-- The queries of osmdbt-create-diff: the text that names the wanted object versions, the answers of
-- the database as a parameter, and the cache of changesets.
use osmdbt.Common.{ℕ, List, [], ◌∷◌, ◌++◌, map, ◌==◌, if◌then◌else◌, Bytes, codes, ℤ}
use osmdbt.Number.{to_string, to_string_ℤ}
use osmdbt.Osm.{ItemType, undefined, node, way, relation}
use osmdbt.OsmObj.{OsmObj, Cache, cache_set}
use osmdbt.CreateDiff.Rows.{Tag, WayNode, Member, ObjectRow}

-- `s.back() = c`
set_back : Bytes → ℕ → Bytes
set_back [] c = []
set_back (b ∷ []) c = c ∷ []
set_back (b ∷ d ∷ s) c = b ∷ set_back (d ∷ s) c

wanted_values : List OsmObj → Bytes → Bytes
wanted_values [] sql = sql
wanted_values (obj ∷ objs) sql = wanted_values objs (
    sql
    ++ (codes "(" ++ (to_string_ℤ obj.id ++ (codes "," ++ (to_string obj.version ++ codes "),")))))

unfoldable pub wanted : List OsmObj → Bytes
unfolding wanted_values set_back
wanted objs =
    set_back (wanted_values objs (codes "WITH wanted(id, version) AS (VALUES ")) b')' ++ codes " "

-- A row of the query on relation_members.
pub record MemberRow : Type 0 where
  pub relation_id : ℤ
  pub version : ℕ
  pub member_type : Bytes
  pub member_id : ℤ
  pub member_role : Bytes

-- The answers of the database to the queries that go on from the text of `wanted`, and to the query on
-- the changesets with the given ids: their id, user id and user name.
pub record Database : Type 0 where
  pub node_rows : Bytes → List ObjectRow
  pub way_rows : Bytes → List ObjectRow
  pub relation_rows : Bytes → List ObjectRow
  pub node_tags : Bytes → List Tag
  pub way_tags : Bytes → List Tag
  pub relation_tags : Bytes → List Tag
  pub way_nodes : Bytes → List WayNode
  pub member_rows : Bytes → List MemberRow
  pub changeset_rows : List ℕ → List (ℕ × ℕ × Bytes)

type_from_char : Bytes → ItemType
type_from_char [] = undefined
type_from_char (c ∷ s) =
    if c == b'N' then node else if c == b'W' then way else if c == b'R' then relation else undefined

unfoldable pub get_members : Database → Bytes → List Member
unfolding type_from_char
get_members db query =
    map
      (λ row. record {
        mrole = row.member_role;
        relation_id = row.relation_id;
        mref = row.member_id;
        version = row.version;
        mtype = type_from_char row.member_type;
      })
      (db.member_rows query)

fill_cache : List (ℕ × ℕ × Bytes) → Cache → Cache
unfolding cache_set
fill_cache [] cucache = cucache
fill_cache ((cid, uid, username) ∷ rows) cucache =
    fill_cache rows (cache_set cid (record { id = uid; username = username }) cucache)

unfoldable pub populate_changeset_cache : Database → Cache → Cache
unfolding fill_cache
populate_changeset_cache db cucache =
    fill_cache (db.changeset_rows (map (λ e. e.0) cucache)) cucache
