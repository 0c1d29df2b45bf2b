-- ===== src/CreateDiff/Rows.antt =====
-- What the database returns to osmdbt-create-diff, the object that libosmium's builders make from it,
-- and the functions that add the parts of an object.
use osmdbt.Common.{ℕ, Bool, List, ◌++◌, map, Option, Bytes, ℤ}
use osmdbt.Osm.{ItemType}
use osmdbt.CreateDiff.Key.{Key}
use osmdbt.CreateDiff.Group.{take_group}

pub record Tag : Type 0 where
  pub key : Bytes
  pub value : Bytes
  pub id : ℤ
  pub version : ℕ

pub record WayNode : Type 0 where
  pub way_id : ℤ
  pub node_ref : ℤ
  pub version : ℕ

pub record Member : Type 0 where
  pub mrole : Bytes
  pub relation_id : ℤ
  pub mref : ℤ
  pub version : ℕ
  pub mtype : ItemType

-- A row of the query on nodes, ways or relations, its columns by their names; `longitude` and
-- `latitude` are there for nodes only.
pub record ObjectRow : Type 0 where
  pub id : ℤ
  pub version : ℕ
  pub changeset_id : ℕ
  pub visible : Bytes
  pub timestamp : Bytes
  pub redaction_id : Option Bytes
  pub longitude : ℤ
  pub latitude : ℤ

-- The object that a builder has made so far.
pub record Object : Type 0 where
  pub type : ItemType
  pub id : ℤ
  pub version : ℕ
  pub changeset : ℕ
  pub visible : Bool
  pub uid : ℕ
  pub timestamp : ℕ
  pub user : Bytes
  pub location : Option (ℤ × ℤ)
  pub tags : List (Bytes × Bytes)
  pub node_refs : List ℤ
  pub members : List (ItemType × ℤ × Bytes)

abbrev pub row_key : ObjectRow → Key
row_key r = record { id = r.id; version = r.version }

abbrev pub tag_owner : Tag → Key
tag_owner t = record { id = t.id; version = t.version }

abbrev pub way_node_owner : WayNode → Key
way_node_owner n = record { id = n.way_id; version = n.version }

abbrev pub member_owner : Member → Key
member_owner m = record { id = m.relation_id; version = m.version }

abbrev pub tag_entry : Tag → Bytes × Bytes
tag_entry t = (t.key, t.value)

abbrev pub member_entry : Member → ItemType × ℤ × Bytes
member_entry m = (m.mtype, m.mref, m.mrole)

-- Each returns the cursor behind the rows that it used, and the object with those rows added.
unfoldable pub add_tags : Key → List Tag → Object → List Tag × Object
add_tags k it builder =
    let (taken, rest) = take_group tag_owner k it in
    (rest, record builder { tags = builder.tags ++ map tag_entry taken })

unfoldable pub add_way_nodes : Key → List WayNode → Object → List WayNode × Object
add_way_nodes k it builder =
    let (taken, rest) = take_group way_node_owner k it in
    (rest, record builder { node_refs = builder.node_refs ++ map (λ n. n.node_ref) taken })

unfoldable pub add_members : Key → List Member → Object → List Member × Object
add_members k it builder =
    let (taken, rest) = take_group member_owner k it in
    (rest, record builder { members = builder.members ++ map member_entry taken })
