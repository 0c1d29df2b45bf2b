-- ===== src/OsmObj.antt =====
-- src/osmobj.hpp and src/osmobj.cpp: the object versions named in a log file.
pub mod ReadLog
pub mod Added
pub mod Order
use osmdbt.Common.{
  ℕ, ◌+◌, ◌≡◌, Bool, true, false, not, ◌&&◌, ◌||◌, List, [], ◌∷◌, ◌++◌, arith, ltb, ◌==◌, ℤ, ltb_ℤ,
  eqb_ℤ, if◌then◌else◌, length, drop, Bytes, pos, negsuc, ◌%◌, ◌^◌, ◌-◌, Option, none, some, Result,
  ok, err, ◌>>=◌, entry_too_short, type_must_be_nwr, expected_version, expected_changeset,
}
use osmdbt.Number.{strtoll, c_str}
use osmdbt.Osm.{ItemType, node, way, relation, undefined, other, Osmium}

pub record UserInfo : Type 0 where
  pub id : ℕ
  pub username : Bytes

-- changeset_user_lookup
abbrev pub Cache : Type 0
Cache = List (ℕ × UserInfo)

unfoldable pub cache_at : ℕ → Cache → Option UserInfo
cache_at k [] = none
cache_at k ((j, u) ∷ m) = if j == k then some u else cache_at k m

-- `cucache[k] = u`
unfoldable pub cache_set : ℕ → UserInfo → Cache → Cache
cache_set k u [] = (k, u) ∷ []
cache_set k u ((j, v) ∷ m) = if j == k then (k, u) ∷ m else (j, v) ∷ cache_set k u m

pub record OsmObj : Type 0 where
  pub type : ItemType
  pub id : ℤ
  pub version : ℕ
  pub cid : ℕ

module _ (osm : Osmium) where
  -- `operator<` compares the tuples (nwr index, id, version) from the left.
  pub obj_ltb : OsmObj → OsmObj → Bool
  obj_ltb lhs rhs =
      let a = osm.item_type_to_nwr_index lhs.type in
      let b = osm.item_type_to_nwr_index rhs.type in
      ltb a b
      || (a == b && (ltb_ℤ lhs.id rhs.id || (eqb_ℤ lhs.id rhs.id && ltb lhs.version rhs.version)))

  pub obj_gtb : OsmObj → OsmObj → Bool
  obj_gtb lhs rhs =
      let a = osm.item_type_to_nwr_index lhs.type in
      let b = osm.item_type_to_nwr_index rhs.type in
      ltb b a
      || (a == b && (ltb_ℤ rhs.id lhs.id || (eqb_ℤ lhs.id rhs.id && ltb rhs.version lhs.version)))

  pub obj_leb : OsmObj → OsmObj → Bool
  unfolding obj_gtb
  obj_leb lhs rhs = not (obj_gtb lhs rhs)

  pub obj_geb : OsmObj → OsmObj → Bool
  unfolding obj_ltb
  obj_geb lhs rhs = not (obj_ltb lhs rhs)

-- osmobjects: one list for each of the three types.
pub record OsmObjects : Type 0 where
  pub nodes : List OsmObj
  pub ways : List OsmObj
  pub relations : List OsmObj

abbrev pub no_objects : OsmObjects
no_objects = record { nodes = []; ways = []; relations = [] }

unfoldable pub size : OsmObjects → ℕ
size o = length o.nodes + length o.ways + length o.relations

is_empty : List OsmObj → Bool
is_empty [] = true
is_empty (x ∷ xs) = false

pub empty : OsmObjects → Bool
unfolding is_empty
empty o = is_empty o.nodes && is_empty o.ways && is_empty o.relations

-- The casts of a long long to the 32-bit types of versions and changeset ids.
to_u32 : ℤ → ℕ
to_u32 (pos n) = n % 2 ^ 32
to_u32 (negsuc n) = 2 ^ 32 - 1 - n % 2 ^ 32

-- The first byte; the texts that it is asked of are not empty.
unfoldable pub first : Bytes → ℕ
first [] = 0
first (c ∷ s) = c

unfoldable pub is_nwr : ItemType → Bool
is_nwr node = true
is_nwr way = true
is_nwr relation = true
is_nwr undefined = false
is_nwr (other n) = false

-- The constructor, without its last statement.
pub osmobj_of : Osmium → Bytes → Bytes → Bytes → Result OsmObj
unfolding first is_nwr to_u32
osmobj_of osm obj version changeset =
    let type = osm.char_to_item_type (first obj) in
    if ltb (length obj) 2 || ltb (length version) 2 || ltb (length changeset) 2
    then err entry_too_short
    else if not (is_nwr type)
    then err type_must_be_nwr
    else if not (first version == b'v')
    then err expected_version
    else if not (first changeset == b'c')
    then err expected_changeset
    else ok (record {
      type = type;
      id = strtoll 10 (c_str (drop 1 obj));
      version = to_u32 (strtoll 10 (c_str (drop 1 version)));
      cid = to_u32 (strtoll 10 (c_str (drop 1 changeset)));
    })

-- `(*cucache)[m_cid] = {}`, where there is a cache.
pub register : OsmObj → Option Cache → Option Cache
unfolding cache_set
register obj none = none
register obj (some cucache) = some (cache_set obj.cid (record { id = 0; username = [] }) cucache)

-- `m_objects(obj.type()).push_back(obj)`; the constructor leaves no other type.
pub push_to : ItemType → OsmObj → OsmObjects → OsmObjects
push_to node obj o = record o { nodes = o.nodes ++ obj ∷ [] }
push_to way obj o = record o { ways = o.ways ++ obj ∷ [] }
push_to relation obj o = record o { relations = o.relations ++ obj ∷ [] }
push_to undefined obj o = o
push_to (other n) obj o = o

abbrev pub Reading : Type 0
Reading = OsmObjects × Option Cache

pub add_obj : OsmObj → Reading → Reading
unfolding register push_to
add_obj obj (objects, cucache) = (push_to obj.type obj objects, register obj cucache)

-- osmobjects::add
pub add : Osmium → Bytes → Bytes → Bytes → Reading → Result Reading
unfolding add_obj
add osm type_id version changeset r = do
  obj ← osmobj_of osm type_id version changeset
  ok (add_obj obj r)
