-- ===== src/Plugin/Messages.antt =====
-- The plugin's message on a new version, as the reader of the log files expects it.
use osmdbt.Common.{
  ℕ, ◌^◌, ◌<◌, ◌≡◌, refl, true, ap, [], ◌∷◌, ◌++◌, some, Bytes, codes, pos, arith, ◌∙◌, bytes_eq,
}
use osmdbt.Number.{to_string}
use osmdbt.Osm.{Osmium, IsDocumented, ItemType, node, way, relation, undefined, other}
use osmdbt.OsmObj.{OsmObj, is_nwr}
use osmdbt.OsmObj.ReadLog.Lines.{IsLoggable, new_version}
use osmdbt.Plugin.Laws.{messages_in}
use osmdbt.Plugin.{
  insert, Tuple, Change, Context, to_u64, bigint, get_attribute_by_name, table_type, object_text,
  action_messages, object_messages, tuple_messages, change_table, change_cb,
}

bigint_lem : (n : ℕ) → n < 2 ^ 64 → bigint (pos n) ≡ to_string n
unfolding bigint to_u64
bigint_lem n h = ap to_string (omega arith)

-- The table of a type in the OSM database, and its column of ids.
abbrev pub table_of : ItemType → Bytes
table_of node = codes "nodes"
table_of way = codes "ways"
table_of relation = codes "relations"
table_of undefined = []
table_of (other n) = []

abbrev pub id_column : ItemType → Bytes
id_column node = codes "node_id"
id_column way = codes "way_id"
id_column relation = codes "relation_id"
id_column undefined = []
id_column (other n) = []

module _ (osm : Osmium) (documented : IsDocumented osm) where
  table_type-table_of :
      (t : ItemType)
      → is_nwr t ≡ true
      → table_type (table_of t) ≡ some (osm.item_type_to_char t, id_column t)
  unfolding table_type bytes_eq is_nwr
  table_type-table_of node h = rw documented.char_node refl
  table_type-table_of way h = rw documented.char_way refl
  table_type-table_of relation h = rw documented.char_relation refl
  table_type-table_of undefined h = cc
  table_type-table_of (other n) h = cc

  insert-new_version :
      (tuple : Tuple) (obj : OsmObj) (n : ℕ)
      → IsLoggable obj n
      → object_messages insert tuple
          (osm.item_type_to_char obj.type)
          (some obj.id)
          (some (pos obj.version))
          (some (pos obj.cid))
        ≡ new_version osm documented obj n ∷ []
  unfolding object_messages action_messages object_text
  insert-new_version tuple obj n l =
      rw
        (
          l.id,
          bigint_lem n (omega (arith, l.id_lt)),
          bigint_lem obj.version (omega (arith, l.version_lt)),
          bigint_lem obj.cid (omega (arith, l.cid_lt)),
        )
        (unfold to_string in refl)

  -- The change inserts this object version: into the table of its type, nodes, ways or relations, a tuple
  -- with its id in the column node_id, way_id or relation_id, its version, and its changeset. The id is
  -- n < 2^63, version and changeset are below 2^32.
  pub record Inserts (change : Change) (obj : OsmObj) (n : ℕ) : Type 0 where
    pub tuple : Tuple
    pub action : change.action ≡ insert
    pub newtuple : change.newtuple ≡ some tuple
    pub table : change.table ≡ table_of obj.type
    pub id : get_attribute_by_name tuple (id_column obj.type) ≡ some obj.id
    pub version : get_attribute_by_name tuple (codes "version") ≡ some (pos obj.version)
    pub cid : get_attribute_by_name tuple (codes "changeset_id") ≡ some (pos obj.cid)
    pub loggable : IsLoggable obj n

  pub Inserts-table_type :
      (change : Change) (obj : OsmObj) (n : ℕ)
      → Inserts change obj n
      → table_type change.table ≡ some (osm.item_type_to_char obj.type, id_column obj.type)
  Inserts-table_type change obj n i =
      ap table_type i.table ∙ table_type-table_of obj.type i.loggable.nwr

  pub messages_in-new_version :
      (change : Change) (obj : OsmObj) (n : ℕ)
      → Inserts change obj n
      → messages_in change (table_type change.table) ≡ new_version osm documented obj n ∷ []
  unfolding tuple_messages
  messages_in-new_version change obj n i =
      rw
        (
          Inserts-table_type change obj n i,
          i.action,
          i.newtuple,
          i.id,
          i.version,
          i.cid,
          insert-new_version i.tuple obj n i.loggable,
        )
        refl

  -- On an insert into the table nodes, ways or relations of a tuple that has the id of a node, way or relation
  -- in the column node_id, way_id or relation_id, its version and its changeset, the plugin sets the flag and
  -- writes one message, the one that read_log reads as this object: the action N and the words of the object,
  -- with the letter of its type. The id is n < 2^63, version and changeset are below 2^32.
  pub change_cb-new_version :
      (change : Change) (ctx : Context) (obj : OsmObj) (n : ℕ)
      → Inserts change obj n
      → change_cb change ctx
        ≡ record { private_flag = true; out = ctx.out ++ new_version osm documented obj n ∷ [] }
  unfolding change_cb change_table tuple_messages
  change_cb-new_version change ctx obj n i =
      rw
        (
          Inserts-table_type change obj n i,
          i.action,
          i.newtuple,
          i.id,
          i.version,
          i.cid,
          insert-new_version i.tuple obj n i.loggable,
        )
        refl
