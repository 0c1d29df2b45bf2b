-- ===== src/Plugin.antt =====
-- postgresql-plugin/osm-logical.c: the output plugin that turns the changes of a transaction into
-- messages. A message is what stands between OutputPluginPrepareWrite and OutputPluginWrite.
pub mod Laws
pub mod Messages
use osmdbt.Common.{
  ℕ, ◌+◌, ◌-◌, ◌%◌, ◌^◌, ◌≡◌, refl, Bool, true, false, ◌||◌, List, [], ◌∷◌, ◌++◌, Option, none,
  some, if◌then◌else◌, Bytes, codes, bytes_eq, ℤ, pos, negsuc,
}
use osmdbt.Number.{to_string}

pub data Action : Type 0 where
  insert update delete : Action

-- The attributes of a tuple by name; `none` is NULL.
abbrev pub Tuple : Type 0
Tuple = List (Bytes × Option ℤ)

pub record Change : Type 0 where
  pub table : Bytes
  pub action : Action
  pub newtuple : Option Tuple

-- The decoding context: `output_plugin_private` as a flag, and the messages written so far.
pub record Context : Type 0 where
  pub private_flag : Bool
  pub out : List Bytes

-- DatumGetInt64 printed with PRIu64.
pub to_u64 : ℤ → ℕ
to_u64 (pos n) = n % 2 ^ 64
to_u64 (negsuc n) = 2 ^ 64 - 1 - n % 2 ^ 64

pub bigint : ℤ → Bytes
unfolding to_u64
bigint v = to_string (to_u64 v)

unfoldable pub get_attribute_by_name : Tuple → Bytes → Option ℤ
get_attribute_by_name [] name = none
get_attribute_by_name ((attname, v) ∷ desc) name =
    if bytes_eq attname name then v else get_attribute_by_name desc name

-- The letter of the table and the name of its id column, for the three tables of OSM objects.
unfoldable pub table_type : Bytes → Option (ℕ × Bytes)
table_type table_name =
    if bytes_eq table_name (codes "nodes")
    then some (b'n', codes "node_id")
    else if bytes_eq table_name (codes "ways")
    then some (b'w', codes "way_id")
    else if bytes_eq table_name (codes "relations")
    then some (b'r', codes "relation_id")
    else none

-- The letter, id, version and changeset, as all messages on an object spell them.
pub object_text : ℕ → ℤ → ℤ → ℤ → Bytes
unfolding bigint
object_text letter id version cid =
    letter ∷ (bigint id ++ (codes " v" ++ (bigint version ++ (codes " c" ++ bigint cid))))

-- The message on an update, by the attribute redaction_id.
update_message : Bytes → Option ℤ → Bytes
unfolding bigint
update_message object none = codes "UPDATE with redaction_id set to NULL for " ++ object
update_message object (some redaction) = codes "R " ++ (object ++ (codes " " ++ bigint redaction))

-- The messages on a tuple whose id, version and changeset are there.
pub action_messages : Action → Tuple → Bytes → List Bytes
unfolding update_message get_attribute_by_name
action_messages insert tuple object = (codes "N " ++ object) ∷ []
action_messages update tuple object =
    update_message object (get_attribute_by_name tuple (codes "redaction_id")) ∷ []
action_messages delete tuple object = []

pub object_messages : Action → Tuple → ℕ → Option ℤ → Option ℤ → Option ℤ → List Bytes
unfolding action_messages object_text
object_messages action tuple letter (some id) (some version) (some cid) =
    action_messages action tuple (object_text letter id version cid)
object_messages action tuple letter _ _ _ = codes "X NULL id or version" ∷ []

pub tuple_messages : Action → ℕ × Bytes → Option Tuple → List Bytes
unfolding object_messages get_attribute_by_name
tuple_messages action (letter, id_name) none = codes "X newtuple is NULL" ∷ []
tuple_messages action (letter, id_name) (some tuple) =
    object_messages action tuple letter (get_attribute_by_name tuple id_name)
      (get_attribute_by_name tuple (codes "version"))
      (get_attribute_by_name tuple (codes "changeset_id"))

pub change_table : Change → Option (ℕ × Bytes) → Context → Context
unfolding tuple_messages
change_table change none ctx = ctx
change_table change (some t) ctx = record {
  private_flag = true;
  out = ctx.out ++ tuple_messages change.action t change.newtuple;
}

-- pg_osmlogical_change
pub change_cb : Change → Context → Context
unfolding change_table table_type
change_cb change ctx = change_table change (table_type change.table) ctx

-- pg_osmlogical_commit
pub commit_cb : Context → Context
commit_cb ctx =
    if ctx.private_flag
    then record { private_flag = false; out = ctx.out ++ codes "C" ∷ [] }
    else ctx

pub change_all : List Change → Context → Context
unfolding change_cb
change_all [] ctx = ctx
change_all (c ∷ cs) ctx = change_all cs (change_cb c ctx)

-- The calls that PostgreSQL makes for a transaction.
unfoldable pub transaction : List Change → Context → Context
unfolding change_all commit_cb
transaction changes ctx = commit_cb (change_all changes ctx)
