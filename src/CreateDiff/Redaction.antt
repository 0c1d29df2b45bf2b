-- ===== src/CreateDiff/Redaction.antt =====
-- What a redacted object does to the objects behind it.
use osmdbt.Common.{ℕ, ◌≡◌, false, List, [], ◌∷◌, append-nil, arith, ok, All}
use osmdbt.Osm.{Osmium}
use osmdbt.OsmObj.{OsmObj, Cache}
use osmdbt.CreateDiff.Key.{Key, IsAscending, has_key, key_eqb}
use osmdbt.CreateDiff.Group.{take_group_other}
use osmdbt.CreateDiff.Rows.{Tag, Object, tag_owner, add_tags}
use osmdbt.CreateDiff.Query.{Database, wanted}
use osmdbt.CreateDiff.Process.{start_node, process_nodes}
use osmdbt.CreateDiff.Join.{kept, keys, IsReady, latest, objects_of, rows_loop-objects_of}

has_key_head : (k j : Key) (ks : List Key) → has_key j (k ∷ ks) ≡ false → key_eqb j k ≡ false
unfolding has_key
has_key_head k j ks h = ground arith

has_key_rest : (k j : Key) (ks : List Key) → has_key j (k ∷ ks) ≡ false → has_key j ks ≡ false
unfolding has_key
has_key_rest k j ks h = ground arith

-- The cursor stands before a tag whose object is none of those to come.
abbrev Stuck : Tag → List Tag → List Key → List Tag → Type 0
Stuck t ts ks it = (it ≡ t ∷ ts) × (has_key (tag_owner t) ks ≡ false)

add_tags-Stuck :
    (t : Tag) (ts : List Tag) (k : Key) (ks : List Key) (it : List Tag) (b : Object)
    → IsAscending (k ∷ ks)
    → Stuck t ts (k ∷ ks) it
    → ((add_tags k it b).1 ≡ b) × Stuck t ts ks (add_tags k it b).0
unfolding add_tags
add_tags-Stuck t ts k ks it b a (e, h) =
    let other = take_group_other tag_owner k t ts (has_key_head k (tag_owner t) ks h) in
    (rw (e, other, append-nil), (rw (e, other), has_key_rest k (tag_owner t) ks h))

-- If the first row of the tags belongs to an object version that is not written, such as a redacted one,
-- process_nodes writes every node without any tag: each object is what set_attributes made of its row.
-- The rows that are kept are strictly ascending, and every row has a readable time and a cached changeset.
pub process_nodes_redacted :
    (osm : Osmium) (db : Database) (cucache : Cache) (objs : List OsmObj) (max : ℕ) (t : Tag)
    (ts : List Tag)
    → All (IsReady osm cucache) (db.node_rows (wanted objs))
    → IsAscending (keys (kept (db.node_rows (wanted objs))))
    → db.node_tags (wanted objs) ≡ t ∷ ts
    → has_key (tag_owner t) (keys (kept (db.node_rows (wanted objs)))) ≡ false
    → process_nodes osm db cucache objs max
      ≡ ok (
        objects_of osm cucache start_node (λ k b. b) (kept (db.node_rows (wanted objs))),
        latest osm (db.node_rows (wanted objs)) max,
      )
unfolding process_nodes
process_nodes_redacted osm db cucache objs max t ts ready ascending first other =
    let rows = db.node_rows (wanted objs) in
    rows_loop-objects_of start_node add_tags (λ k b. b) (Stuck t ts) (add_tags-Stuck t ts) osm
      cucache rows (db.node_tags (wanted objs)) max [] ready ascending (first, other)
