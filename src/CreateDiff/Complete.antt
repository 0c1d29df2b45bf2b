-- ===== src/CreateDiff/Complete.antt =====
-- process_nodes, process_ways and process_relations on answers ordered as the queries ask.
use osmdbt.Common.{ℕ, ◌≡◌, true, List, [], ◌∷◌, ◌++◌, map, ok, All}
use osmdbt.Osm.{Osmium}
use osmdbt.OsmObj.{OsmObj, Cache}
use osmdbt.CreateDiff.Key.{Key, IsAscending, IsOrdered, has_key}
use osmdbt.CreateDiff.Group.{owned}
use osmdbt.CreateDiff.Cursor.{Fits, take_group-Fits, Fits-start}
use osmdbt.CreateDiff.Rows.{
  Tag, WayNode, Member, ObjectRow, Object, tag_owner, way_node_owner, member_owner, tag_entry,
  member_entry, add_tags, add_way_nodes, add_members,
}
use osmdbt.CreateDiff.Query.{Database, wanted, get_members}
use osmdbt.CreateDiff.Process.{
  start_node, start_way, start_relation, add_way_parts, add_relation_parts, process_nodes,
  process_ways, process_relations,
}
use osmdbt.CreateDiff.Join.{kept, keys, IsReady, latest, objects_of, rows_loop-objects_of}

-- The builder with all tags of a key, all node refs of a key, all members of a key.
abbrev pub with_tags : List Tag → Key → Object → Object
with_tags tags k b = record b { tags = b.tags ++ map tag_entry (owned tag_owner k tags) }

abbrev pub with_node_refs : List WayNode → Key → Object → Object
with_node_refs way_nodes k b = record b {
  node_refs = b.node_refs ++ map (λ n. n.node_ref) (owned way_node_owner k way_nodes);
}

abbrev pub with_members : List Member → Key → Object → Object
with_members members k b = record b {
  members = b.members ++ map member_entry (owned member_owner k members);
}

-- The rows of a query for parts: in the order of their keys, and only of the objects to be written.
abbrev pub IsPartsOf : {A : Type 0} → (A → Key) → List ObjectRow → List A → Type 0
IsPartsOf owner rows parts =
    IsOrdered owner parts × All (λ a. has_key (owner a) (keys (kept rows)) ≡ true) parts

add_tags-with_tags :
    (tags : List Tag) (k : Key) (ks : List Key) (it : List Tag) (b : Object)
    → IsAscending (k ∷ ks)
    → Fits tag_owner tags (k ∷ ks) it
    → ((add_tags k it b).1 ≡ with_tags tags k b) × Fits tag_owner tags ks (add_tags k it b).0
unfolding add_tags
add_tags-with_tags tags k ks it b a f =
    let (taken, fits) = take_group-Fits tag_owner tags k ks it a f in (rw taken, fits)

add_way_parts-with :
    (tags : List Tag) (way_nodes : List WayNode) (k : Key) (ks : List Key)
    (it : List Tag × List WayNode) (b : Object)
    → IsAscending (k ∷ ks)
    → Fits tag_owner tags (k ∷ ks) it.0 × Fits way_node_owner way_nodes (k ∷ ks) it.1
    → ((add_way_parts k it b).1 ≡ with_node_refs way_nodes k (with_tags tags k b))
      × (Fits tag_owner tags ks (add_way_parts k it b).0.0
          × Fits way_node_owner way_nodes ks (add_way_parts k it b).0.1)
unfolding add_way_parts add_tags add_way_nodes
add_way_parts-with tags way_nodes k ks (it, wn_it) b a (f, g) =
    let (tags_taken, tags_fit) = take_group-Fits tag_owner tags k ks it a f in
    let (refs_taken, refs_fit) = take_group-Fits way_node_owner way_nodes k ks wn_it a g in
    (rw (tags_taken, refs_taken), (tags_fit, refs_fit))

add_relation_parts-with :
    (tags : List Tag) (members : List Member) (k : Key) (ks : List Key)
    (it : List Tag × List Member) (b : Object)
    → IsAscending (k ∷ ks)
    → Fits tag_owner tags (k ∷ ks) it.0 × Fits member_owner members (k ∷ ks) it.1
    → ((add_relation_parts k it b).1 ≡ with_members members k (with_tags tags k b))
      × (Fits tag_owner tags ks (add_relation_parts k it b).0.0
          × Fits member_owner members ks (add_relation_parts k it b).0.1)
unfolding add_relation_parts add_tags add_members
add_relation_parts-with tags members k ks (it, member_it) b a (f, g) =
    let (tags_taken, tags_fit) = take_group-Fits tag_owner tags k ks it a f in
    let (members_taken, members_fit) = take_group-Fits member_owner members k ks member_it a g in
    (rw (tags_taken, members_taken), (tags_fit, members_fit))

module _ (osm : Osmium) (db : Database) (cucache : Cache) (objs : List OsmObj) (max : ℕ) where
  -- process_nodes returns one object for each row that is not redacted, in their order, with the
  -- attributes of the row and exactly the tags of its id and version, and the largest time of all rows.
  -- The rows that are kept are strictly ascending, every row has a readable time and a cached
  -- changeset, and the tags are ordered and belong to rows that are kept.
  pub process_nodes-objects_of :
      All (IsReady osm cucache) (db.node_rows (wanted objs))
      → IsAscending (keys (kept (db.node_rows (wanted objs))))
      → IsPartsOf tag_owner (db.node_rows (wanted objs)) (db.node_tags (wanted objs))
      → process_nodes osm db cucache objs max
        ≡ ok (
          objects_of osm cucache start_node
              (with_tags (db.node_tags (wanted objs)))
              (kept (db.node_rows (wanted objs))),
          latest osm (db.node_rows (wanted objs)) max,
        )
  unfolding process_nodes
  process_nodes-objects_of ready ascending (ordered, covered) =
      let rows = db.node_rows (wanted objs) in
      let tags = db.node_tags (wanted objs) in
      rows_loop-objects_of start_node add_tags (with_tags tags) (Fits tag_owner tags)
        (add_tags-with_tags tags) osm cucache rows tags max [] ready ascending
        (Fits-start tag_owner tags (keys (kept rows)) ordered covered)

  -- process_ways returns one object for each row that is not redacted, in their order, with the
  -- attributes of the row and exactly the tags and the node refs of its id and version, and the largest
  -- time of all rows. The rows that are kept are strictly ascending, every row has a readable time and
  -- a cached changeset, and tags and way nodes are ordered and belong to rows that are kept.
  pub process_ways-objects_of :
      All (IsReady osm cucache) (db.way_rows (wanted objs))
      → IsAscending (keys (kept (db.way_rows (wanted objs))))
      → IsPartsOf tag_owner (db.way_rows (wanted objs)) (db.way_tags (wanted objs))
      → IsPartsOf way_node_owner (db.way_rows (wanted objs)) (db.way_nodes (wanted objs))
      → process_ways osm db cucache objs max
        ≡ ok (
          objects_of osm cucache start_way
              (λ k b.
                with_node_refs
                  (db.way_nodes (wanted objs))
                  k
                  (with_tags (db.way_tags (wanted objs)) k b))
              (kept (db.way_rows (wanted objs))),
          latest osm (db.way_rows (wanted objs)) max,
        )
  unfolding process_ways
  process_ways-objects_of ready ascending (ordered, covered) (refs_ordered, refs_covered) =
      let rows = db.way_rows (wanted objs) in
      let tags = db.way_tags (wanted objs) in
      let refs = db.way_nodes (wanted objs) in
      rows_loop-objects_of start_way add_way_parts
        (λ k b. with_node_refs refs k (with_tags tags k b))
        (λ ks it. Fits tag_owner tags ks it.0 × Fits way_node_owner refs ks it.1)
        (add_way_parts-with tags refs) osm cucache rows (tags, refs) max [] ready ascending
        (
          Fits-start tag_owner tags (keys (kept rows)) ordered covered,
          Fits-start way_node_owner refs (keys (kept rows)) refs_ordered refs_covered,
        )

  -- process_relations returns one object for each row that is not redacted, in their order, with the
  -- attributes of the row and exactly the tags and the members of its id and version, and the largest
  -- time of all rows. The rows that are kept are strictly ascending, every row has a readable time and
  -- a cached changeset, and tags and members are ordered and belong to rows that are kept.
  pub process_relations-objects_of :
      All (IsReady osm cucache) (db.relation_rows (wanted objs))
      → IsAscending (keys (kept (db.relation_rows (wanted objs))))
      → IsPartsOf tag_owner (db.relation_rows (wanted objs)) (db.relation_tags (wanted objs))
      → IsPartsOf member_owner (db.relation_rows (wanted objs)) (get_members db (wanted objs))
      → process_relations osm db cucache objs max
        ≡ ok (
          objects_of osm cucache start_relation
              (λ k b.
                with_members
                  (get_members db (wanted objs))
                  k
                  (with_tags (db.relation_tags (wanted objs)) k b))
              (kept (db.relation_rows (wanted objs))),
          latest osm (db.relation_rows (wanted objs)) max,
        )
  unfolding process_relations
  process_relations-objects_of ready ascending (ordered, covered) (mem_ordered, mem_covered) =
      let rows = db.relation_rows (wanted objs) in
      let tags = db.relation_tags (wanted objs) in
      let members = get_members db (wanted objs) in
      rows_loop-objects_of start_relation add_relation_parts
        (λ k b. with_members members k (with_tags tags k b))
        (λ ks it. Fits tag_owner tags ks it.0 × Fits member_owner members ks it.1)
        (add_relation_parts-with tags members) osm cucache rows (tags, members) max [] ready
        ascending
        (
          Fits-start tag_owner tags (keys (kept rows)) ordered covered,
          Fits-start member_owner members (keys (kept rows)) mem_ordered mem_covered,
        )
