-- ===== src/OsmObj/Added.antt =====
-- What the lists and the cache are after objects were added, said of all of them at once.
use osmdbt.Common.{
  ◌≡◌, refl, ap, ◌∙◌, List, [], ◌∷◌, ◌++◌, append_assoc, append-nil, Option, none, some,
}
use osmdbt.Osm.{ItemType, undefined, node, way, relation, other}
use osmdbt.OsmObj.{OsmObj, OsmObjects, Cache, Reading, cache_set, register, push_to, add_obj}

-- The object where it has the type of the list.
abbrev node_part : ItemType → OsmObj → List OsmObj
node_part node obj = obj ∷ []
node_part way obj = []
node_part relation obj = []
node_part undefined obj = []
node_part (other n) obj = []

abbrev way_part : ItemType → OsmObj → List OsmObj
way_part node obj = []
way_part way obj = obj ∷ []
way_part relation obj = []
way_part undefined obj = []
way_part (other n) obj = []

abbrev relation_part : ItemType → OsmObj → List OsmObj
relation_part node obj = []
relation_part way obj = []
relation_part relation obj = obj ∷ []
relation_part undefined obj = []
relation_part (other n) obj = []

-- The objects of each type.
abbrev pub nodes_of : List OsmObj → List OsmObj
nodes_of [] = []
nodes_of (obj ∷ objs) = node_part obj.type obj ++ nodes_of objs

abbrev pub ways_of : List OsmObj → List OsmObj
ways_of [] = []
ways_of (obj ∷ objs) = way_part obj.type obj ++ ways_of objs

abbrev pub relations_of : List OsmObj → List OsmObj
relations_of [] = []
relations_of (obj ∷ objs) = relation_part obj.type obj ++ relations_of objs

-- The changesets of the objects are in the cache, without a user, where there is a cache.
abbrev pub changesets_set : List OsmObj → Cache → Cache
changesets_set [] cucache = cucache
changesets_set (obj ∷ objs) cucache =
    changesets_set objs (cache_set obj.cid (record { id = 0; username = [] }) cucache)

abbrev pub changesets_in : List OsmObj → Option Cache → Option Cache
changesets_in objs none = none
changesets_in objs (some cucache) = some (changesets_set objs cucache)

-- Each list is longer by the objects of its type, in their order.
abbrev pub add_all : List OsmObj → Reading → Reading
add_all objs (objects, cucache) = (
  record {
    nodes = objects.nodes ++ nodes_of objs;
    ways = objects.ways ++ ways_of objs;
    relations = objects.relations ++ relations_of objs;
  },
  changesets_in objs cucache,
)

-- One after another.
abbrev pub push_all : List OsmObj → Reading → Reading
push_all [] r = r
push_all (obj ∷ objs) r = push_all objs (add_obj obj r)

changesets_in-register :
    (obj : OsmObj) (objs : List OsmObj) (cucache : Option Cache)
    → changesets_in objs (register obj cucache) ≡ changesets_in (obj ∷ objs) cucache
unfolding register
changesets_in-register obj objs none = refl
changesets_in-register obj objs (some cucache) = refl

changesets_in_none : (cucache : Option Cache) → changesets_in [] cucache ≡ cucache
changesets_in_none none = refl
changesets_in_none (some cucache) = refl

abbrev add_lists : List OsmObj → OsmObjects → OsmObjects
add_lists objs objects = record {
  nodes = objects.nodes ++ nodes_of objs;
  ways = objects.ways ++ ways_of objs;
  relations = objects.relations ++ relations_of objs;
}

add_lists-push_to :
    (t : ItemType) (obj : OsmObj) (objs : List OsmObj) (o : OsmObjects)
    → add_lists objs (push_to t obj o) ≡ record {
      nodes = o.nodes ++ (node_part t obj ++ nodes_of objs);
      ways = o.ways ++ (way_part t obj ++ ways_of objs);
      relations = o.relations ++ (relation_part t obj ++ relations_of objs);
    }
unfolding push_to
add_lists-push_to node obj objs o = simp append_assoc
add_lists-push_to way obj objs o = simp append_assoc
add_lists-push_to relation obj objs o = simp append_assoc
add_lists-push_to undefined obj objs o = refl
add_lists-push_to (other n) obj objs o = refl

add_all-add_obj :
    (obj : OsmObj) (objs : List OsmObj) (r : Reading)
    → add_all objs (add_obj obj r) ≡ add_all (obj ∷ objs) r
unfolding add_obj
add_all-add_obj obj objs (objects, cucache) =
    ap (λ c. (add_lists objs (push_to obj.type obj objects), c))
      (changesets_in-register obj objs cucache)
    ∙ ap (λ o. (o, changesets_in (obj ∷ objs) cucache))
        (add_lists-push_to obj.type obj objs objects)

pub push_all-add_all : (objs : List OsmObj) (r : Reading) → push_all objs r ≡ add_all objs r
push_all-add_all [] (objects, cucache) =
    rw (append-nil, append-nil, append-nil, changesets_in_none cucache) refl
push_all-add_all (obj ∷ objs) r = push_all-add_all objs (add_obj obj r) ∙ add_all-add_obj obj objs r
