-- ===== src/OsmObj/ReadLog/Lines.antt =====
-- A line that names an object is read as that object.
use osmdbt.Common.{
  ℕ, ◌^◌, ◌<◌, ◌≡◌, ◌≢◌, refl, ap, ◌∙◌, true, [], ◌∷◌, ◌++◌, arith, Bytes, codes, bytes_eq, pos, ok,
  ◌>>=◌, All-append, append_cons_ne,
}
use osmdbt.Number.{two_63}
use osmdbt.Number.Digits.{print, digit_value}
use osmdbt.Number.Texts.{strtoll-c_str, length-decimal, decimal-Lacks}
use osmdbt.Osm.{Osmium, IsDocumented, ItemType, node, way, relation, undefined, other, Lacks}
use osmdbt.OsmObj.{OsmObj, osmobj_of, is_nwr, add, add_obj, Reading}
use osmdbt.OsmObj.Added.{add_all, push_all-add_all}
use osmdbt.OsmObj.ReadLog.{lines, read_parts}

-- A text without a newline, closed by one, is the first line.
pub lines-line :
    (text rest : Bytes) → Lacks b'\n' text → lines (text ++ b'\n' ∷ rest) ≡ text ∷ lines rest
unfolding lines
lines-line [] rest h = refl
lines-line (c ∷ s) rest h = ground (arith, lines-line s rest h.1)

-- An object whose numbers fit the types of the code.
pub record IsLoggable (obj : OsmObj) (n : ℕ) : Type 0 where
  pub nwr : is_nwr obj.type ≡ true
  pub id : obj.id ≡ pos n
  pub id_lt : n < two_63
  pub version_lt : obj.version < 2 ^ 32
  pub cid_lt : obj.cid < 2 ^ 32

module _ (osm : Osmium) (documented : IsDocumented osm) where
  char_type : (t : ItemType) → is_nwr t ≡ true → osm.char_to_item_type (osm.item_type_to_char t) ≡ t
  unfolding is_nwr
  char_type node h = rw documented.char_node documented.type_node
  char_type way h = rw documented.char_way documented.type_way
  char_type relation h = rw documented.char_relation documented.type_relation
  char_type undefined h = cc
  char_type (other n) h = cc

  char_no_blank :
      (t : ItemType)
      → is_nwr t ≡ true
      → (osm.item_type_to_char t ≢ b' ') × (osm.item_type_to_char t ≢ b'\n')
  unfolding is_nwr
  char_no_blank node h = rw documented.char_node (omega arith)
  char_no_blank way h = rw documented.char_way (omega arith)
  char_no_blank relation h = rw documented.char_relation (omega arith)
  char_no_blank undefined h = cc
  char_no_blank (other n) h = cc

  -- The three words of an object.
  abbrev pub type_id : ItemType → ℕ → Bytes
  type_id t n = osm.item_type_to_char t ∷ print 10 n

  -- The constructor of osmobj reads an object back from its three words, if its type is node, way or
  -- relation, its id is n < 2^63, and its version and changeset id are below 2^32.
  pub osmobj_of-words :
      (obj : OsmObj) (n : ℕ)
      → IsLoggable obj n
      → osmobj_of osm (type_id obj.type n) (b'v' ∷ print 10 obj.version) (b'c' ∷ print 10 obj.cid)
        ≡ ok obj
  unfolding osmobj_of
  osmobj_of-words obj n l = ground (
    arith,
    length-decimal n,
    length-decimal obj.version,
    length-decimal obj.cid,
    char_type obj.type l.nwr,
    strtoll-c_str n l.id_lt,
    strtoll-c_str obj.version (omega arith),
    strtoll-c_str obj.cid (omega arith),
  )

  -- The action N and the words, as the plugin and osmdbt-fake-log write them.
  abbrev pub new_version : OsmObj → ℕ → Bytes
  new_version obj n =
      codes "N"
      ++ b' '
        ∷ (type_id obj.type n
            ++ b' ' ∷ ((b'v' ∷ print 10 obj.version) ++ b' ' ∷ (b'c' ∷ print 10 obj.cid)))

  pub new_version_no_newline :
      (obj : OsmObj) (n : ℕ) → IsLoggable obj n → Lacks b'\n' (new_version obj n)
  unfolding digit_value
  new_version_no_newline obj n l =
      let no_newline = λ (m : ℕ). decimal-Lacks b'\n' m refl in
      let v : Lacks b'\n' (b'v' ∷ print 10 obj.version) = (omega arith, no_newline obj.version) in
      let c : Lacks b'\n' (b' ' ∷ b'c' ∷ print 10 obj.cid) =
        (omega arith, (omega arith, no_newline obj.cid)) in
      let t : Lacks b'\n' (type_id obj.type n) = ((char_no_blank obj.type l.nwr).1, no_newline n) in
      let vc = All-append _ (b'v' ∷ print 10 obj.version) (b' ' ∷ b'c' ∷ print 10 obj.cid) v c in
      (omega arith, (omega arith, All-append _ (type_id obj.type n) _ t (omega arith, vc)))

  split_words :
      (lsn xid : Bytes) (obj : OsmObj) (n : ℕ)
      → Lacks b' ' lsn
      → Lacks b' ' xid
      → IsLoggable obj n
      → osm.split_string (lsn ++ b' ' ∷ (xid ++ b' ' ∷ new_version obj n)) b' '
        ≡ lsn
          ∷ xid
          ∷ codes "N"
          ∷ type_id obj.type n
          ∷ (b'v' ∷ print 10 obj.version)
          ∷ (b'c' ∷ print 10 obj.cid)
          ∷ []
  unfolding digit_value
  split_words lsn xid obj n hl hx l =
      let v = b'v' ∷ print 10 obj.version in
      let c = b'c' ∷ print 10 obj.cid in
      let t = type_id obj.type n in
      let step = documented.split_step b' ' in
      step lsn _ hl (append_cons_ne xid b' ' _)
      ∙ ap (◌∷◌ lsn) (
          step xid _ hx (append_cons_ne (codes "N") b' ' _)
          ∙ ap (◌∷◌ xid) (
              step (codes "N") _ (omega arith) (append_cons_ne t b' ' _)
              ∙ ap (◌∷◌ (codes "N")) (
                  step t (v ++ b' ' ∷ c)
                    ((char_no_blank obj.type l.nwr).0, decimal-Lacks b' ' n refl)
                    (append_cons_ne v b' ' _)
                  ∙ ap (◌∷◌ t) (
                      step v c (omega arith, decimal-Lacks b' ' obj.version refl) (λ e. cc)
                      ∙ ap (◌∷◌ v) (
                          documented.split_end b' ' c (omega arith, decimal-Lacks b' ' obj.cid refl)
                            (λ e. cc))))))

  pub read_parts-add_obj :
      (lsn xid : Bytes) (obj : OsmObj) (n : ℕ) (r : Reading)
      → Lacks b' ' lsn
      → Lacks b' ' xid
      → IsLoggable obj n
      → read_parts osm (osm.split_string (lsn ++ b' ' ∷ (xid ++ b' ' ∷ new_version obj n)) b' ') r
        ≡ ok (add_obj obj r)
  unfolding read_parts add bytes_eq
  read_parts-add_obj lsn xid obj n r hl hx l =
      ap (λ parts. read_parts osm parts r) (split_words lsn xid obj n hl hx l)
      ∙ ap (λ m. m >>= λ o. ok (add_obj o r)) (osmobj_of-words obj n l)

  -- read_log on a line of two words without blanks and the action N with the words of an object, whose
  -- type is node, way or relation and whose numbers fit their types as above, makes the list of this
  -- type longer by the object, leaves the two other lists, and sets its changeset in the cache, where
  -- there is a cache.
  pub read_parts-new_version :
      (lsn xid : Bytes) (obj : OsmObj) (n : ℕ) (r : Reading)
      → Lacks b' ' lsn
      → Lacks b' ' xid
      → IsLoggable obj n
      → read_parts osm (osm.split_string (lsn ++ b' ' ∷ (xid ++ b' ' ∷ new_version obj n)) b' ') r
        ≡ ok (add_all (obj ∷ []) r)
  read_parts-new_version lsn xid obj n r hl hx l =
      read_parts-add_obj lsn xid obj n r hl hx l ∙ ap ok (push_all-add_all (obj ∷ []) r)
