-- ===== src/Pipeline.antt =====
-- From the plugin to osmdbt-create-diff: postgresql-plugin/osm-logical.c, src/osmdbt-get-log.cpp and
-- read_log of src/osmobj.cpp one behind the other.
use osmdbt.Common.{
  ℕ, ◌≢◌, ◌≡◌, refl, ap, sym, ◌∙◌, Bool, true, false, List, [], ◌∷◌, ◌++◌, Bytes, ok, All,
  All-append,
}
use osmdbt.Osm.{Osmium, IsDocumented}
use osmdbt.OsmObj.{OsmObj, Reading}
use osmdbt.OsmObj.Added.{add_all}
use osmdbt.OsmObj.ReadLog.{read_log}
use osmdbt.Files.{Disk}
use osmdbt.Files.Prefix.{Done}
use osmdbt.Plugin.{Change, Context, transaction}
use osmdbt.Plugin.Laws.{messages_of, concerns_osm, transaction_lem}
use osmdbt.Plugin.Messages.{Inserts, Inserts-table_type, messages_in-new_version}
use osmdbt.GetLog.{PeekRow, get_log, files}
use osmdbt.GetLog.Lines.{
  Message, commit, version, objects_of, IsWord, IsSane, Carries, message_text,
}
use osmdbt.GetLog.Laws.{log_name, read_log-get_log}

-- A new version of an object, with its id.
abbrev pub Version : Type 0
Version = OsmObj × ℕ

abbrev pub version_objs : List Version → List OsmObj
version_objs [] = []
version_objs (v ∷ vs) = v.0 ∷ version_objs vs

abbrev versions : List Version → List Message
versions [] = []
versions (v ∷ vs) = version v.0 v.1 ∷ versions vs

abbrev pub row_messages : List PeekRow → List Bytes
row_messages [] = []
row_messages (row ∷ rows) = row.message ∷ row_messages rows

-- The LSN and the xid of a row are words.
abbrev pub HasWords : PeekRow → Type 0
HasWords row = IsWord row.lsn × IsWord row.xid

-- The context at the start of a transaction.
abbrev pub fresh : Context
fresh = record { private_flag = false; out = [] }

-- All that the plugin writes.
abbrev pub out_of : List (List Change) → List Bytes
out_of [] = []
out_of (cs ∷ ts) = (transaction cs fresh).out ++ out_of ts

abbrev pub all_objs : List (List Version) → List OsmObj
all_objs [] = []
all_objs (vs ∷ vss) = version_objs vs ++ all_objs vss

abbrev commits : List (List Version) → List Message
commits [] = []
commits (vs ∷ vss) = (versions vs ++ commit ∷ []) ++ commits vss

objects_of-append : (ms ns : List Message) → objects_of (ms ++ ns) ≡ objects_of ms ++ objects_of ns
objects_of-append [] ns = refl
objects_of-append (commit ∷ ms) ns = objects_of-append ms ns
objects_of-append (version obj n ∷ ms) ns = ap (◌∷◌ obj) (objects_of-append ms ns)

objects_of-versions :
    (vs : List Version) → objects_of (versions vs ++ commit ∷ []) ≡ version_objs vs
objects_of-versions [] = refl
objects_of-versions (v ∷ vs) = ap (◌∷◌ v.0) (objects_of-versions vs)

objects_of-commits : (vss : List (List Version)) → objects_of (commits vss) ≡ all_objs vss
objects_of-commits [] = refl
objects_of-commits (vs ∷ vss) =
    objects_of-append (versions vs ++ commit ∷ []) (commits vss)
    ∙ rw (objects_of-versions vs, objects_of-commits vss) refl

module _ (osm : Osmium) (documented : IsDocumented osm) where
  -- The changes of a transaction insert these versions, one each.
  abbrev pub AllInsert : List Change → List Version → Type 0
  AllInsert [] [] = Unit
  AllInsert [] (v ∷ vs) = ⊥
  AllInsert (c ∷ cs) [] = ⊥
  AllInsert (c ∷ cs) (v ∷ vs) = Inserts osm documented c v.0 v.1 × AllInsert cs vs

  texts : List Message → List Bytes
  texts [] = []
  texts (m ∷ ms) = message_text osm documented m ∷ texts ms

  messages_of-texts :
      (cs : List Change) (vs : List Version)
      → AllInsert cs vs
      → messages_of cs ≡ texts (versions vs)
  unfolding texts
  messages_of-texts [] [] h = refl
  messages_of-texts [] (v ∷ vs) h = absurd h
  messages_of-texts (c ∷ cs) [] h = absurd h
  messages_of-texts (c ∷ cs) (v ∷ vs) h =
      rw (messages_in-new_version osm documented c v.0 v.1 h.0, messages_of-texts cs vs h.1) refl

  texts-append : (ms ns : List Message) → texts (ms ++ ns) ≡ texts ms ++ texts ns
  unfolding texts
  texts-append [] ns = refl
  texts-append (m ∷ ms) ns = ap (◌∷◌ (message_text osm documented m)) (texts-append ms ns)

  Carries-texts :
      (rows : List PeekRow) (ms : List Message)
      → row_messages rows ≡ texts ms
      → All (IsSane osm documented) ms
      → All HasWords rows
      → Carries osm documented rows ms
  unfolding texts
  Carries-texts [] [] e s w = tt
  Carries-texts [] (m ∷ ms) e s w = cc
  Carries-texts (row ∷ rows) [] e s w = cc
  Carries-texts (row ∷ rows) (m ∷ ms) e s w =
      ((cc, s.0, w.0.0, w.0.1), Carries-texts rows ms (cc) s.1 w.1)

  -- Every transaction inserts its versions, at least one.
  abbrev pub AllTransactions : List (List Change) → List (List Version) → Type 0
  AllTransactions [] [] = Unit
  AllTransactions [] (vs ∷ vss) = ⊥
  AllTransactions (cs ∷ ts) [] = ⊥
  AllTransactions (cs ∷ ts) (vs ∷ vss) = (cs ≢ []) × AllInsert cs vs × AllTransactions ts vss

  concerns :
      (cs : List Change) (vs : List Version) → cs ≢ [] → AllInsert cs vs → concerns_osm cs ≡ true
  concerns [] vs some_change h = absurd (some_change refl)
  concerns (c ∷ cs) [] some_change h = absurd h
  concerns (c ∷ cs) (v ∷ vs) some_change h =
      rw (Inserts-table_type osm documented c v.0 v.1 h.0) refl

  transaction-texts :
      (cs : List Change) (vs : List Version)
      → cs ≢ []
      → AllInsert cs vs
      → (transaction cs fresh).out ≡ texts (versions vs ++ commit ∷ [])
  transaction-texts cs vs some_change h =
      ap (λ ctx. ctx.out) (transaction_lem cs fresh refl)
      ∙ (rw (concerns cs vs some_change h, messages_of-texts cs vs h)
          (sym (texts-append (versions vs) (commit ∷ []) ∙ unfold texts in refl)))

  out_of-texts :
      (ts : List (List Change)) (vss : List (List Version))
      → AllTransactions ts vss
      → out_of ts ≡ texts (commits vss)
  out_of-texts [] [] h = unfold texts in refl
  out_of-texts [] (vs ∷ vss) h = absurd h
  out_of-texts (cs ∷ ts) [] h = absurd h
  out_of-texts (cs ∷ ts) (vs ∷ vss) h =
      rw (transaction-texts cs vs h.0 h.1, out_of-texts ts vss h.2)
        (sym (texts-append (versions vs ++ commit ∷ []) (commits vss)))

  versions-IsSane :
      (cs : List Change) (vs : List Version)
      → AllInsert cs vs
      → All (IsSane osm documented) (versions vs)
  versions-IsSane [] [] h = tt
  versions-IsSane [] (v ∷ vs) h = absurd h
  versions-IsSane (c ∷ cs) [] h = absurd h
  versions-IsSane (c ∷ cs) (v ∷ vs) h = (h.0.loggable, versions-IsSane cs vs h.1)

  commits-IsSane :
      (ts : List (List Change)) (vss : List (List Version))
      → AllTransactions ts vss
      → All (IsSane osm documented) (commits vss)
  commits-IsSane [] [] h = tt
  commits-IsSane [] (vs ∷ vss) h = absurd h
  commits-IsSane (cs ∷ ts) [] h = absurd h
  commits-IsSane (cs ∷ ts) (vs ∷ vss) h =
      All-append _ (versions vs ++ commit ∷ []) (commits vss)
        (All-append _ (versions vs) (commit ∷ []) (versions-IsSane cs vs h.1) (tt, tt))
        (commits-IsSane ts vss h.2)

  -- The whole way of a change. Transactions insert object versions, at least one each; the plugin writes
  -- its messages on them, and the rows of the slot carry these messages. If the file operations of
  -- osmdbt-get-log throw nothing, read_log of osmdbt-create-diff adds from the log file exactly these versions,
  -- all of them once and in their order.
  pub read_log-transaction :
      (real_state catchup : Bool) (now : ℕ) (log_dir : Bytes) (ts : List (List Change))
      (vss : List (List Version)) (obj : OsmObj) (objs : List OsmObj) (rows : List PeekRow)
      (r : Reading) {disk disk' : Disk}
      → AllTransactions ts vss
      → all_objs vss ≡ obj ∷ objs
      → row_messages rows ≡ out_of ts
      → All HasWords rows
      → Done (files (get_log osm real_state catchup now log_dir rows)) disk disk'
      → read_log osm disk' log_dir (log_name osm real_state now rows) r
        ≡ ok (add_all (obj ∷ objs) r)
  read_log-transaction real_state catchup now log_dir ts vss obj objs rows r h split e w done =
      read_log-get_log osm documented real_state catchup now log_dir rows (commits vss) obj objs r
        (Carries-texts rows (commits vss) (e ∙ out_of-texts ts vss h) (commits-IsSane ts vss h) w)
        (objects_of-commits vss ∙ split) done
