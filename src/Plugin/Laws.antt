-- ===== src/Plugin/Laws.antt =====
-- What a transaction writes.
use osmdbt.Common.{
  or_true, or_false, ℕ, ◌≡◌, refl, ap, ◌∙◌, Bool, true, false, List, [], ◌∷◌, ◌++◌, append_assoc,
  append-nil, Option, none, some, if◌then◌else◌, Bytes, codes, Bool-cases, inl, inr, ◌||◌,
}
use osmdbt.Plugin.{
  Change, Context, table_type, tuple_messages, change_table, change_cb, commit_cb, change_all,
  transaction,
}

-- What one change contributes: nothing for a table that holds no OSM objects.
abbrev pub messages_in : Change → Option (ℕ × Bytes) → List Bytes
messages_in c none = []
messages_in c (some t) = tuple_messages c.action t c.newtuple

abbrev pub messages_of : List Change → List Bytes
messages_of [] = []
messages_of (c ∷ cs) = messages_in c (table_type c.table) ++ messages_of cs

abbrev is_osm : Option (ℕ × Bytes) → Bool
is_osm none = false
is_osm (some t) = true

-- Some change is about a table of OSM objects.
abbrev pub concerns_osm : List Change → Bool
concerns_osm [] = false
concerns_osm (c ∷ cs) = is_osm (table_type c.table) || concerns_osm cs

abbrev after_changes : List Change → Context → Context
after_changes cs ctx = record {
  private_flag = ctx.private_flag || concerns_osm cs;
  out = ctx.out ++ messages_of cs;
}

or_assoc : (a b c : Bool) → ((a || b) || c) ≡ (a || (b || c))
or_assoc true b c = refl
or_assoc false b c = refl

change_table_lem :
    (c : Change) (t : Option (ℕ × Bytes)) (ctx : Context)
    → change_table c t ctx
      ≡ record { private_flag = ctx.private_flag || is_osm t; out = ctx.out ++ messages_in c t }
unfolding change_table
change_table_lem c none ctx = rw (or_false, append-nil)
change_table_lem c (some t) ctx = rw or_true

change_all_lem : (cs : List Change) (ctx : Context) → change_all cs ctx ≡ after_changes cs ctx
unfolding change_all
change_all_lem [] ctx = rw (or_false, append-nil)
change_all_lem (c ∷ cs) ctx =
    let t = table_type c.table in
    change_all_lem cs (change_cb c ctx)
    ∙ (ap (after_changes cs) (unfold change_cb in change_table_lem c t ctx)
        ∙ rw (or_assoc, append_assoc))

commit_after :
    (cs : List Change) (ctx : Context)
    → ctx.private_flag ≡ false
    → commit_cb (after_changes cs ctx) ≡ record {
      private_flag = false;
      out = ctx.out ++ (messages_of cs ++ (if concerns_osm cs then codes "C" ∷ [] else []));
    }
unfolding commit_cb
commit_after cs ctx h = elim (Bool-cases (concerns_osm cs)) [
  | inl e ↦ rw (h, e, append_assoc)
  | inr e ↦ rw (h, e, append-nil)
]

-- A transaction that starts with a clear flag writes the messages of its changes, in their order, and
-- closes them with one C if a change was about a table of OSM objects; the flag is clear again.
pub transaction_lem :
    (cs : List Change) (ctx : Context)
    → ctx.private_flag ≡ false
    → transaction cs ctx ≡ record {
      private_flag = false;
      out = ctx.out ++ (messages_of cs ++ (if concerns_osm cs then codes "C" ∷ [] else []));
    }
unfolding transaction
transaction_lem cs ctx h = ap commit_cb (change_all_lem cs ctx) ∙ commit_after cs ctx h
