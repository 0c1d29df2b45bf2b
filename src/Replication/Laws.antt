-- ===== src/Replication/Laws.antt =====
-- What osmdbt-testdb says, and when a slot is created or dropped.
use osmdbt.Common.{
  Fault, Result-cases, ℕ, ◌≡◌, ◌≢◌, ◌⊎◌, inl, inr, refl, ap, sym, true, List, [], ◌∷◌, Option,
  Bytes, codes, bytes_eq, length, Result, ok, err, Bool-cases, bytes_eq→eq, bytes_eq_refl, or_true,
}
use mathlib.Core.Path.{subst}
use osmdbt.Db.{
  Query, Rows, column, version_query, version_num_query, get_db_version, get_db_major_version,
}
use osmdbt.Db.Session.{Asked, Answers, ask, compute, ◌>>=◌}
use osmdbt.Replication.{
  enable_query, disable_query, enable_replication, disable_replication, says_enabled, says_disabled,
  slots_query, peek_all_query, schema_query, print_config, single, has_configured_replication_slot,
  Replication, not_enabled, slot_not_active, waiting, peek_changes, replication_of, Report, testdb,
}

-- A slot of this name is among the rows.
abbrev pub HasSlot : Bytes → Rows → Type 0
HasSlot slot [] = ⊥
HasSlot slot (row ∷ rows) = (slot ≡ column 0 row) ⊎ HasSlot slot rows

has_configured-HasSlot :
    (slot : Bytes) (rows : Rows)
    → has_configured_replication_slot slot rows ≡ true
    → HasSlot slot rows
unfolding has_configured_replication_slot
has_configured-HasSlot slot [] h = cc
has_configured-HasSlot slot (row ∷ rows) h = elim (Bool-cases (bytes_eq slot (column 0 row))) [
  | inl e ↦ inl (bytes_eq→eq slot (column 0 row) e)
  | inr e ↦ inr (has_configured-HasSlot slot rows (rw e at h))
]

HasSlot-has_configured :
    (slot : Bytes) (rows : Rows)
    → HasSlot slot rows
    → has_configured_replication_slot slot rows ≡ true
unfolding has_configured_replication_slot
HasSlot-has_configured slot [] h = absurd h
HasSlot-has_configured slot (row ∷ rows) (inl e) = rw (sym e, bytes_eq_refl slot) refl
HasSlot-has_configured slot (row ∷ rows) (inr h) =
    rw (HasSlot-has_configured slot rows h, or_true) refl

module _ (answers : Answers) (slot : Bytes) where
  -- What is said of the slots of the plugin that the database lists.
  pub data Says (slots : Rows) : Replication → Type 0 where
    without_slots : slots ≡ [] → Says slots not_enabled
    without_this : slots ≢ [] → (HasSlot slot slots → ⊥) → Says slots slot_not_active
    with_this :
        (rows : Rows)
        → HasSlot slot slots
        → answers (peek_all_query slot) ≡ ok rows
        → Says slots (waiting (length rows))

  asked_ok :
      {A B : Type 0} (x : Asked A) (rest : A → Asked B) {b : B}
      → (x >>= rest).result ≡ ok b
      → (a : A) × (x.result ≡ ok a) × ((rest a).result ≡ ok b)
  asked_ok {A = A} x rest {b} h = go x.queries x.result h
    where
      go :
          (qs : List Query) (r : Result A)
          → (record { queries = qs; result = r } >>= rest).result ≡ ok b
          → (a : A) × (r ≡ ok a) × ((rest a).result ≡ ok b)
      go qs (err fault) h = cc
      go qs (ok a) h = (a, refl, h)

  replication_of-Says :
      (slots : Rows) (said : Replication)
      → (replication_of answers slot slots).result ≡ ok said
      → Says slots said
  unfolding replication_of peek_changes
  replication_of-Says [] said h = subst (Says []) (cc) (without_slots refl)
  replication_of-Says (row ∷ rows) said h =
      elim (Bool-cases (has_configured_replication_slot slot (row ∷ rows))) [
        | inl e ↦
            let (peeked, answer, h') = asked_ok (ask answers (peek_all_query slot)) _ (rw e at h) in
            subst (Says (row ∷ rows)) (cc)
              (with_this peeked (has_configured-HasSlot slot _ e) answer)
        | inr e ↦
            let not_there : HasSlot slot (row ∷ rows) → ⊥ =
              λ there. cc (HasSlot-has_configured slot (row ∷ rows) there) in
            let same : slot_not_active ≡ said = cc (rw e at h) in
            subst (Says (row ∷ rows)) same (without_this (λ o. cc) not_there)
      ]

  -- If osmdbt-testdb throws nothing, it says that replication is not enabled exactly if the database lists no
  -- slot of the plugin, that the configured slot is not active if it lists others only, and else how many
  -- rows wait in the configured slot.
  pub testdb-Says :
      (as_int : Bytes → Option ℕ) (report : Report)
      → (testdb as_int answers slot).result ≡ ok report
      → (slots : Rows) × (answers slots_query ≡ ok slots) × Says slots report.replication
  unfolding testdb
  testdb-Says as_int report h =
      let (number, e0, h0) = asked_ok (ask answers version_num_query) _ h in
      let (major, e1, h1) = asked_ok (compute (get_db_major_version as_int number)) _ h0 in
      let (text, e2, h2) = asked_ok (ask answers version_query) _ h1 in
      let (version, e3, h3) = asked_ok (compute (get_db_version text)) _ h2 in
      let (wal_level, e4, h4) = asked_ok (print_config answers (codes "wal_level")) _ h3 in
      let (max_slots, e5, h5) =
        asked_ok (print_config answers (codes "max_replication_slots")) _ h4 in
      let (slots, e6, h6) = asked_ok (ask answers slots_query) _ h5 in
      let (said, e7, h7) = asked_ok (replication_of answers slot slots) _ h6 in
      let (schema, e8, h8) = asked_ok (ask answers schema_query) _ h7 in
      let (schema_version, e9, h9) = asked_ok (compute (single schema)) _ h8 in
      let same : said ≡ report.replication = ap (λ r. said_by said r) h9 in
      (slots, e6, subst (Says slots) same (replication_of-Says slots said e7))
    where
      said_by : Replication → Result Report → Replication
      said_by other (err fault) = other
      said_by other (ok r) = r.replication

-- A command that sends one statement after it has checked the version of the database: the statement is
-- not sent where the check fails, and the command then throws.
abbrev pub SendsChecked : {A : Type 0} → Answers → Query → Asked A → Type 0
SendsChecked answers q x =
    ((f : Fault) × (x.queries ≡ version_query ∷ []) × (x.result ≡ err f))
    ⊎ ((rows : Rows) × (v : Bytes) × (answers version_query ≡ ok rows)
        × (get_db_version rows ≡ ok v)
        × (x.queries ≡ version_query ∷ q ∷ []))

sends_checked :
    {A : Type 0} (answers : Answers) (q : Query) (rest : Rows → Result A)
    → SendsChecked answers q (
        ask answers version_query >>= (λ version.
          compute (get_db_version version)
          >>= (λ v. ask answers q >>= (λ result. compute (rest result)))))
sends_checked answers q rest = elim (Result-cases (answers version_query)) [
  | inl (f, e) ↦ inl (f, rw e refl, rw e refl)
  | inr (rows, e) ↦ elim (Result-cases (get_db_version rows)) [
    | inl (f, ev) ↦ inl (f, rw (e, ev) refl, rw (e, ev) refl)
    | inr (v, ev) ↦ elim (Result-cases (answers q)) [
      | inl (f, eq) ↦ inr (rows, v, e, ev, rw (e, ev, eq) refl)
      | inr (result, eq) ↦ inr (rows, v, e, ev, rw (e, ev, eq) refl)
    ]
  ]
]

-- osmdbt-enable-replication and osmdbt-disable-replication send the statement that creates or drops the
-- configured slot once, and only after the database has said that it is PostgreSQL; otherwise they throw.
pub enable_replication-SendsChecked :
    (answers : Answers) (slot : Bytes)
    → SendsChecked answers (enable_query slot) (enable_replication answers slot)
      × SendsChecked answers (disable_query slot) (disable_replication answers slot)
unfolding enable_replication disable_replication
enable_replication-SendsChecked answers slot = (
  sends_checked answers (enable_query slot) (λ result. ok (says_enabled slot result)),
  sends_checked answers (disable_query slot) (λ result. ok (says_disabled result)),
)
