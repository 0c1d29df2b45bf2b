-- ===== src/Replication/Reads.antt =====
-- osmdbt-testdb only reads.
use osmdbt.Common.{
  ℕ, inl, inr, List, [], ◌∷◌, Option, Bytes, Result, ok, err, All, All-append, Bool-cases, Bool,
  true, false, not, ◌&&◌, ◌||◌, ◌==◌, ◌≡◌, refl, codes,
}
use osmdbt.Db.{Query, Rows, version_query, version_num_query, get_db_version, get_db_major_version}
use osmdbt.Db.Session.{Asked, Answers, ask, compute, ◌>>=◌}
use osmdbt.Replication.{
  show_query, slots_query, peek_all_query, schema_query, print_config, single,
  has_configured_replication_slot, peek_changes, replication_of, testdb,
}

abbrev AllAsk : {A : Type 0} → (Query → Type 0) → Asked A → Type 0
AllAsk P x = All P x.queries

module _ (P : Query → Type 0) {A B : Type 0} where
  then_ask-All :
      (queries : List Query) (r : Result A) (rest : A → Asked B)
      → All P queries
      → ((a : A) → AllAsk P (rest a))
      → AllAsk P (record { queries = queries; result = r } >>= rest)
  then_ask-All queries (err fault) rest h k = h
  then_ask-All queries (ok a) rest h k = All-append P queries (rest a).queries h (k a)

  -- A chain asks what its statement asks, and then what the rest asks.
  chain :
      (x : Asked A) (rest : A → Asked B)
      → AllAsk P x
      → ((a : A) → AllAsk P (rest a))
      → AllAsk P (x >>= rest)
  chain x rest h k = then_ask-All x.queries x.result rest h k

abbrev is_prefix : Bytes → Bytes → Bool
is_prefix [] s = true
is_prefix (b ∷ t) [] = false
is_prefix (b ∷ t) (c ∷ s) = b == c && is_prefix t s

-- The word is somewhere in the text.
abbrev has_word : Bytes → Bytes → Bool
has_word word [] = is_prefix word []
has_word word (c ∷ s) = is_prefix word (c ∷ s) || has_word word s

-- There is no semicolon before the last byte: the text is one statement.
abbrev is_single : Bytes → Bool
is_single [] = true
is_single (c ∷ []) = true
is_single (c ∷ d ∷ s) = not (c == b';') && is_single (d ∷ s)

-- The functions of PostgreSQL that consume, advance, create or drop a replication slot, by how their names
-- begin.
abbrev changes_slot : Bytes → Bool
changes_slot text =
    has_word (codes "pg_logical_slot_get") text
    || has_word (codes "pg_replication_slot_advance") text
    || has_word (codes "pg_create_") text
    || has_word (codes "pg_drop_") text
    || has_word (codes "pg_copy_") text

-- A statement that changes nothing: it is one SHOW or SELECT, and calls none of these functions.
abbrev pub IsReading : Query → Type 0
IsReading q =
    ((is_prefix (codes "SHOW ") q.text || is_prefix (codes "SELECT ") q.text) ≡ true)
    × (is_single q.text ≡ true)
    × (changes_slot q.text ≡ false)

module _ (answers : Answers) (slot : Bytes) where
  replication_of-IsReading : (slots : Rows) → AllAsk IsReading (replication_of answers slot slots)
  unfolding replication_of peek_changes
  replication_of-IsReading [] = tt
  replication_of-IsReading (row ∷ rows) =
      elim (Bool-cases (has_configured_replication_slot slot (row ∷ rows))) [
        | inl e ↦ rw e (
            chain IsReading (ask answers (peek_all_query slot)) _ ((refl, refl, refl), tt)
              (λ r. tt))
        | inr e ↦ rw e tt
      ]

  print_config-IsReading :
      (setting : Bytes)
      → IsReading (show_query setting)
      → AllAsk IsReading (print_config answers setting)
  unfolding print_config
  print_config-IsReading setting h =
      chain IsReading (ask answers (show_query setting)) _ (h, tt) (λ r. tt)

  -- osmdbt-testdb only reads: whatever the database answers, each text that it sends is one statement, SHOW or
  -- SELECT, and in none is a function that consumes, advances, creates, copies or drops a replication slot.
  pub testdb-IsReading :
      (as_int : Bytes → Option ℕ) → All IsReading (testdb as_int answers slot).queries
  unfolding testdb
  testdb-IsReading as_int =
      let P = IsReading in
      chain P (ask answers version_num_query) _ ((refl, refl, refl), tt)
        (λ number. chain P (compute (get_db_major_version as_int number)) _ tt (λ major.
          chain P (ask answers version_query) _ ((refl, refl, refl), tt)
            (λ text. chain P (compute (get_db_version text)) _ tt (λ version.
              chain P (print_config answers _) _ (print_config-IsReading _ (refl, refl, refl))
                (λ wal_level.
                  chain P (print_config answers _) _ (print_config-IsReading _ (refl, refl, refl))
                    (λ max_slots.
                      chain P (ask answers slots_query) _ ((refl, refl, refl), tt)
                        (λ slots.
                          chain P (replication_of answers slot slots) _
                            (replication_of-IsReading slots)
                            (λ replication.
                              chain P (ask answers schema_query) _ ((refl, refl, refl), tt)
                                (λ schema.
                                  chain P (compute (single schema)) _ tt
                                    (λ schema_version. tt))))))))))
