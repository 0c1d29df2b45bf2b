-- ===== src/Settings/Loaded.antt =====
-- What the constructor of Config makes.
use osmdbt.Common.{
  ℕ, All, ◌≢◌, append-nil, ◌≡◌, refl, ◌∙◌, sym, List, [], ◌∷◌, ◌++◌, append_assoc, Bytes, codes,
}
use osmdbt.Settings.{build_conn_str, append_setting, db_connection}
use osmdbt.Settings.Load.{Database, Config, connection}

-- The settings that are not empty, and the text of a list of them.
abbrev pub not_empty : List (Bytes × Bytes) → List (Bytes × Bytes)
not_empty [] = []
not_empty ((key, []) ∷ settings) = not_empty settings
not_empty ((key, c ∷ val) ∷ settings) = (key, c ∷ val) ∷ not_empty settings

abbrev pub spaced : List (Bytes × Bytes) → Bytes
spaced [] = []
spaced ((key, val) ∷ settings) = b' ' ∷ (key ++ b'=' ∷ (val ++ spaced settings))

abbrev pub joined : List (Bytes × Bytes) → Bytes
joined [] = []
joined ((key, val) ∷ settings) = key ++ b'=' ∷ (val ++ spaced settings)

abbrev build_all : Bytes → List (Bytes × Bytes) → Bytes
build_all str [] = str
build_all str ((key, val) ∷ settings) = build_all (build_conn_str str key val) settings

build_all-spaced :
    (c : ℕ) (str : Bytes) (settings : List (Bytes × Bytes))
    → build_all (c ∷ str) settings ≡ (c ∷ str) ++ spaced (not_empty settings)
unfolding build_conn_str append_setting
build_all-spaced c str [] = sym (append-nil _)
build_all-spaced c str ((key, []) ∷ settings) = build_all-spaced c str settings
build_all-spaced c str ((key, d ∷ val) ∷ settings) =
    build_all-spaced c _ settings ∙ simp append_assoc

-- The first key is not empty.
abbrev Keys : List (Bytes × Bytes) → Type 0
Keys = All (λ s. s.0 ≢ [])

build_all-joined :
    (settings : List (Bytes × Bytes))
    → Keys settings
    → build_all [] settings ≡ joined (not_empty settings)
unfolding build_conn_str append_setting
build_all-joined [] h = refl
build_all-joined ((key, []) ∷ settings) h = build_all-joined settings h.1
build_all-joined (([], d ∷ val) ∷ settings) h = absurd (h.0 refl)
build_all-joined ((k ∷ key, d ∷ val) ∷ settings) h =
    build_all-spaced k _ settings ∙ simp append_assoc

abbrev pub settings_of : Database → List (Bytes × Bytes)
settings_of d =
    (codes "host", d.host)
    ∷ (codes "port", d.port)
    ∷ (codes "dbname", d.dbname)
    ∷ (codes "user", d.user)
    ∷ (codes "password", d.password)
    ∷ []

-- The text with which the commands connect to the database is made of the settings that are not empty, in
-- their order, with a space between two of them.
pub connection_lem :
    (config : Config) → connection config ≡ joined (not_empty (settings_of config.database))
unfolding connection db_connection
connection_lem config =
    build_all-joined (settings_of config.database)
      ((λ h. cc), ((λ h. cc), ((λ h. cc), ((λ h. cc), ((λ h. cc), tt)))))
