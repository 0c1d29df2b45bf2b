-- ===== src/Db/Session.antt =====
-- A connection of a command: the statements that it sends, in their order, to the first fault.
use osmdbt.Common.{List, [], ◌∷◌, ◌++◌, Result, ok, err}
use osmdbt.Db.{Query, Rows}

pub record Asked (A : Type 0) : Type 0 where
  pub queries : List Query
  pub result : Result A

-- The database: the rows of its answer, or the fault that libpqxx throws.
abbrev pub Answers : Type 0
Answers = Query → Result Rows

abbrev pub ask : Answers → Query → Asked Rows
ask answers q = record { queries = q ∷ []; result = answers q }

-- What is computed without the database.
abbrev pub compute : {A : Type 0} → Result A → Asked A
compute r = record { queries = []; result = r }

abbrev then_ask : {A B : Type 0} → List Query → Result A → (A → Asked B) → Asked B
then_ask queries (err fault) rest = record { queries = queries; result = err fault }
then_ask queries (ok a) rest = record {
  queries = queries ++ (rest a).queries;
  result = (rest a).result;
}

infixl 5 ◌>>=◌
abbrev pub ◌>>=◌ : {A B : Type 0} → Asked A → (A → Asked B) → Asked B
first >>= rest = then_ask first.queries first.result rest
