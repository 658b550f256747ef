-- ===== src/Storage/Opening/Laws.antt =====
-- What PostgreSQL documents of the statements that `Migrate` of relay/internal/storage/postgres.go
-- executes.
use at_protocol_infrastructu.Prelude.{
  ◌≡◌, ◌⊎◌, Bool, true, false, ◌&&◌, ◌||◌, List, [], ◌∷◌, ◌++◌, String, ◌==◌, string_eq, nat_eq,
  All, if◌then◌else◌,
}
use at_protocol_infrastructu.Prelude.Result.{ok}
use at_protocol_infrastructu.Ingest.Event.{Bytes}
use at_protocol_infrastructu.Decimal.{codes}
use at_protocol_infrastructu.Storage.Opening.{
  Fact, relation, column, key, sequence, Column, Statement, create_table, create_index,
  create_sequence, Driver,
}

abbrev pub creates : Statement → String
creates (create_table guarded name columns) = name
creates (create_index guarded name table col) = name
creates (create_sequence guarded name start) = name

abbrev pub is_guarded : Statement → Bool
is_guarded (create_table guarded name columns) = guarded
is_guarded (create_index guarded name table col) = guarded
is_guarded (create_sequence guarded name start) = guarded

abbrev pub references : List Column → List Fact
references [] = []
references (c ∷ rest) = c.refers_to ++ references rest

-- What must be there before.
abbrev pub needs : Statement → List Fact
needs (create_table guarded name columns) = references columns
needs (create_index guarded name table col) = column table col ∷ []
needs (create_sequence guarded name start) = []

abbrev pub columns_of : String → List Column → List Fact
columns_of table [] = []
columns_of table (c ∷ rest) =
    let more = column table c.name ∷ columns_of table rest in
    if c.is_key then key table c.name ∷ more else more

-- What is there if the relation was made by the statement.
abbrev pub gives : Statement → List Fact
gives (create_table guarded name columns) = relation name ∷ columns_of name columns
gives (create_index guarded name table col) = relation name ∷ []
gives (create_sequence guarded name start) = relation name ∷ sequence name ∷ []

abbrev pub begins : Bytes → Bytes → Bool
begins [] text = true
begins (b ∷ rest) [] = false
begins (b ∷ rest) (c ∷ text) = b == c && begins rest text

-- Whether a statement may take a name: its own and, for a table, those of the indexes and
-- sequences that its keys and serial columns imply, which begin with its name and a `_`.
abbrev pub takes : Statement → String → Bool
takes (create_table guarded table columns) name =
    table == name || begins (codes table ++ codes "_") (codes name)
takes (create_index guarded index table col) name = index == name
takes (create_sequence guarded seq start) name = seq == name

-- What PostgreSQL documents of the statements, while it answers: one succeeds if what it refers to
-- is there and it has `IF NOT EXISTS` or its name is free; if its name was free, what it gives is
-- there after it; none takes anything away, and a name stays free unless the statement may take it.
pub record DriverLaws (d : Driver) : Type 1 where
  pub Holds : d.Db → Fact → Type 0
  pub Free : d.Db → String → Type 0
  pub exec_ok :
      (s : Statement) (db : d.Db)
      → All (Holds db) (needs s)
      → (is_guarded s ≡ true) ⊎ Free db (creates s)
      → (d.exec s db).0 ≡ ok tt
  pub exec_gives :
      (s : Statement) (db : d.Db)
      → (d.exec s db).0 ≡ ok tt
      → Free db (creates s)
      → All (Holds (d.exec s db).1) (gives s)
  pub exec_keeps : (s : Statement) (db : d.Db) (f : Fact) → Holds db f → Holds (d.exec s db).1 f
  pub exec_free :
      (s : Statement) (db : d.Db) (name : String)
      → takes s name ≡ false
      → Free db name
      → Free (d.exec s db).1 name
