-- ===== src/Storage/Opening/Relations.antt =====
-- A database that is a list of facts, behind a service that obeys the statements.
use text.Mathlib.TextEquality.{eq_iff}
use at_protocol_infrastructu.Prelude.{
  ◌≡◌, inl, inr, refl, true, false, ◌||◌, List, [], ◌∷◌, ◌++◌, String, string_eq, nat_eq, All,
  arith, if◌then◌else◌, Bool-cases,
}
use at_protocol_infrastructu.Prelude.Result.{ok, err}
use at_protocol_infrastructu.Storage.Opening.{
  Fact, relation, column, key, sequence, Column, Statement, create_table, create_index,
  create_sequence, Driver, migrations,
}
use at_protocol_infrastructu.Storage.Opening.Migrating.{listed, same_fact, covered, IsReady}
use at_protocol_infrastructu.Storage.Opening.Laws.{
  creates, is_guarded, needs, gives, columns_of, takes, DriverLaws,
}

-- A statement that lacks something fails, and so does one without `IF NOT EXISTS` for a name that
-- is taken.
abbrev pub relations : Driver
relations = record {
  Db = List Fact;
  open_db = λ url. ok [];
  set_max_open_conns = λ k db. db;
  set_max_idle_conns = λ k db. db;
  set_conn_max_lifetime = λ t db. db;
  ping = λ db. (ok tt, db);
  exec = λ s db.
      if covered db (needs s)
      then if listed db (relation (creates s))
        then if is_guarded s then (ok tt, db) else (err "relation already exists", db)
        else (ok tt, gives s ++ db)
      else (err "relation does not exist", db);
}

abbrev pub Holds : List Fact → Fact → Type 0
Holds db f = listed db f ≡ true

abbrev pub Free : List Fact → String → Type 0
Free db name = listed db (relation name) ≡ false

All-covered : (db facts : List Fact) → All (Holds db) facts → covered db facts ≡ true
All-covered db [] h = refl
All-covered db (f ∷ rest) h = ground (arith, All-covered db rest)

same_self : (f : Fact) → same_fact f f ≡ true
same_self (relation a) = (eq_iff a a).1 refl
same_self (column t a) = ground (arith, (eq_iff t t).1 refl, (eq_iff a a).1 refl)
same_self (key t a) = ground (arith, (eq_iff t t).1 refl, (eq_iff a a).1 refl)
same_self (sequence a) = (eq_iff a a).1 refl

listed-append : (xs ys : List Fact) (f : Fact) → listed (xs ++ ys) f ≡ (listed xs f || listed ys f)
listed-append [] ys f = refl
listed-append (x ∷ xs) ys f = ground (arith, listed-append xs ys f)

-- Facts that are all listed.
All-listed :
    (facts db : List Fact)
    → ((f : Fact) → listed facts f ≡ true → listed db f ≡ true)
    → All (Holds db) facts
All-listed [] db sub = tt
All-listed (f ∷ rest) db sub =
    (sub f (ground (arith, same_self f)), All-listed rest db (λ g h. sub g (ground arith)))

no_relation :
    (table : String) (columns : List Column) (name : String)
    → listed (columns_of table columns) (relation name) ≡ false
no_relation table [] name = refl
no_relation table (c ∷ rest) name = ground (arith, no_relation table rest name)

free_given :
    (s : Statement) (name : String)
    → takes s name ≡ false
    → listed (gives s) (relation name) ≡ false
free_given (create_table guarded table columns) name e =
    ground (arith, no_relation table columns name)
free_given (create_index guarded index table col) name e = ground arith
free_given (create_sequence guarded seq start) name e = ground arith

pub relations-DriverLaws : DriverLaws relations
relations-DriverLaws = record {
  Holds = Holds;
  Free = Free;
  exec_ok = λ s db h g. elim g [
    | inl guarded ↦ ground (arith, All-covered db (needs s) h)
    | inr free ↦ ground (arith, All-covered db (needs s) h)
  ];
  exec_gives = λ s db e free. elim (Bool-cases (covered db (needs s))) [
    | inl there ↦
        rw (there, free)
          (All-listed (gives s) (gives s ++ db)
            (λ f h. ground (arith, listed-append (gives s) db f)))
    | inr missing ↦ absurd (ground arith)
  ];
  exec_keeps = λ s db f h. ground (arith, listed-append (gives s) db f);
  exec_free = λ s db name e free.
      ground (arith, listed-append (gives s) db (relation name), free_given s name e);
}

-- A database with nothing in it, and one that has the sequence of the migrations already.
pub nothing-IsReady : All (IsReady relations relations-DriverLaws []) migrations
unfolding relations-DriverLaws
nothing-IsReady =
    (inl refl, (inl refl, (inl refl, (inl refl, (inl refl, (inl refl, (inl refl, tt)))))))

abbrev pub partly : List Fact
partly = relation "event_seq" ∷ sequence "event_seq" ∷ []

pub partly-IsReady : All (IsReady relations relations-DriverLaws partly) migrations
unfolding relations-DriverLaws
partly-IsReady = (
  inl refl,
  (inl refl, (inr (refl, (refl, tt)), (inl refl, (inl refl, (inl refl, (inl refl, tt)))))),
)
