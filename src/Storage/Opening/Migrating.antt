-- ===== src/Storage/Opening/Migrating.antt =====
-- The migrations stand in an order in which each finds what it refers to.
use text.Mathlib.TextEquality.{eq_iff}
use at_protocol_infrastructu.Prelude.{
  ◌≡◌, ◌⊎◌, refl, ap, ◌∙◌, sym, subst, Bool, true, false, not, ◌&&◌, ◌||◌, List, [], ◌∷◌, ◌++◌,
  String, ◌==◌, string_eq, nat_eq, All, All-map, arith, inl, inr, Bool-cases,
}
use at_protocol_infrastructu.Prelude.Result.{Result, ok, err}
use at_protocol_infrastructu.Storage.Opening.{
  Fact, relation, column, key, sequence, Statement, migrations, Driver, Failure, after_exec,
  exec_all, migrate,
}
use at_protocol_infrastructu.Storage.Opening.Laws.{
  creates, is_guarded, needs, gives, takes, DriverLaws,
}

abbrev pub same_fact : Fact → Fact → Bool
same_fact (relation a) (relation b) = a == b
same_fact (column t a) (column u b) = t == u && a == b
same_fact (key t a) (key u b) = t == u && a == b
same_fact (sequence a) (sequence b) = a == b
same_fact _ _ = false

abbrev pub listed : List Fact → Fact → Bool
listed [] f = false
listed (g ∷ rest) f = same_fact g f || listed rest f

-- Each of the facts is listed.
abbrev pub covered : List Fact → List Fact → Bool
covered known [] = true
covered known (f ∷ rest) = listed known f && covered known rest

-- No later statement's name is taken by the statement.
abbrev apart : Statement → List Statement → Bool
apart s [] = true
apart s (r ∷ rest) = not (takes s (creates r)) && apart s rest

-- Each statement has `IF NOT EXISTS` and needs only what those before it give, and leaves the names
-- of those behind it.
unfoldable pub ordered : List Fact → List Statement → Bool
ordered known [] = true
ordered known (s ∷ rest) =
    is_guarded s && covered known (needs s) && apart s rest && ordered (gives s ++ known) rest

module _ (d : Driver) where
  after_ok :
      (x : Result String (Unit {0}) × d.Db) (f : d.Db → Result Failure (Unit {0}) × d.Db)
      → x.0 ≡ ok tt
      → after_exec d x f ≡ f x.1
  unfolding after_exec
  after_ok (ok _, db) f e = refl
  after_ok (err x, db) f e = absurd (cc)

module _ (d : Driver) (l : DriverLaws d) where
  -- The relation of a statement is missing, or it is there as the statement makes it.
  abbrev pub IsReady : d.Db → Statement → Type 0
  IsReady db s = l.Free db (creates s) ⊎ All (l.Holds db) (gives s)

  same_fact-eq : (f g : Fact) → same_fact f g ≡ true → f ≡ g
  same_fact-eq (relation a) (relation b) e = ap relation ((eq_iff a b).0 e)
  same_fact-eq (column t a) (column u b) e =
      let p : (t == u) ≡ true = ground arith in
      let q : (a == b) ≡ true = ground arith in
      ap (λ x. column x a) ((eq_iff t u).0 p) ∙ ap (column u) ((eq_iff a b).0 q)
  same_fact-eq (key t a) (key u b) e =
      let p : (t == u) ≡ true = ground arith in
      let q : (a == b) ≡ true = ground arith in
      ap (λ x. key x a) ((eq_iff t u).0 p) ∙ ap (key u) ((eq_iff a b).0 q)
  same_fact-eq (sequence a) (sequence b) e = ap sequence ((eq_iff a b).0 e)
  same_fact-eq (relation a) (column u b) e = absurd (cc)
  same_fact-eq (relation a) (key u b) e = absurd (cc)
  same_fact-eq (relation a) (sequence b) e = absurd (cc)
  same_fact-eq (column t a) (relation b) e = absurd (cc)
  same_fact-eq (column t a) (key u b) e = absurd (cc)
  same_fact-eq (column t a) (sequence b) e = absurd (cc)
  same_fact-eq (key t a) (relation b) e = absurd (cc)
  same_fact-eq (key t a) (column u b) e = absurd (cc)
  same_fact-eq (key t a) (sequence b) e = absurd (cc)
  same_fact-eq (sequence a) (relation b) e = absurd (cc)
  same_fact-eq (sequence a) (column u b) e = absurd (cc)
  same_fact-eq (sequence a) (key u b) e = absurd (cc)

  contained :
      (db : d.Db) (known : List Fact) (f : Fact)
      → All (l.Holds db) known
      → listed known f ≡ true
      → l.Holds db f
  contained db [] f h e = absurd (cc)
  contained db (x ∷ xs) f h e = elim (Bool-cases (same_fact x f)) [
    | inl here ↦ subst (l.Holds db) (same_fact-eq x f here) h.0
    | inr other ↦ contained db xs f h.1 (ground arith)
  ]

  All-covered :
      (db : d.Db) (known facts : List Fact)
      → All (l.Holds db) known
      → covered known facts ≡ true
      → All (l.Holds db) facts
  All-covered db known [] h e = tt
  All-covered db known (f ∷ rest) h e =
      (contained db known f h (ground arith), All-covered db known rest h (ground arith))

  All-append :
      (db : d.Db) (xs ys : List Fact)
      → All (l.Holds db) xs
      → All (l.Holds db) ys
      → All (l.Holds db) (xs ++ ys)
  All-append db [] ys a b = b
  All-append db (x ∷ xs) ys a b = (a.0, All-append db xs ys a.1 b)

  exec-keeps :
      (s : Statement) (db : d.Db) (facts : List Fact)
      → All (l.Holds db) facts
      → All (l.Holds (d.exec s db).1) facts
  exec-keeps s db facts = All-map facts (λ f x. l.exec_keeps s db f x)

  IsReady-after :
      (s : Statement) (db : d.Db) (rest : List Statement)
      → apart s rest ≡ true
      → All (IsReady db) rest
      → All (IsReady (d.exec s db).1) rest
  IsReady-after s db [] e h = tt
  IsReady-after s db (r ∷ rest) e (h, more) = (
    elim h [
      | inl free ↦ inl (l.exec_free s db (creates r) (ground arith) free)
      | inr given ↦ inr (exec-keeps s db (gives r) given)
    ],
    IsReady-after s db rest (ground arith) more,
  )

  given_after :
      (s : Statement) (db : d.Db)
      → (d.exec s db).0 ≡ ok tt
      → IsReady db s
      → All (l.Holds (d.exec s db).1) (gives s)
  given_after s db e (inl free) = l.exec_gives s db e free
  given_after s db e (inr given) = exec-keeps s db (gives s) given

  -- What all of the statements give.
  abbrev pub Given : d.Db → List Statement → Type 0
  Given db ss = All (λ s. All (l.Holds db) (gives s)) ss

  exec_all-Given :
      (ss : List Statement) (known : List Fact) (db : d.Db)
      → All (l.Holds db) known
      → All (IsReady db) ss
      → ordered known ss ≡ true
      → ((exec_all d ss db).0 ≡ ok tt)
        × ((f : Fact) → l.Holds db f → l.Holds (exec_all d ss db).1 f)
        × Given (exec_all d ss db).1 ss
  unfolding exec_all ordered
  exec_all-Given [] known db h ready e = (refl, (λ f x. x), tt)
  exec_all-Given (s ∷ rest) known db h (now, later) e =
      let done : (d.exec s db).0 ≡ ok tt =
        l.exec_ok s db (All-covered db known (needs s) h (ground arith)) (inl (ground arith)) in
      let given = given_after s db done now in
      let (r, keeps, m) =
        exec_all-Given rest (gives s ++ known) (d.exec s db).1
          (All-append (d.exec s db).1 (gives s) known given (exec-keeps s db known h))
          (IsReady-after s db rest (ground arith) later) (ground arith) in
      subst
        (λ y.
          (y.0 ≡ ok tt)
          × ((f : Fact) → l.Holds db f → l.Holds y.1 f)
          × (All (l.Holds y.1) (gives s) × Given y.1 rest))
        (sym (after_ok d (d.exec s db) (exec_all d rest) done))
        (r, (λ f x. keeps f (l.exec_keeps s db f x)), (All-map (gives s) keeps given, m))

  -- While the service answers and keeps the laws of its statements, on a database in which each
  -- relation of the migrations is missing with its name free, or is there with all that its
  -- statement gives it: the migrations succeed and take nothing away, and afterwards every
  -- relation is there with its columns, keys or sequence.
  pub migrate-Given :
      (db : d.Db)
      → All (IsReady db) migrations
      → ((migrate d db).0 ≡ ok tt)
        × ((f : Fact) → l.Holds db f → l.Holds (migrate d db).1 f)
        × Given (migrate d db).1 migrations
  unfolding migrate ordered
  migrate-Given db ready = exec_all-Given migrations [] db tt ready refl
