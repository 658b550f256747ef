-- ===== src/Storage/Memory.antt =====
-- Tables in memory that have the laws of the database service: a host's id is its place in the
-- table, and an event's sequence number its place among the events, so both are distinct.
use text.Mathlib.TextEquality.{eq_iff}
use at_protocol_infrastructu.Prelude.{
  ℕ, zero, suc, ◌+◌, ◌≡◌, ◌≢◌, refl, ap, subst, ◌∙◌, Option, none, some, List, [], ◌∷◌, ◌++◌,
  String, ◌==◌, string_eq, nat_eq, if◌then◌else◌, arith, take, select, length, All,
}
use at_protocol_infrastructu.Prelude.Result.{Result, ok, err}
use at_protocol_infrastructu.Prelude.Int.{ℤ, pos, ltb_ℤ, ◌<ℤ◌}
use at_protocol_infrastructu.Storage.Database.{
  DbError, no_rows, EventRow, NewEvent, row_of, Postgres, Laws,
}

abbrev pub Hosts : Type 0
Hosts = List (String × Option ℤ)

pub record Tables : Type 0 where
  pub hosts : Hosts
  pub events : List NewEvent

unfoldable pub find : String → Hosts → Option ℕ
find h [] = none
find h ((j, c) ∷ m) =
    let rest = find h m in
    if j == h then some 0 else elim rest [ none ↦ none | some i ↦ some (suc i) ]

unfoldable pub cursor_at : String → Hosts → Option ℤ
cursor_at h [] = none
cursor_at h ((j, c) ∷ m) = if j == h then c else cursor_at h m

unfoldable pub set_cursor : ℕ → ℤ → Hosts → Hosts
set_cursor i c [] = []
set_cursor zero c ((j, d) ∷ m) = (j, some c) ∷ m
set_cursor (suc i) c ((j, d) ∷ m) = (j, d) ∷ set_cursor i c m

unfoldable pub add_host : String → Hosts → Option ℕ → ℕ × Hosts
add_host h m (some i) = (i, m)
add_host h m none = (length m, m ++ (h, none) ∷ [])

unfoldable pub numbered : ℕ → List NewEvent → List EventRow
numbered k [] = []
numbered k (e ∷ rest) = row_of e (pos k) 0 ∷ numbered (suc k) rest

pub find_distinct :
    (h j : String) (m : Hosts) (i : ℕ) → find h m ≡ some i → find j m ≡ some i → h ≡ j
unfolding find
find_distinct h j [] i p q = cc
find_distinct h j ((k, c) ∷ m) zero p q = ground (arith, eq_iff k h, eq_iff k j)
find_distinct h j ((k, c) ∷ m) (suc i) p q = find_distinct h j m i (ground arith) (ground arith)

find-append :
    (h j : String) (m : Hosts)
    → find j (m ++ (h, none) ∷ [])
      ≡ elim (find j m) [ some i ↦ some i | none ↦ if h == j then some (length m) else none ]
unfolding find
find-append h j [] = ground arith
find-append h j ((k, c) ∷ m) = ground (arith, find-append h j m)

cursor_at-append : (h j : String) (m : Hosts) → cursor_at j (m ++ (h, none) ∷ []) ≡ cursor_at j m
unfolding cursor_at
cursor_at-append h j [] = ground arith
cursor_at-append h j ((k, c) ∷ m) = ground (arith, cursor_at-append h j m)

find-set_cursor : (j : String) (i : ℕ) (c : ℤ) (m : Hosts) → find j (set_cursor i c m) ≡ find j m
unfolding find set_cursor
find-set_cursor j i c [] = refl
find-set_cursor j zero c ((k, d) ∷ m) = refl
find-set_cursor j (suc i) c ((k, d) ∷ m) = ground (arith, find-set_cursor j i c m)

set_cursor_hit :
    (j : String) (i : ℕ) (c : ℤ) (m : Hosts)
    → find j m ≡ some i
    → cursor_at j (set_cursor i c m) ≡ some c
unfolding find set_cursor cursor_at
set_cursor_hit j i c [] h = cc
set_cursor_hit j zero c ((k, d) ∷ m) h = ground arith
set_cursor_hit j (suc i) c ((k, d) ∷ m) h = ground (arith, set_cursor_hit j i c m)

set_cursor_miss :
    (j : String) (i : ℕ) (c : ℤ) (m : Hosts)
    → find j m ≢ some i
    → cursor_at j (set_cursor i c m) ≡ cursor_at j m
unfolding find set_cursor cursor_at
set_cursor_miss j i c [] h = refl
set_cursor_miss j zero c ((k, d) ∷ m) h = ground (arith, h)
set_cursor_miss j (suc i) c ((k, d) ∷ m) h = ground (arith, h, set_cursor_miss j i c m)

pub cursor_at_missing : (j : String) (m : Hosts) → find j m ≡ none → cursor_at j m ≡ none
unfolding find cursor_at
cursor_at_missing j [] h = refl
cursor_at_missing j ((k, d) ∷ m) h = ground (arith, cursor_at_missing j m)

numbered-append :
    (k : ℕ) (es : List NewEvent) (e : NewEvent)
    → numbered k (es ++ e ∷ []) ≡ numbered k es ++ row_of e (pos (k + length es)) 0 ∷ []
unfolding numbered
numbered-append k [] e = ap (λ n. row_of e (pos n) 0 ∷ []) (omega arith)
numbered-append k (x ∷ es) e = ap (◌∷◌ (row_of x (pos k) 0)) (
    numbered-append (suc k) es e
    ∙ ap (λ n. numbered (suc k) es ++ row_of e (pos n) 0 ∷ []) (omega arith))

numbered_below :
    (k : ℕ) (es : List NewEvent) → All (λ r. r.seq <ℤ pos (k + length es)) (numbered k es)
unfolding numbered
numbered_below k [] = tt
numbered_below k (x ∷ es) = (
  omega arith,
  let e : suc k + length es ≡ k + suc (length es) = omega arith in
      subst (λ n. All (λ r. r.seq <ℤ pos n) (numbered (suc k) es)) e (numbered_below (suc k) es),
)

-- The number that an insert returns.
returned : {m : ℕ} {q : ℤ} → ◌≡◌ {A = Result DbError ℤ} (ok (pos m)) (ok q) → pos m ≡ q
returned h = ground arith

abbrev pub memory : Postgres
memory = record {
  State = Tables;
  upsert_host =
      λ h s. let (i, m) = add_host h s.hosts (find h s.hosts) in (ok i, record s { hosts = m });
  update_cursor = λ c i s. (ok tt, record s { hosts = set_cursor i c s.hosts });
  select_cursor =
      λ h s. elim (find h s.hosts) [ none ↦ err no_rows | some _ ↦ ok (cursor_at h s.hosts) ];
  insert_event = λ e s. (ok (pos (1 + length s.events)), record s { events = s.events ++ e ∷ [] });
  select_events = λ c n s. ok (take n (select (λ r. ltb_ℤ c r.seq) (numbered 1 s.events)));
  last_value = λ s. ok (pos (length s.events));
}

pub memory-Laws : Laws memory
unfolding add_host
memory-Laws = record {
  id_of = λ s h. find h s.hosts;
  cursor_of = λ s h. cursor_at h s.hosts;
  rows = λ s. numbered 1 s.events;
  ids_distinct = λ s h j i. find_distinct h j s.hosts i;
  upsert_ids = λ s h j i e. ground (arith, find-append h j s.hosts, eq_iff h j);
  upsert_old = λ s h i j e q. ground arith;
  upsert_cursors = λ s h j. ground (arith, cursor_at-append h j s.hosts);
  upsert_rows = λ s h. refl;
  upsert_failed = λ s h j e q. cc;
  update_ids = λ s c i j. find-set_cursor j i c s.hosts;
  update_hit = λ s c i j e h. set_cursor_hit j i c s.hosts h;
  update_miss = λ s c i j h. set_cursor_miss j i c s.hosts h;
  update_failed = λ s c i j e q. cc;
  update_rows = λ s c i. refl;
  cursor_found = λ s h c e. ground arith;
  cursor_missing = λ s h e. ground arith;
  cursor_row = λ s h e. cursor_at_missing h s.hosts e;
  insert_ids = λ s e j. refl;
  insert_cursors = λ s e j. refl;
  insert_rows = λ s e q h. (
    0,
    numbered-append 1 s.events e ∙ ap (λ z. numbered 1 s.events ++ row_of e z 0 ∷ []) (returned h),
  );
  insert_seq = λ s e q h.
      subst (λ z. All (λ r. r.seq <ℤ z) (numbered 1 s.events)) (returned h)
        (numbered_below 1 s.events);
  insert_failed = λ s e x q. cc;
  select_lem = λ s c n rs h. ground arith;
}

pub memory-rows : (s : Tables) → memory-Laws.rows s ≡ numbered 1 s.events
unfolding memory-Laws
memory-rows s = refl
