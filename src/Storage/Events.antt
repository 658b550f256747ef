-- ===== src/Storage/Events.antt =====
-- What the event store promises: rows are appended under growing sequence numbers, and the cache of
-- host ids agrees with the table.
use text.Mathlib.TextEquality.{eq_iff}
use at_protocol_infrastructu.Prelude.{
  ℕ, ◌≡◌, refl, ◌∙◌, some, [], ◌∷◌, ◌++◌, String, string_eq, nat_eq, arith, inl, inr, Option-cases,
}
use at_protocol_infrastructu.Prelude.Assoc.{lookup, insert, lookup-insert}
use at_protocol_infrastructu.Prelude.Result.{Result, ok, err}
use at_protocol_infrastructu.Prelude.Int.{ℤ}
use at_protocol_infrastructu.Ingest.Event.{Time}
use at_protocol_infrastructu.Storage.Database.{DbError, NewEvent, row_of, Postgres, Laws}
use at_protocol_infrastructu.Storage.Stores.{HostIds, resolve_host, insert_event, store_event}

module _ (p : Postgres) (l : Laws p) where
  -- Every cached id is the one in the table.
  abbrev pub IsCoherent : HostIds → p.State → Type 0
  IsCoherent ids s = (h : String) (i : ℕ) → lookup h ids ≡ some i → l.id_of s h ≡ some i

  -- What one store leaves: the cache coherent, and on success one more row, with the sequence
  -- number that is returned and the id of the host; on an error no row more.
  pub record Stored (hostname : String) (new : ℕ → NewEvent) (s : p.State)
      (r : Result DbError ℤ × HostIds × p.State) : Type 0 where
    pub coherent : IsCoherent r.1 r.2
    pub added :
        (q : ℤ)
        → r.0 ≡ ok q
        → (i : ℕ) × (now : Time) × (l.id_of r.2 hostname ≡ some i)
          × (l.rows r.2 ≡ l.rows s ++ row_of (new i) q now ∷ [])
    pub unchanged : (e : DbError) → r.0 ≡ err e → l.rows r.2 ≡ l.rows s

  insert-Stored :
      (hostname : String) (new : ℕ → NewEvent) (ids : HostIds) (s t : p.State) (i : ℕ)
      → IsCoherent ids t
      → l.id_of t hostname ≡ some i
      → l.rows t ≡ l.rows s
      → Stored hostname new s (insert_event p (new i) ids t)
  unfolding insert_event
  insert-Stored hostname new ids s t i c h same = record {
    coherent = λ g j q. l.insert_ids t (new i) g ∙ c g j q;
    added = λ q e.
        let (now, rows) = l.insert_rows t (new i) q e in
        (i, now, l.insert_ids t (new i) hostname ∙ h, rw (← same) rows);
    unchanged = λ e x. l.insert_failed t (new i) e x ∙ same;
  }

  -- Over a database that keeps the laws of its statements, and from a cache of host ids that
  -- agrees with the table, storing an event leaves the cache in agreement; on success there is
  -- exactly one more row, with the returned number and the id of the host; on an error there is no
  -- row more.
  pub store_event-Stored :
      (hostname : String) (new : ℕ → NewEvent) (ids : HostIds) (s : p.State)
      → IsCoherent ids s
      → Stored hostname new s (store_event p hostname new ids s)
  unfolding store_event
  store_event-Stored hostname new ids s c = elim (Option-cases (lookup hostname ids)) [
    | inr (i, e) ↦
        rw (e, store_event) (insert-Stored hostname new ids s s i c (c hostname i e) refl)
    | inl e ↦ rw (e, store_event) (miss (p.upsert_host hostname s).0 refl)
  ]
    where
      t : p.State
      t = (p.upsert_host hostname s).1

      kept : (i : ℕ) → (p.upsert_host hostname s).0 ≡ ok i → IsCoherent (insert hostname i ids) t
      kept i q h j e =
          ground (arith, l.upsert_ids s hostname h i q, lookup-insert hostname h i ids, c h j)

      miss :
          (r : Result DbError ℕ)
          → (p.upsert_host hostname s).0 ≡ r
          → Stored hostname new s (resolve_host p (r, t) hostname new ids)
      miss (err x) q = record {
        coherent = λ h j e. l.upsert_failed s hostname h x q ∙ c h j e;
        added = λ z e. cc;
        unchanged = λ y e. l.upsert_rows s hostname;
      }
      miss (ok i) q =
          insert-Stored hostname new (insert hostname i ids) s t i (kept i q)
            (l.upsert_ids s hostname hostname i q ∙ rw ((eq_iff hostname hostname).1 refl))
            (l.upsert_rows s hostname)

  -- Storing an event changes no cursor, whether it succeeds or not.
  pub store_event-cursors :
      (hostname : String) (new : ℕ → NewEvent) (ids : HostIds) (s : p.State) (h : String)
      → l.cursor_of (store_event p hostname new ids s).2 h ≡ l.cursor_of s h
  unfolding store_event insert_event
  store_event-cursors hostname new ids s h = elim (Option-cases (lookup hostname ids)) [
    | inr (i, e) ↦ rw (e, store_event) (l.insert_cursors s (new i) h)
    | inl e ↦ rw (e, store_event) (miss (p.upsert_host hostname s).0)
  ]
    where
      t : p.State
      t = (p.upsert_host hostname s).1

      miss :
          (r : Result DbError ℕ)
          → l.cursor_of (resolve_host p (r, t) hostname new ids).2 h ≡ l.cursor_of s h
      miss (err x) = l.upsert_cursors s hostname h
      miss (ok i) = l.insert_cursors t (new i) h ∙ l.upsert_cursors s hostname h
