-- ===== src/Storage/Cancelled.antt =====
-- The stores with a context that was cancelled.
use at_protocol_infrastructu.Prelude.{ℕ, ◌≡◌, refl, String, Option-cases, inl, inr, string_eq}
use at_protocol_infrastructu.Prelude.Assoc.{lookup}
use at_protocol_infrastructu.Prelude.Result.{err}
use at_protocol_infrastructu.Prelude.Int.{ℤ}
use at_protocol_infrastructu.Storage.Database.{DbError, wrap, NewEvent, Postgres}
use at_protocol_infrastructu.Storage.Stores.{
  HostIds, store_event, resolve_host, insert_event, save_with, save_cursor,
}

-- What `database/sql` documents of a context that is done: a call returns its error, and the
-- statement is not executed.
pub record IsCancelled (p : Postgres) : Type 0 where
  pub upsert_fails : (h : String) (s : p.State) → (e : DbError) × (p.upsert_host h s ≡ (err e, s))
  pub update_fails :
      (c : ℤ) (i : ℕ) (s : p.State) → (e : DbError) × (p.update_cursor c i s ≡ (err e, s))
  pub insert_fails :
      (n : NewEvent) (s : p.State) → (e : DbError) × (p.insert_event n s ≡ (err e, s))

module _ (p : Postgres) (d : IsCancelled p) where
  -- No event is stored, and the cache is as it was.
  pub store_event-cancelled :
      (hostname : String) (new : ℕ → NewEvent) (ids : HostIds) (s : p.State)
      → (e : DbError) × (store_event p hostname new ids s ≡ (err e, ids, s))
  unfolding store_event resolve_host insert_event
  store_event-cancelled hostname new ids s = elim (Option-cases (lookup hostname ids)) [
    | inr (i, found) ↦
        let (e, q) = d.insert_fails (new i) s in (e, rw (found, store_event) (rw q refl))
    | inl missing ↦
        let (e, q) = d.upsert_fails hostname s in
        (wrap "failed to get host ID" e, rw (missing, store_event) (rw q refl))
  ]

  -- No cursor is saved.
  pub save_cursor-cancelled :
      (hostname : String) (cursor : ℤ) (s : p.State) → (save_cursor p hostname cursor s).1 ≡ s
  unfolding save_cursor save_with
  save_cursor-cancelled hostname cursor s = let (e, q) = d.upsert_fails hostname s in rw q refl
