-- ===== src/Storage/Saving.antt =====
-- Saving a cursor leaves the event table and the cache of host ids in order.
use text.Mathlib.TextEquality.{eq_iff}
use at_protocol_infrastructu.Prelude.{
  ℕ, ◌≡◌, ap, ◌∙◌, some, String, ◌==◌, string_eq, inl, inr, Bool-cases,
}
use at_protocol_infrastructu.Prelude.Result.{Result, ok, err, Result-cases}
use at_protocol_infrastructu.Prelude.Int.{ℤ}
use at_protocol_infrastructu.Storage.Database.{DbError, Postgres, Laws}
use at_protocol_infrastructu.Storage.Stores.{HostIds, save_cursor, save_with}
use at_protocol_infrastructu.Storage.Events.{IsCoherent}

module _ (p : Postgres) (l : Laws p) where
  pub save_cursor-rows :
      (hostname : String) (cursor : ℤ) (s : p.State)
      → l.rows (save_cursor p hostname cursor s).1 ≡ l.rows s
  unfolding save_cursor
  save_cursor-rows hostname cursor s = step (p.upsert_host hostname s).0
    where
      step :
          (r : Result DbError ℕ)
          → l.rows (save_with p (r, (p.upsert_host hostname s).1) cursor).1 ≡ l.rows s
      step (err e) = l.upsert_rows s hostname
      step (ok i) = l.update_rows (p.upsert_host hostname s).1 cursor i ∙ l.upsert_rows s hostname

  -- An upsert gives a host that is there the id that it has.
  upsert-kept :
      (hostname h : String) (i : ℕ) (s : p.State)
      → l.id_of s h ≡ some i
      → l.id_of (p.upsert_host hostname s).1 h ≡ some i
  upsert-kept hostname h i s e = elim (Result-cases (p.upsert_host hostname s).0) [
    | inr (x, q) ↦ l.upsert_failed s hostname h x q ∙ e
    | inl (j, q) ↦ elim (Bool-cases (hostname == h)) [
      | inr other ↦ l.upsert_ids s hostname h j q ∙ rw other e
      | inl here ↦
          let same : hostname ≡ h = (eq_iff hostname h).0 here in
          l.upsert_ids s hostname h j q
          ∙ rw here (ap some (l.upsert_old s hostname j i (rw same e) q))
    ]
  ]

  pub save_cursor-IsCoherent :
      (hostname : String) (cursor : ℤ) (ids : HostIds) (s : p.State)
      → IsCoherent p l ids s
      → IsCoherent p l ids (save_cursor p hostname cursor s).1
  unfolding save_cursor
  save_cursor-IsCoherent hostname cursor ids s c h i e = step (p.upsert_host hostname s).0
    where
      step :
          (r : Result DbError ℕ)
          → l.id_of (save_with p (r, (p.upsert_host hostname s).1) cursor).1 h ≡ some i
      step (err x) = upsert-kept hostname h i s (c h i e)
      step (ok j) =
          l.update_ids (p.upsert_host hostname s).1 cursor j h
          ∙ upsert-kept hostname h i s (c h i e)
