-- ===== src/Storage/Cursors.antt =====
-- What the cursor store promises: a cursor that was saved is the one that is read back.
use text.Mathlib.TextEquality.{eq_iff}
use at_protocol_infrastructu.Prelude.{
  ℕ, ◌≡◌, ◌≢◌, refl, ap, ◌∙◌, false, Option, some, String, ◌==◌, string_eq, nat_eq, if◌then◌else◌,
  arith, inl, inr, Bool-cases,
}
use at_protocol_infrastructu.Prelude.Result.{Result, ok, err, Result-cases}
use at_protocol_infrastructu.Prelude.Int.{ℤ}
use at_protocol_infrastructu.Storage.Database.{DbError, no_rows, fault, wrap, Postgres, Laws}
use at_protocol_infrastructu.Storage.Stores.{int_or_zero, get_cursor, save_with, save_cursor}

module _ (p : Postgres) (l : Laws p) where
  -- A read that succeeds returns the cursor column of the host, and 0 where there is no row or no
  -- cursor yet.
  pub get_cursor_lem :
      (hostname : String) (s : p.State) (r : ℤ)
      → get_cursor p hostname s ≡ ok r
      → r ≡ int_or_zero (l.cursor_of s hostname)
  unfolding get_cursor
  get_cursor_lem hostname s r h = read (p.select_cursor hostname s) refl
    where
      read :
          (a : Result DbError (Option ℤ))
          → p.select_cursor hostname s ≡ a
          → r ≡ int_or_zero (l.cursor_of s hostname)
      read (ok c) e = ground (arith, l.cursor_found s hostname c e)
      read (err no_rows) e = ground (arith, l.cursor_missing s hostname e, l.cursor_row s hostname)
      read (err (fault x)) e = ground arith
      read (err (wrap x y)) e = ground arith

  -- The cursor columns after `save_cursor`, on every branch: a save that succeeds writes the host's
  -- cursor and no other; one that fails writes none.
  abbrev pub saved : String → ℤ → p.State → Result DbError (Unit {0}) → String → Option ℤ
  saved hostname cursor s (ok _) j = if hostname == j then some cursor else l.cursor_of s j
  saved hostname cursor s (err _) j = l.cursor_of s j

  update_other :
      (hostname : String) (i : ℕ) (t : p.State) (j : String)
      → l.id_of t hostname ≡ some i
      → (hostname == j) ≡ false
      → l.id_of t j ≢ some i
  update_other hostname i t j h e q =
      ground (arith, l.ids_distinct t hostname j i h q, eq_iff hostname j)

  -- The UPDATE, given the id that the host's row has.
  update_at :
      (hostname : String) (cursor : ℤ) (i : ℕ) (s t : p.State) (j : String)
      → l.id_of t hostname ≡ some i
      → l.cursor_of t j ≡ l.cursor_of s j
      → l.cursor_of (p.update_cursor cursor i t).1 j
        ≡ saved hostname cursor s (p.update_cursor cursor i t).0 j
  update_at hostname cursor i s t j h same = elim (Result-cases (p.update_cursor cursor i t).0) [
    | inr (e, q) ↦ rw q (l.update_failed t cursor i j e q ∙ same)
    | inl (_, q) ↦ elim (Bool-cases (hostname == j)) [
      | inl here ↦
          let k : hostname ≡ j = (eq_iff hostname j).0 here in
          rw q (rw here (l.update_hit t cursor i j q (rw (← k) h)))
      | inr there ↦
          rw q (rw there (l.update_miss t cursor i j (update_other hostname i t j h there) ∙ same))
    ]
  ]

  -- Over a database that keeps the laws, a save that succeeds writes the cursor of its host and no
  -- other; one that fails, in either statement, changes no cursor.
  pub save_cursor_lem :
      (hostname : String) (cursor : ℤ) (s : p.State) (j : String)
      → l.cursor_of (save_cursor p hostname cursor s).1 j
        ≡ saved hostname cursor s (save_cursor p hostname cursor s).0 j
  unfolding save_cursor
  save_cursor_lem hostname cursor s j = with_id (p.upsert_host hostname s).0 refl
    where
      with_id :
          (r : Result DbError ℕ)
          → (p.upsert_host hostname s).0 ≡ r
          → l.cursor_of (save_with p (r, (p.upsert_host hostname s).1) cursor).1 j
            ≡ saved hostname cursor s (save_with p (r, (p.upsert_host hostname s).1) cursor).0 j
      with_id (err e) q = l.upsert_cursors s hostname j
      with_id (ok i) q =
          update_at hostname cursor i s (p.upsert_host hostname s).1 j
            (l.upsert_ids s hostname hostname i q ∙ rw ((eq_iff hostname hostname).1 refl))
            (l.upsert_cursors s hostname j)

  -- Over a database that keeps the laws, a cursor that was saved without an error is the one that
  -- a later read returns, if the read succeeds.
  pub get_cursor-save_cursor :
      (hostname : String) (cursor r : ℤ) (s : p.State)
      → (save_cursor p hostname cursor s).0 ≡ ok tt
      → get_cursor p hostname (save_cursor p hostname cursor s).1 ≡ ok r
      → r ≡ cursor
  get_cursor-save_cursor hostname cursor r s saved_ok read =
      get_cursor_lem hostname (save_cursor p hostname cursor s).1 r read
      ∙ ap int_or_zero (save_cursor_lem hostname cursor s hostname)
      ∙ rw (saved_ok, (eq_iff hostname hostname).1 refl)
