-- ===== src/Storage/Sequence.antt =====
-- The event table stays in the order of its sequence numbers, whatever is stored.
use at_protocol_infrastructu.Prelude.{
  ℕ, List, [], ◌∷◌, ◌++◌, String, inl, inr, All, Option-cases, string_eq,
}
use at_protocol_infrastructu.Prelude.Assoc.{lookup, insert}
use at_protocol_infrastructu.Prelude.Result.{Result, ok, err, Result-cases}
use at_protocol_infrastructu.Prelude.Int.{◌<ℤ◌}
use at_protocol_infrastructu.Storage.Database.{DbError, EventRow, NewEvent, row_of, Postgres, Laws}
use at_protocol_infrastructu.Storage.Stores.{HostIds, store_event, resolve_host, insert_event}

-- The sequence numbers of the rows grow.
abbrev pub IsAscending : List EventRow → Type 0
IsAscending [] = Unit
IsAscending (r ∷ rest) = All (λ o. r.seq <ℤ o.seq) rest × IsAscending rest

All-snoc {ℓ κ} :
    {A : Type ℓ} (P : A → Type κ) (xs : List A) (x : A) → All P xs → P x → All P (xs ++ x ∷ [])
All-snoc P [] x h p = (p, tt)
All-snoc P (y ∷ xs) x h p = (h.0, All-snoc P xs x h.1 p)

snoc-IsAscending :
    (rs : List EventRow) (r : EventRow)
    → All (λ o. o.seq <ℤ r.seq) rs
    → IsAscending rs
    → IsAscending (rs ++ r ∷ [])
snoc-IsAscending [] r below a = (tt, tt)
snoc-IsAscending (o ∷ rs) r below a =
    (All-snoc _ rs r a.0 below.0, snoc-IsAscending rs r below.1 a.1)

module _ (p : Postgres) (l : Laws p) where
  insert-IsAscending :
      (e : NewEvent) (ids : HostIds) (t : p.State)
      → IsAscending (l.rows t)
      → IsAscending (l.rows (insert_event p e ids t).2)
  unfolding insert_event
  insert-IsAscending e ids t a = elim (Result-cases (p.insert_event e t).0) [
    | inr (x, q) ↦ rw (l.insert_failed t e x q) a
    | inl (seq, q) ↦
        let (now, rows) = l.insert_rows t e seq q in
        rw rows (snoc-IsAscending (l.rows t) (row_of e seq now) (l.insert_seq t e seq q) a)
  ]

  pub store_event-IsAscending :
      (hostname : String) (new : ℕ → NewEvent) (ids : HostIds) (s : p.State)
      → IsAscending (l.rows s)
      → IsAscending (l.rows (store_event p hostname new ids s).2)
  unfolding store_event
  store_event-IsAscending hostname new ids s a = elim (Option-cases (lookup hostname ids)) [
    | inr (i, e) ↦ rw (e, store_event) (insert-IsAscending (new i) ids s a)
    | inl e ↦ rw (e, store_event) (miss (p.upsert_host hostname s).0)
  ]
    where
      t : p.State
      t = (p.upsert_host hostname s).1

      same : IsAscending (l.rows t)
      same = rw (l.upsert_rows s hostname) a

      miss :
          (r : Result DbError ℕ) → IsAscending (l.rows (resolve_host p (r, t) hostname new ids).2)
      miss (err x) = same
      miss (ok i) = insert-IsAscending (new i) (insert hostname i ids) t same
