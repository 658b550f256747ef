-- ===== src/Ingest/Manager/Checkpoints.antt =====
-- Where the cursors that the workers save come from.
use at_protocol_infrastructu.Prelude.{
  suc, ◌%◌, arith, nat_eq, ◌≡◌, refl, ◌∙◌, ◌⊎◌, inl, inr, true, Option, some, List, [], ◌∷◌, String,
  ◌==◌, string_eq, if◌then◌else◌, if_cases, Bool-cases,
}
use text.Mathlib.TextEquality.{eq_iff}
use at_protocol_infrastructu.Prelude.Result.{Result, ok, err}
use at_protocol_infrastructu.Prelude.Int.{ℤ, pos, negsuc}
use at_protocol_infrastructu.Ingest.Event.{Event}
use at_protocol_infrastructu.Ingest.Manager.{
  CursorStore, Manager, is_checkpoint, save_checkpoint, after_handler,
}

-- A number that 100 divides.
abbrev pub IsHundredth : ℤ → Type 0
IsHundredth (pos n) = n % 100 ≡ 0
IsHundredth (negsuc n) = suc n % 100 ≡ 0

pub is_checkpoint-IsHundredth : (z : ℤ) → is_checkpoint z ≡ true → IsHundredth z
unfolding is_checkpoint
is_checkpoint-IsHundredth (pos n) e = ground arith
is_checkpoint-IsHundredth (negsuc n) e = ground arith

-- The sequence number of one of these events, which is the host's, and which 100 divides.
abbrev pub Checkpointed : String → List Event → ℤ → Type 0
Checkpointed h [] c = ⊥
Checkpointed h (e ∷ es) c = ((e.host ≡ h) × IsHundredth e.seq × (e.seq ≡ c)) ⊎ Checkpointed h es c

-- A cursor column is as before or has the number of an event of its host, which 100 divides.
abbrev pub Explained : String → List Event → Option ℤ → Option ℤ → Type 0
Explained h events before after =
    (after ≡ before) ⊎ ((c : ℤ) × (after ≡ some c) × Checkpointed h events c)

module _ {ℓ} {E : Type ℓ} {W : Type 0} (cursor_of : W → String → Option ℤ) where
  -- What a store promises of its cursors: a save that succeeds sets the one of its host and no
  -- other, and one that fails sets none.
  pub record IsCursorStore (store : CursorStore E W) : Type ℓ where
    pub set :
        (h j : String) (c : ℤ) (w : W)
        → (store.save_cursor h c w).0 ≡ ok tt
        → cursor_of (store.save_cursor h c w).1 j ≡ (if h == j then some c else cursor_of w j)
    pub kept :
        (h j : String) (c : ℤ) (w : W) (e : E)
        → (store.save_cursor h c w).0 ≡ err e
        → cursor_of (store.save_cursor h c w).1 j ≡ cursor_of w j

  saved-Explained :
      (store : CursorStore E W) (l : IsCursorStore store) (event : Event) (w : W) (h : String)
      → (r : Result E (Unit {0})) → (store.save_cursor event.host event.seq w).0 ≡ r
      → is_checkpoint event.seq ≡ true
      → Explained h
          (event ∷ [])
          (cursor_of w h)
          (cursor_of (store.save_cursor event.host event.seq w).1 h)
  saved-Explained store l event w h (err e) q c = inl (l.kept event.host h event.seq w e q)
  saved-Explained store l event w h (ok tt) q c = elim (Bool-cases (event.host == h)) [
    | inl same ↦ inr (
      event.seq,
      l.set event.host h event.seq w q ∙ rw same refl,
      inl ((eq_iff event.host h).0 same, is_checkpoint-IsHundredth event.seq c, refl),
    )
    | inr other ↦ inl (l.set event.host h event.seq w q ∙ rw other refl)
  ]

  save_checkpoint-Explained :
      (store : CursorStore E W) (l : IsCursorStore store) (event : Event) (w : W) (h : String)
      → Explained h
          (event ∷ [])
          (cursor_of w h)
          (cursor_of (save_checkpoint (some store) event w) h)
  unfolding save_checkpoint
  save_checkpoint-Explained store l event w h =
      if_cases (λ v. Explained h (event ∷ []) (cursor_of w h) (cursor_of v h))
        (is_checkpoint event.seq) _ _ (λ c. saved-Explained store l event w h _ refl c)
        (λ _. inl refl)

  pub after_handler-Explained :
      (m : Manager) (store : CursorStore E W) (l : IsCursorStore store) (event : Event)
      → (r : Result E (Unit {0})) (w v : W) (h : String) → cursor_of v h ≡ cursor_of w h
      → Explained h
          (event ∷ [])
          (cursor_of w h)
          (cursor_of (after_handler m (some store) event (r, v)).1 h)
  unfolding after_handler
  after_handler-Explained m store l event (err e) w v h same = inl same
  after_handler-Explained m store l event (ok _) w v h same =
      rw (← same) (save_checkpoint-Explained store l event v h)
