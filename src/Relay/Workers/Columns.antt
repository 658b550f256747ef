-- ===== src/Relay/Workers/Columns.antt =====
-- The cursor columns over the parts of a round: a store leaves them, and the end of a round saves
-- the number of its event or none.
use at_protocol_infrastructu.Prelude.{
  ◌≡◌, refl, ap, ◌∙◌, subst, Option, none, some, List, [], ◌∷◌, String, All, nat_eq, string_eq, inl,
  inr, if_cases,
}
use at_protocol_infrastructu.Prelude.Result.{ok}
use at_protocol_infrastructu.Prelude.Int.{ℤ}
use at_protocol_infrastructu.Ingest.Event.{Event}
use at_protocol_infrastructu.Ingest.Manager.{is_checkpoint, after_handler, save_checkpoint}
use at_protocol_infrastructu.Ingest.Manager.Checkpoints.{
  IsCursorStore, IsHundredth, Explained, Checkpointed, after_handler-Explained,
}
use at_protocol_infrastructu.Verify.{Indigo}
use at_protocol_infrastructu.Storage.Database.{Postgres, Laws}
use at_protocol_infrastructu.Storage.Stores.{HostIds}
use at_protocol_infrastructu.Storage.Events.{store_event-cursors}
use at_protocol_infrastructu.Storage.Cursors.{save_cursor_lem, saved}
use at_protocol_infrastructu.Relay.{App, row_for, store, recorded}
use at_protocol_infrastructu.Relay.Workers.{
  Phase, in_hand, holding, handed_on, Pool, app_cursors, cursors,
}

-- The event of a worker in its round.
abbrev pub event_in : Phase → Event
event_in (in_hand event) = event
event_in (holding event seq) = event
event_in (handed_on event) = event

-- Among these events, if 100 divides its number.
abbrev pub Counted : List Event → Event → Type 0
Counted events e = IsHundredth e.seq → Checkpointed e.host events e.seq

All-later : (x : Event) (xs es : List Event) → All (Counted xs) es → All (Counted (x ∷ xs)) es
All-later x xs [] a = tt
All-later x xs (e ∷ es) a = (λ c. inr (a.0 c), All-later x xs es a.1)

pub All-own : (events : List Event) → All (Counted events) events
All-own [] = tt
All-own (e ∷ es) = (λ c. inl (refl, c, refl), All-later e es es (All-own es))

-- One more round, with an event among these.
pub explained :
    (h : String) (events : List Event) (e : Event) (x y z : Option ℤ)
    → Counted events e
    → Explained h events x y
    → Explained h (e ∷ []) y z
    → Explained h events x z
explained h events e x y z n (inl p) (inl q) = inl (q ∙ p)
explained h events e x y z n (inr (c, p, k)) (inl q) = inr (c, q ∙ p, k)
explained h events e x y z n a (inr (c, p, inl (host, is, seq))) = inr (
  c,
  p,
  subst (λ w. Checkpointed h events w) seq (subst (λ j. Checkpointed j events e.seq) host (n is)),
)
explained h events e x y z n a (inr (c, p, inr k)) = elim k [ ]

module _ (p : Postgres) (i : Indigo) (l : Laws p) where
  -- The cursor column of a host.
  abbrev pub column : App p i → String → Option ℤ
  column a h = l.cursor_of a.db h

  app_cursors-IsCursorStore : IsCursorStore column (app_cursors p i)
  unfolding app_cursors
  app_cursors-IsCursorStore = record {
    set = λ h j c w e. save_cursor_lem p l h c w.db j ∙ ap (λ r. saved p l h c w.db r j) e;
    kept = λ h j c w x e. save_cursor_lem p l h c w.db j ∙ ap (λ r. saved p l h c w.db r j) e;
  }

  pub store-column :
      (a : App p i) (event : Event) (cache : Option HostIds) (h : String)
      → column (store p i a event cache).1 h ≡ column a h
  unfolding store recorded
  store-column a event none h = refl
  store-column a event (some ids) h = store_event-cursors p l event.host (row_for event) ids a.db h

  pub store-firehose :
      (a : App p i) (event : Event) (cache : Option HostIds)
      → (store p i a event cache).1.firehose ≡ a.firehose
  unfolding store recorded
  store-firehose a event none = refl
  store-firehose a event (some ids) = refl

  saves-firehose :
      (event : Event) (a : App p i)
      → ((app_cursors p i).save_cursor event.host event.seq a).1.firehose ≡ a.firehose
  unfolding app_cursors
  saves-firehose event a = refl

  -- What the end of a round leaves alone, and what it saves.
  pub after_handler-column :
      (q : Pool p i) (event : Event) (cache : Option HostIds)
      → let x = after_handler q.manager (cursors p i cache) event (ok tt, q.app) in
        (x.0.event_chan ≡ q.manager.event_chan)
        × (x.1.firehose ≡ q.app.firehose)
        × ((h : String) → Explained h (event ∷ []) (column q.app h) (column x.1 h))
  unfolding after_handler save_checkpoint cursors
  after_handler-column q event none = (refl, refl, λ h. inl refl)
  after_handler-column q event (some ids) = (
    refl,
    if_cases {A = App p i} (λ v. v.firehose ≡ q.app.firehose) (is_checkpoint event.seq) _ _
        (λ c. saves-firehose event q.app) (λ c. refl),
    λ h.
        after_handler-Explained column q.manager (app_cursors p i) app_cursors-IsCursorStore event
          (ok tt) q.app q.app h refl,
  )
