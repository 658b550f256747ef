-- ===== src/Ingest/Serving/Pacing.antt =====
-- How often a PDS client dials, whatever the dialer and the streams answer.
use at_protocol_infrastructu.Prelude.{
  ℕ, ◌*◌, ◌^◌, ◌≤◌, ◌<◌, ◌≡◌, refl, ap, ◌∙◌, sym, subst, Bool, min, true, false, List, [], ◌∷◌,
  Option, String, arith, All, inl, inr, string_eq,
}
use at_protocol_infrastructu.Prelude.Int.{pos}
use at_protocol_infrastructu.Channel.{running, Chan}
use at_protocol_infrastructu.Ingest.Event.{Event, Bytes}
use at_protocol_infrastructu.Ingest.Client.{PdsClient, back_off, session_ended}
use at_protocol_infrastructu.Ingest.Serving.{
  Address, address, upgraded, failed, Dial, Held, RepoStream, Round, stopped, round, Deed, dialled,
  waited, serve,
}
use at_protocol_infrastructu.Ingest.Client.Backoff.{back_off-delay}
use at_protocol_infrastructu.Ingest.Serving.Pace.{
  IsOrderly, IsSequential, Paced, no_round, was_stopped, gave_up, tried, served,
}
use at_protocol_infrastructu.Ingest.Serving.Sessions.{
  address-Asks, Dial-cases, connect-upgraded, connect-failed, event_loop-Kept, serve-looped,
  serve-stopped, serve-waited,
}

module _ (extract : Bytes → String → String → String) where
  -- The rounds behind a session.
  abbrev Resumes : List Round → ℕ → ℕ → Type 0
  Resumes rest r m =
      (c : PdsClient) (ch : Chan Event) (d : ℕ)
      → ch.closed ≡ false
      → c.max_reconnect_delay ≡ pos m
      → c.reconnect_delay ≡ pos r
      → c.current_delay ≡ pos (min d m)
      → (x : Held) × (deeds : List Deed) × (serve extract c ch rest ≡ running (x, deeds))
        × Paced extract c.hostname r m d c.cursor rest deeds

  upgraded-Paced :
      (dial : Address → Dial) (cut : Bool) (stream : RepoStream) (rest : List Round) (c : PdsClient)
      (ch : Chan Event) (d r m : ℕ)
      → IsSequential stream
      → dial (address c) ≡ upgraded
      → ch.closed ≡ false
      → r ≤ m
      → c.max_reconnect_delay ≡ pos m
      → c.reconnect_delay ≡ pos r
      → Resumes rest r m
      → (x : Held) × (deeds : List Deed) × (serve extract c ch (round dial cut stream ∷ rest)
          ≡ running (x, deeds))
        × Paced extract c.hostname r m d c.cursor (round dial cut stream ∷ rest) deeds
  unfolding session_ended
  upgraded-Paced dial cut stream rest c ch d r m law e o le em er resumes =
      let start : PdsClient = record c {
        has_conn = true;
        connected = true;
        current_delay = c.reconnect_delay;
      } in
      let (x, ended, looped, same, o') = event_loop-Kept extract stream start ch law o in
      let (y, deeds, ran, paced) =
        resumes (session_ended x.0) x.1 r o' (same.same_max ∙ em) (same.same_reconnect ∙ er)
          (same.same_delay ∙ er ∙ ap pos (omega (arith, le))) in
      (
        y,
        dialled (address c) ∷ deeds,
        serve-looped extract c (record c { has_conn = true; connected = true }) x.0 ch x.1 y ended
            dial cut stream rest deeds (connect-upgraded dial c e) looped ran,
        served (address c) x.0.cursor (address-Asks c) e
            (start, ch, x, ended, refl, refl, looped, refl)
            (subst (λ h. Paced extract h r m r x.0.cursor rest deeds) same.same_host paced),
      )

  failed-Paced :
      (dial : Address → Dial) (cut : Bool) (stream : RepoStream) (rest : List Round) (c : PdsClient)
      (ch : Chan Event) (d r m : ℕ) (cause : String) (response : Option (ℕ × String))
      → dial (address c) ≡ failed cause response
      → ch.closed ≡ false
      → m < 2 ^ 62
      → c.max_reconnect_delay ≡ pos m
      → c.reconnect_delay ≡ pos r
      → c.current_delay ≡ pos (min d m)
      → Resumes rest r m
      → (x : Held) × (deeds : List Deed) × (serve extract c ch (round dial cut stream ∷ rest)
          ≡ running (x, deeds))
        × Paced extract c.hostname r m d c.cursor (round dial cut stream ∷ rest) deeds
  unfolding back_off
  failed-Paced dial true stream rest c ch d r m cause response e o small em er ec resumes = (
    (c, ch),
    dialled (address c) ∷ [],
    serve-stopped extract c ch dial stream rest _ (connect-failed dial c cause response e),
    gave_up (address c) cause response (address-Asks c) e,
  )
  failed-Paced dial false stream rest c ch d r m cause response e o small em er ec resumes =
      let (x, deeds, ran, paced) =
        resumes (back_off c) ch (d * 2) o em er (back_off-delay c d m small em ec) in
      (
        x,
        dialled (address c) ∷ waited c.current_delay ∷ deeds,
        serve-waited extract c ch x dial stream rest deeds _
            (connect-failed dial c cause response e) ran,
        subst
            (λ w.
              Paced extract c.hostname r m d c.cursor (round dial false stream ∷ rest)
                (dialled (address c) ∷ waited w ∷ deeds))
            (sym ec) (tried (address c) cause response (address-Asks c) e paced),
      )

  pub serve-Paced :
      (rounds : List Round) (c : PdsClient) (ch : Chan Event) (d r m : ℕ)
      → All IsOrderly rounds
      → ch.closed ≡ false
      → r ≤ m
      → m < 2 ^ 62
      → c.max_reconnect_delay ≡ pos m
      → c.reconnect_delay ≡ pos r
      → c.current_delay ≡ pos (min d m)
      → (x : Held) × (deeds : List Deed) × (serve extract c ch rounds ≡ running (x, deeds))
        × Paced extract c.hostname r m d c.cursor rounds deeds
  unfolding serve
  serve-Paced [] c ch d r m laws o le small em er ec = ((c, ch), [], refl, no_round)
  serve-Paced (stopped ∷ rest) c ch d r m laws o le small em er ec =
      ((c, ch), [], refl, was_stopped)
  serve-Paced (round dial cut stream ∷ rest) c ch d r m laws o le small em er ec =
      let resumes : Resumes rest r m =
        λ t ch' d' o' em' er' ec'. serve-Paced rest t ch' d' r m laws.1 o' le small em' er' ec' in
      elim (Dial-cases (dial (address c))) [
        | inl e ↦ upgraded-Paced dial cut stream rest c ch d r m laws.0 e o le em er resumes
        | inr (cause, response, e) ↦
            failed-Paced dial cut stream rest c ch d r m cause response e o small em er ec resumes
      ]
