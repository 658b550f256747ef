-- ===== src/Ingest/Serving/Sessions.antt =====
-- One round of a PDS client: its dial and its session.
use at_protocol_infrastructu.Prelude.{
  ℕ, ◌≡◌, refl, ap, ◌∙◌, ◌⊎◌, Bool, true, false, List, [], ◌∷◌, Option, String, All, inl, inr,
  string_eq,
}
use at_protocol_infrastructu.Prelude.Result.{Result, ok, err}
use at_protocol_infrastructu.Channel.{running, ◌>>=◌, Chan}
use at_protocol_infrastructu.Ingest.Event.{Event, Bytes}
use at_protocol_infrastructu.Ingest.Client.{PdsClient, subscribe_query, back_off, session_ended}
use at_protocol_infrastructu.Ingest.Stream.Calm.{
  Same, same_self, same_trans, handle_repo_stream_event-Kept,
}
use at_protocol_infrastructu.Ingest.Serving.{
  Address, address, DialError, connect, connected, upgraded, failed, Dial, Frame, Held, RepoStream,
  Round, round, Deed, dialled, waited, handler, event_loop, serve,
}
use at_protocol_infrastructu.Ingest.Serving.Pace.{IsCalm, fed, IsSequential, Asks}

-- The address is that of the client's host and cursor.
pub address-Asks : (c : PdsClient) → Asks c.hostname c.cursor (address c)
unfolding address subscribe_query
address-Asks c t h z = rw (h, z) refl

pub Dial-cases :
    (a : Dial)
    → (a ≡ upgraded)
      ⊎ ((cause : String) × (response : Option (ℕ × String)) × (a ≡ failed cause response))
Dial-cases upgraded = inl refl
Dial-cases (failed cause response) = inr (cause, response, refl)

pub connect-upgraded :
    (dial : Address → Dial) (c : PdsClient)
    → dial (address c) ≡ upgraded
    → connect dial c ≡ (record c { has_conn = true; connected = true }, ok tt)
unfolding connect connected
connect-upgraded dial c e = rw e refl

pub connect-failed :
    (dial : Address → Dial) (c : PdsClient) (cause : String) (response : Option (ℕ × String))
    → dial (address c) ≡ failed cause response
    → connect dial c ≡ (c, err (record { cause = cause; response = response }))
unfolding connect connected
connect-failed dial c cause response e = rw e refl

module _ (extract : Bytes → String → String → String) where
  fed-Kept :
      (frames : List Frame) (c : PdsClient) (ch : Chan Event)
      → All IsCalm frames
      → ch.closed ≡ false
      → (x : Held) × (fed (handler extract) frames (c, ch) ≡ running x)
        × Same c x.0
        × (x.1.closed ≡ false)
  unfolding handler
  fed-Kept [] c ch calm o = ((c, ch), refl, same_self c, o)
  fed-Kept (f ∷ rest) c ch calm o =
      let ((c1, ch1, r), ran, kept) =
        handle_repo_stream_event-Kept extract c (f.meanwhile ch) f.at f.choice f.body calm.0.0
          (calm.0.1 ch o) in
      let (x, more, same, o') = fed-Kept rest c1 ch1 calm.1 kept.1 in
      (x, rw ran more, same_trans c c1 x.0 kept.0 same, o')

  pub event_loop-Kept :
      (stream : RepoStream) (c : PdsClient) (ch : Chan Event)
      → IsSequential stream
      → ch.closed ≡ false
      → (x : Held) × (r : Result String (Unit {0})) × (event_loop extract stream (c, ch)
          ≡ running (x, r))
        × Same c x.0
        × (x.1.closed ≡ false)
  unfolding event_loop
  event_loop-Kept stream c ch law o =
      let (frames, r, calm, same) = law (handler extract) (c, ch) in
      let (x, ran, kept, o') = fed-Kept frames c ch calm o in
      (x, r, same ∙ ap (λ y. y >>= λ z. running (z, r)) ran, kept, o')

  pub serve-stopped :
      (c : PdsClient) (ch : Chan Event) (dial : Address → Dial) (stream : RepoStream)
      (rest : List Round) (e : DialError)
      → connect dial c ≡ (c, err e)
      → serve extract c ch (round dial true stream ∷ rest)
        ≡ running ((c, ch), dialled (address c) ∷ [])
  unfolding serve
  serve-stopped c ch dial stream rest e down =
      rw (serve, ap (λ x. x.1) down, ap (λ x. x.0) down) refl

  pub serve-waited :
      (c : PdsClient) (ch : Chan Event) (h : Held) (dial : Address → Dial) (stream : RepoStream)
      (rest : List Round) (deeds : List Deed) (e : DialError)
      → connect dial c ≡ (c, err e)
      → serve extract (back_off c) ch rest ≡ running (h, deeds)
      → serve extract c ch (round dial false stream ∷ rest)
        ≡ running (h, dialled (address c) ∷ waited c.current_delay ∷ deeds)
  unfolding serve
  serve-waited c ch h dial stream rest deeds e down ran =
      rw (serve, ap (λ x. x.1) down, ap (λ x. x.0) down, ran) refl

  pub serve-looped :
      (c c' c1 : PdsClient) (ch ch1 : Chan Event) (h : Held) (r : Result String (Unit {0}))
      (dial : Address → Dial) (cut : Bool) (stream : RepoStream) (rest : List Round)
      (deeds : List Deed)
      → connect dial c ≡ (c', ok tt)
      → event_loop extract stream (record c' { current_delay = c'.reconnect_delay }, ch)
        ≡ running ((c1, ch1), r)
      → serve extract (session_ended c1) ch1 rest ≡ running (h, deeds)
      → serve extract c ch (round dial cut stream ∷ rest) ≡ running (h, dialled (address c) ∷ deeds)
  unfolding serve
  serve-looped c c' c1 ch ch1 h r dial cut stream rest deeds up looped ran =
      rw (serve, ap (λ x. x.1) up, ap (λ x. x.0) up, looped, ran) refl
