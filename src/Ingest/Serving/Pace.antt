-- ===== src/Ingest/Serving/Pace.antt =====
-- The pace that the rounds of a PDS client call for, and what its streams do.
use at_protocol_infrastructu.Prelude.{
  ℕ, ◌*◌, ◌≡◌, Bool, min, true, false, List, [], ◌∷◌, Option, String, All, string_eq,
}
use at_protocol_infrastructu.Prelude.Int.{ℤ, pos}
use at_protocol_infrastructu.Prelude.Result.{Result}
use at_protocol_infrastructu.Channel.{Outcome, running, ◌>>=◌, Chan}
use at_protocol_infrastructu.Ingest.Event.{Event, Bytes}
use at_protocol_infrastructu.Ingest.Client.{PdsClient}
use at_protocol_infrastructu.Ingest.Stream.Handling.{IsBareInfo}
use at_protocol_infrastructu.Ingest.Serving.{
  Address, address, upgraded, failed, Dial, Frame, Held, Handler, RepoStream, Round, stopped, round,
  Deed, dialled, waited, event_loop,
}

-- The frames one after the other, each from what the handler left of the one before.
abbrev pub fed : Handler → List Frame → Held → Outcome Held
fed h [] x = running x
fed h (f ∷ rest) x = do (c, ch, r) ← h f x; fed h rest (c, ch)

-- A frame that is no info frame without a message, and comes while nobody closes the channel.
abbrev pub IsCalm : Frame → Type 0
IsCalm f =
    (¬ IsBareInfo f.body)
    × ((ch : Chan Event) → ch.closed ≡ false → (f.meanwhile ch).closed ≡ false)

-- The library calls the handler for one frame after the other, and comes to an end.
abbrev pub IsSequential : RepoStream → Type 0
IsSequential stream =
    (h : Handler) (x : Held)
    → (frames : List Frame) × (r : Result String (Unit {0})) × All IsCalm frames
      × (stream h x ≡ (do y ← fed h frames x; running (y, r)))

abbrev pub IsOrderly : Round → Type 0
IsOrderly stopped = Unit
IsOrderly (round dial cut stream) = IsSequential stream

-- The address of a host for a cursor.
abbrev pub Asks : String → ℤ → Address → Type 0
Asks host z a = (c : PdsClient) → c.hostname ≡ host → c.cursor ≡ z → a ≡ address c

module _ (extract : Bytes → String → String → String) where
  -- A session of a client at the cursor `z` leaves it at `y`.
  abbrev pub Leaves : RepoStream → String → ℤ → ℤ → Type 0
  Leaves stream host z y =
      (c : PdsClient) × (ch : Chan Event) × (x : Held) × (r : Result String (Unit {0}))
      × (c.hostname ≡ host)
      × (c.cursor ≡ z)
      × (event_loop extract stream (c, ch) ≡ running (x, r))
      × (x.0.cursor ≡ y)

  -- What the rounds call for, from a delay and a cursor on, of a client of `host` with the reconnect
  -- delay `r` and the maximum `m`: each dial is for the cursor; if it fails, a wait of the delay cut
  -- at the maximum follows, and then the rest with twice the delay and the same cursor, unless the
  -- client is stopped in the wait; if it succeeds, the rest from the delay `r` and the cursor that
  -- the session leaves.
  pub data Paced (host : String) (r m : ℕ) : ℕ → ℤ → List Round → List Deed → Type 0 where
    no_round : {d : ℕ} {z : ℤ} → Paced host r m d z [] []
    was_stopped : {d : ℕ} {z : ℤ} {rest : List Round} → Paced host r m d z (stopped ∷ rest) []
    gave_up :
        {d : ℕ} {z : ℤ} {dial : Address → Dial} {stream : RepoStream} {rest : List Round}
        (a : Address) (cause : String) (response : Option (ℕ × String))
        → Asks host z a
        → dial a ≡ failed cause response
        → Paced host r m d z (round dial true stream ∷ rest) (dialled a ∷ [])
    tried :
        {d : ℕ} {z : ℤ} {dial : Address → Dial} {stream : RepoStream} {rest : List Round}
        {deeds : List Deed} (a : Address) (cause : String) (response : Option (ℕ × String))
        → Asks host z a
        → dial a ≡ failed cause response
        → Paced host r m (d * 2) z rest deeds
        → Paced host r m d z
            (round dial false stream ∷ rest)
            (dialled a ∷ waited (pos (min d m)) ∷ deeds)
    served :
        {d : ℕ} {z : ℤ} {dial : Address → Dial} {cut : Bool} {stream : RepoStream}
        {rest : List Round} {deeds : List Deed} (a : Address) (y : ℤ)
        → Asks host z a
        → dial a ≡ upgraded
        → Leaves stream host z y
        → Paced host r m r y rest deeds
        → Paced host r m d z (round dial cut stream ∷ rest) (dialled a ∷ deeds)
