-- ===== src/Ingest/Client/Backoff.antt =====
-- The waits between failed dials: they double from the reconnect delay up to the maximum.
use at_protocol_infrastructu.Prelude.{
  ℕ, ◌*◌, ◌^◌, ◌≤◌, ◌<◌, ◌≡◌, refl, ap, ◌∙◌, min, List, [], ◌∷◌, arith, All,
}
use at_protocol_infrastructu.Prelude.Int.{pos}
use at_protocol_infrastructu.Ingest.Client.{
  PdsClient, Duration, Round, stopped, dial_failed, stopped_waiting, session, connection_loop,
  back_off, double, dial_succeeded, session_ended,
}

-- The waits that the rounds call for: doubling from `d` with each failure and cut at the maximum
-- `m`, from the reconnect delay `r` again after a session, and none once the client was stopped.
abbrev pub expected_waits : ℕ → ℕ → ℕ → List Round → List Duration
expected_waits d r m [] = []
expected_waits d r m (stopped ∷ rest) = []
expected_waits d r m (dial_failed ∷ rest) = pos (min d m) ∷ expected_waits (d * 2) r m rest
expected_waits d r m (stopped_waiting ∷ rest) = []
expected_waits d r m (session handle ∷ rest) = expected_waits r r m rest

-- A session leaves the delays alone.
abbrev pub IsSteady : Round → Type 0
IsSteady (session handle) =
    (c : PdsClient)
    → ((handle c).reconnect_delay ≡ c.reconnect_delay)
      × ((handle c).max_reconnect_delay ≡ c.max_reconnect_delay)
      × ((handle c).current_delay ≡ c.current_delay)
IsSteady _ = Unit

pub back_off-delay :
    (c : PdsClient) (d m : ℕ)
    → m < 2 ^ 62
    → c.max_reconnect_delay ≡ pos m
    → c.current_delay ≡ pos (min d m)
    → (back_off c).current_delay ≡ pos (min (d * 2) m)
unfolding back_off double
back_off-delay c d m small e f = rw (e, f) (ground arith)

-- For reconnect delay r and maximum m, r ≤ m < 2 ^ 62 nanoseconds, and a current delay of d cut at
-- m: over any rounds whose sessions leave the delays alone, the waits double from d and stay at m
-- once they reach it, each session starts them from r again, and no doubling overflows.
connection_loop-waits :
    (rounds : List Round) (c : PdsClient) (d r m : ℕ)
    → All IsSteady rounds
    → r ≤ m
    → m < 2 ^ 62
    → c.max_reconnect_delay ≡ pos m
    → c.reconnect_delay ≡ pos r
    → c.current_delay ≡ pos (min d m)
    → (connection_loop c rounds).1 ≡ expected_waits d r m rounds
unfolding connection_loop
connection_loop-waits [] c d r m steady le small em er ec = refl
connection_loop-waits (stopped ∷ rest) c d r m steady le small em er ec = refl
connection_loop-waits (stopped_waiting ∷ rest) c d r m steady le small em er ec = refl
connection_loop-waits (dial_failed ∷ rest) c d r m steady le small em er ec =
    ap (λ w. w ∷ (connection_loop (back_off c) rest).1) ec
    ∙ ap (◌∷◌ (pos (min d m))) (
        connection_loop-waits rest (back_off c) (d * 2) r m steady.1 le small em er
          (back_off-delay c d m small em ec))
connection_loop-waits (session handle ∷ rest) c d r m steady le small em er ec =
    let up = dial_succeeded c in
    let (kr, km, kc) = steady.0 up in
    connection_loop-waits rest (session_ended (handle up)) r r m steady.1 le small (km ∙ em)
      (kr ∙ er) (kc ∙ er ∙ ap pos (omega arith))
