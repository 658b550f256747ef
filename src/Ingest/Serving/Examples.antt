-- ===== src/Ingest/Serving/Examples.antt =====
-- A client whose first dial fails, whose second gives a session of one frame, and which is stopped
-- in the wait behind its third.
use at_protocol_infrastructu.Prelude.{
  ◌*◌, ◌≡◌, refl, true, false, none, some, List, [], ◌∷◌, String, arith,
}
use at_protocol_infrastructu.Prelude.Int.{pos}
use at_protocol_infrastructu.Prelude.Result.{Result, err}
use at_protocol_infrastructu.Channel.{Outcome, running, panicked, ◌>>=◌, make}
use at_protocol_infrastructu.Ingest.AccountFrame.{second, client, frame, no_content}
use at_protocol_infrastructu.Ingest.Stream.{Handled, send_ready}
use at_protocol_infrastructu.Ingest.Serving.{
  upgraded, failed, Frame, Held, RepoStream, Round, round, Deed, serve,
}
use at_protocol_infrastructu.Ingest.Serving.Pace.{IsSequential, Paced}
use at_protocol_infrastructu.Ingest.Serving.Pacing.{serve-Paced}

abbrev arriving : Frame
arriving = record { meanwhile = λ ch. ch; at = 9; choice = send_ready; body = frame }

abbrev one_frame : RepoStream
one_frame h x = do (c, ch, r) ← h arriving x; running ((c, ch), err "EOF")

abbrev left : Handled → Outcome Held
left (c, ch, r) = running (c, ch)

abbrev over : Held → Outcome (Held × Result String (Unit {0}))
over x = running (x, err "EOF")

passed_on : (o : Outcome Handled) → (o >>= λ y. over (y.0, y.1)) ≡ ((o >>= left) >>= over)
passed_on (running x) = refl
passed_on panicked = refl

one_frame-IsSequential : IsSequential one_frame
one_frame-IsSequential h x = (
  arriving ∷ [],
  err "EOF",
  ((λ b. absurd (cc (b.no_account)), λ ch o. o), tt),
  passed_on (h arriving x),
)

abbrev rounds : List Round
rounds =
    round (λ _. failed "bad handshake" (some (502, ""))) false one_frame
    ∷ round (λ _. upgraded) false one_frame
    ∷ round (λ _. failed "refused" none) true one_frame
    ∷ []

serve-Paced_example :
    (x : Held) × (deeds : List Deed) × (serve no_content client (make 10) rounds
      ≡ running (x, deeds))
    × Paced no_content "pds.a" (second * 5) (second * 12) (second * 5) (pos 0) rounds deeds
serve-Paced_example =
    serve-Paced no_content rounds client (make 10) (second * 5) (second * 5) (second * 12)
      (one_frame-IsSequential, (one_frame-IsSequential, (one_frame-IsSequential, tt))) refl
      (omega arith) (omega arith) refl refl refl
