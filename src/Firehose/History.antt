-- ===== src/Firehose/History.antt =====
-- The order of events over whole schedules: what a subscriber has received is a subsequence of what
-- was submitted to the firehose.
use mathlib.Core.List.{Sublist, append_assoc, sublist-append_left}
use mathlib.Core.List.Sublist
use at_protocol_infrastructu.Prelude.{
  ℕ, ◌+◌, ◌^◌, ◌<◌, ◌≡◌, refl, true, Option, List, [], ◌∷◌, ◌++◌, inl, inr, arith, nat_eq, length,
  All,
}
use at_protocol_infrastructu.Channel.{Outcome, running, panicked, ◌>>=◌, try_send}
use at_protocol_infrastructu.Firehose.Message.{Object}
use at_protocol_infrastructu.Firehose.Server.{
  Server, Action, replay, replay_send, step, run_all, new_server, Metrics,
}
use at_protocol_infrastructu.Firehose.Invariant.{Inv}
use at_protocol_infrastructu.Firehose.Runs.{
  step-next_id, MaySend-cases, HasRoom-below, new_server-Inv,
}
use at_protocol_infrastructu.Firehose.Safety.{MaySend, step-Inv}
use at_protocol_infrastructu.Firehose.Stream.{received, stream, submitted, IsReplayTo, nothing_more}
use at_protocol_infrastructu.Firehose.Order.{step-stream}

abbrev pub submissions : List Action → List Object
submissions [] = []
submissions (a ∷ rest) = submitted a ++ submissions rest

replay_closed :
    (s : Server) (id : ℕ) (m : Object) (t : Server)
    → (s.sends id).closed ≡ true
    → step s (replay id m) ≡ running t
    → ⊥
unfolding step replay_send try_send
replay_closed s id m t shut_ e = ground arith

-- A step that did not panic sent to no closed channel.
pub may_have_sent : (s t : Server) (a : Action) → step s a ≡ running t → MaySend s a
may_have_sent s t a e = elim (MaySend-cases s a) [
  | inl may ↦ may
  | inr (id, m, p, gone) ↦ absurd (replay_closed s id m t gone (rw (← p) e))
]

run_all-stream :
    (s : Server) (actions : List Action) (k : ℕ) (t : Server)
    → s.next_id + length actions < 2 ^ 64
    → All (λ a. ¬ IsReplayTo k a) actions
    → Inv s
    → run_all s actions ≡ running t
    → Sublist (stream t k) (stream s k ++ submissions actions)
unfolding run_all
run_all-stream s [] k t room other v e =
    let same : s ≡ t = ground arith in nothing_more (rw same (Sublist.refl _))
run_all-stream s (a ∷ rest) k t room other v e =
    next (step s a) refl e (λ u. run_all-stream u rest k t)
  where
    next :
        (o : Outcome Server)
        → step s a ≡ o
        → (o >>= λ u. run_all u rest) ≡ running t
        → ((u : Server)
            → u.next_id + length rest < 2 ^ 64
            → All (λ b. ¬ IsReplayTo k b) rest
            → Inv u
            → run_all u rest ≡ running t
            → Sublist (stream t k) (stream u k ++ submissions rest))
        → Sublist (stream t k) (stream s k ++ submissions (a ∷ rest))
    next panicked p q again = cc
    next (running u) p q again =
        let may = may_have_sent s u a p in
        let i : Inv u = rw p at (step-Inv s a (HasRoom-below s a (omega arith)) may v) in
        let one : Sublist (stream u k) (stream s k ++ submitted a) =
          rw p at (step-stream s a k may other.0 v) in
        let more = again u (omega (arith, step-next_id s a u p)) other.1 i q in
        rw (← append_assoc (stream s k) (submitted a) (submissions rest))
          (Sublist.trans more (Sublist.append one (Sublist.refl (submissions rest))))

-- From a new firehose server, over fewer than 2 ^ 64 steps that end without a panic and in which
-- no replay is addressed to client k, the messages written to k followed by those in its buffer
-- are a subsequence, in order, of the messages that were submitted: nothing is invented, repeated
-- or reordered.
pub received-sublist-submissions :
    (m : Option Metrics) (actions : List Action) (k : ℕ) (t : Server)
    → length actions < 2 ^ 64
    → All (λ a. ¬ IsReplayTo k a) actions
    → run_all (new_server m) actions ≡ running t
    → Sublist (received t k) (submissions actions)
received-sublist-submissions m actions k t room other e =
    Sublist.trans (sublist-append_left (received t k) t.broadcast.buffer) (
      unfold new_server in
      run_all-stream (new_server m) actions k t (omega arith) other (new_server-Inv m) e)
