-- ===== src/Firehose/Bounds.antt =====
-- How much the firehose server can hold.
use at_protocol_infrastructu.Prelude.{
  ℕ, ◌+◌, ◌^◌, ◌≤◌, ◌<◌, ◌≡◌, refl, subst, Option, List, [], ◌∷◌, arith, length,
}
use at_protocol_infrastructu.Channel.{Outcome, running, panicked, ◌>>=◌}
use at_protocol_infrastructu.Firehose.Server.{Server, Metrics, new_server, Action, step, run_all}
use at_protocol_infrastructu.Firehose.Invariant.{Inv}
use at_protocol_infrastructu.Firehose.Safety.{step-Inv}
use at_protocol_infrastructu.Firehose.Runs.{new_server-Inv, step-next_id, HasRoom-below}
use at_protocol_infrastructu.Firehose.History.{may_have_sent}

-- A schedule that ends without a panic ends with the invariant, and with an id for each step at
-- most.
run_all-Inv :
    (s : Server) (actions : List Action) (t : Server)
    → s.next_id + length actions < 2 ^ 64
    → Inv s
    → run_all s actions ≡ running t
    → Inv t × (t.next_id ≤ s.next_id + length actions)
unfolding run_all
run_all-Inv s [] t room v e =
    let same : s ≡ t = ground arith in
    (subst Inv same v, subst (λ u. u.next_id ≤ s.next_id + 0) same (omega arith))
run_all-Inv s (a ∷ rest) t room v e = next (step s a) refl e (λ u. run_all-Inv u rest t)
  where
    next :
        (o : Outcome Server)
        → step s a ≡ o
        → (o >>= λ u. run_all u rest) ≡ running t
        → ((u : Server)
            → u.next_id + length rest < 2 ^ 64
            → Inv u
            → run_all u rest ≡ running t
            → Inv t × (t.next_id ≤ u.next_id + length rest))
        → Inv t × (t.next_id ≤ s.next_id + length (a ∷ rest))
    next panicked p q again = absurd (cc)
    next (running u) p q again =
        let may = may_have_sent s u a p in
        let i : Inv u = rw p at (step-Inv s a (HasRoom-below s a (omega arith)) may v) in
        let (w, top) = again u (omega (arith, step-next_id s a u p)) i q in
        (w, omega (arith, step-next_id s a u p))

-- From a new firehose server, over fewer than 2 ^ 64 steps that end without a panic: no client has
-- more than 256 messages in its buffer, no more than 1000 wait to be broadcast, the client count
-- is the number of registered clients, and these and those that wait to be registered are together
-- no more than the steps.
pub new_server-bounds :
    (m : Option Metrics) (actions : List Action) (t : Server)
    → length actions < 2 ^ 64
    → run_all (new_server m) actions ≡ running t
    → ((k : ℕ) → length (t.sends k).buffer ≤ 256)
      × (length t.broadcast.buffer ≤ 1000)
      × (t.client_count ≡ length t.clients)
      × (length t.clients + length t.register ≤ length actions)
unfolding new_server
new_server-bounds m actions t room e =
    let (v, top) = run_all-Inv (new_server m) actions t (omega arith) (new_server-Inv m) e in
    (
      λ k. omega (arith, v.buffers k, v.capacities k),
      omega (arith, v.broadcast_bounded, v.broadcast_cap),
      v.counted,
      omega (arith, v.issued, top),
    )
