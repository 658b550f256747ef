-- ===== src/Firehose/Runs.antt =====
-- Whole schedules of the firehose server: what holds after them, and the one way to a panic.
use at_protocol_infrastructu.Prelude.{
  ℕ, suc, ◌+◌, ◌^◌, ◌≤◌, ◌<◌, ◌≡◌, refl, true, Option, List, [], ◌∷◌, ◌++◌, ap, ◌∙◌, ◌⊎◌, inl, inr,
  arith, nat_eq, length, Bool-cases,
}
use at_protocol_infrastructu.Prelude.Assoc.{lookup}
use at_protocol_infrastructu.Channel.{Outcome, running, panicked, close, Ensures}
use at_protocol_infrastructu.Firehose.Message.{Object}
use at_protocol_infrastructu.Firehose.Server.{
  Client, Server, Action, connect, run_register, run_unregister, run_broadcast, submit, hang_up,
  write, ping, write_ping, shut, replay, shut_down, on_register, on_unregister, on_broadcast, offer,
  accept, write_pump, close_conn, close_conns, replay_send, stop, step, run_all, new_server,
  Metrics,
}
use at_protocol_infrastructu.Firehose.Invariant.{Inv}
use at_protocol_infrastructu.Firehose.Safety.{MaySend, HasRoom, step-Inv}

pub new_server-Inv : (m : Option Metrics) → Inv (new_server m)
unfolding new_server lookup
new_server-Inv m = record {
  counted = refl;
  issued = omega arith;
  wraps = omega arith;
  unique = tt;
  waiting = omega arith;
  registered = λ k c h. cc;
  buffers = λ k. omega arith;
  capacities = λ k. omega arith;
  broadcast_open = refl;
  broadcast_cap = refl;
  broadcast_bounded = omega arith;
}

stop-next_id : (cs : List (ℕ × Client)) (s : Server) → (close_conns cs s).next_id ≡ s.next_id
unfolding close_conns
stop-next_id [] s = refl
stop-next_id ((id, c) ∷ rest) s = stop-next_id rest (close_conn s id) ∙ unfold close_conn in refl

-- A step gives out one id at most.
pub step-next_id :
    (s : Server) (a : Action) (t : Server) → step s a ≡ running t → t.next_id ≤ suc s.next_id
unfolding step
step-next_id s (connect cursor remote now) t e = unfold accept in ground arith
step-next_id s run_register t e = unfold on_register in ground arith
step-next_id s run_unregister t e = unfold on_unregister close in ground arith
step-next_id s run_broadcast t e = unfold on_broadcast in ground arith
step-next_id s (submit message) t e = unfold offer in ground arith
step-next_id s (hang_up client) t e = ground arith
step-next_id s (write id up) t e = unfold write_pump in ground arith
step-next_id s (ping id up) t e = unfold write_ping in ground arith
step-next_id s (shut id) t e = unfold close_conn in ground arith
step-next_id s (replay id message) t e = unfold replay_send in ground arith
step-next_id s shut_down t e =
    unfold stop in ground (arith, stop-next_id s.clients (record s { stopped = true }))

pub MaySend-cases :
    (s : Server) (a : Action)
    → MaySend s a ⊎ ((id : ℕ) × (m : Object) × (a ≡ replay id m) × ((s.sends id).closed ≡ true))
MaySend-cases s (replay id m) = elim (Bool-cases (s.sends id).closed) [
  | inl gone ↦ inr (id, m, refl, gone)
  | inr live ↦ inl live
]
MaySend-cases s run_register = inl tt
MaySend-cases s _ = inl tt

pub HasRoom-below : (s : Server) (a : Action) → suc s.next_id < 2 ^ 64 → HasRoom s a
HasRoom-below s (connect _ _ _) h = h
HasRoom-below s _ h = tt

-- A schedule that ran into a panic: some replay in it sends to a channel that is closed.
pub record Culprit (s : Server) (actions : List Action) : Type 0 where
  pub before : List Action
  pub after : List Action
  pub id : ℕ
  pub message : Object
  pub state : Server
  pub here : actions ≡ before ++ replay id message ∷ after
  pub reached : run_all s before ≡ running state
  pub was_closed : (state.sends id).closed ≡ true

-- A schedule that ends in a state with the invariant, or that has a culprit.
pub Runs : Server → List Action → Type 0
Runs s actions = ((t : Server) × (run_all s actions ≡ running t) × Inv t) ⊎ Culprit s actions

-- From any state with the invariant, every schedule whose steps cannot exhaust the 64-bit client
-- ids either runs to a state with the invariant (the client count is the number of registered
-- clients, every registered client has an open channel within its capacity), or contains a replay
-- to a client whose channel was closed by then; there is no other way to a panic.
pub run_all-Runs :
    (s : Server) (actions : List Action)
    → s.next_id + length actions < 2 ^ 64
    → Inv s
    → Runs s actions
unfolding run_all Runs
run_all-Runs s [] room v = inl (s, refl, v)
run_all-Runs s (a ∷ rest) room v = elim (MaySend-cases s a) [
  | inr (id, m, e, gone) ↦ inr (record {
    before = [];
    after = rest;
    id = id;
    message = m;
    state = s;
    here = ap (λ x. x ∷ rest) e;
    reached = refl;
    was_closed = gone;
  })
  | inl may ↦
      next (step s a) refl (step-Inv s a (HasRoom-below s a (omega arith)) may v) (step-next_id s a)
        (λ t. run_all-Runs t rest)
]
  where
    next :
        (o : Outcome Server)
        → step s a ≡ o
        → Ensures Inv o
        → ((t : Server) → step s a ≡ running t → t.next_id ≤ suc s.next_id)
        → ((t : Server) → t.next_id + length rest < 2 ^ 64 → Inv t → Runs t rest)
        → Runs s (a ∷ rest)
    next panicked e i n again = absurd i
    next (running t) e i n again = elim (again t (omega (arith, n t e)) i) [
      | inl (u, r, w) ↦ inl (u, rw (e, run_all) r, w)
      | inr c ↦ inr (record {
        before = a ∷ c.before;
        after = c.after;
        id = c.id;
        message = c.message;
        state = c.state;
        here = ap (◌∷◌ a) c.here;
        reached = rw (e, run_all) c.reached;
        was_closed = c.was_closed;
      })
    ]
