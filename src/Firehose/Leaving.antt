-- ===== src/Firehose/Leaving.antt =====
-- `readPump` of relay/internal/firehose/server.go, and how a client leaves by it.
mod Examples
use at_protocol_infrastructu.Prelude.{
  ℕ, ◌+◌, ◌^◌, ◌%◌, ◌≡◌, ◌≢◌, refl, ap, subst, ◌∙◌, true, false, Bool, Option, none, some, List, [],
  ◌∷◌, ◌++◌, ◌==◌, arith, nat_eq, if◌then◌else◌, length,
}
use at_protocol_infrastructu.Prelude.Assoc.{lookup, delete, lookup-delete, length-delete}
use at_protocol_infrastructu.Channel.{Outcome, running, ◌>>=◌, close, Ensures}
use at_protocol_infrastructu.Firehose.Server
use at_protocol_infrastructu.Firehose.Server.{
  Client, Server, Action, run_unregister, hang_up, shut, update, on_unregister, close_conn, Conn,
  serve_unregister, run_all,
}
use at_protocol_infrastructu.Firehose.Invariant.{Inv}
use at_protocol_infrastructu.Firehose.Steps.{unregister-Inv, outside-Inv}

-- What `ReadMessage` returns: a message, which is thrown away, or an error, also for a message over
-- the limit and for a deadline that no pong moved.
pub data Incoming : Type 0 where
  message failed : Incoming

-- The loop, and the deferred calls once it ends.
unfoldable pub read_pump : Client → List Incoming → List Action
read_pump c [] = []
read_pump c (message ∷ rest) = read_pump c rest
read_pump c (failed ∷ rest) = hang_up c ∷ shut c.id ∷ []

abbrev pub Fails : List Incoming → Type 0
Fails [] = ⊥
Fails (message ∷ rest) = Fails rest
Fails (failed ∷ rest) = Unit

-- What a client that left leaves.
pub record Left (s t : Server) (id : ℕ) : Type 0 where
  pub gone : (j : ℕ) → lookup j t.clients ≡ (if id == j then none else lookup j s.clients)
  pub counted : t.client_count + 1 ≡ s.client_count
  pub closed_channel : (t.sends id).closed ≡ true
  pub same_buffer : (t.sends id).buffer ≡ (s.sends id).buffer
  pub other_channels : (j : ℕ) → j ≢ id → t.sends j ≡ s.sends j
  pub same_conns : t.conns ≡ s.conns
  pub same_unregister : t.unregister ≡ s.unregister

on_unregister-Left :
    (s : Server) (c d : Client)
    → Inv s
    → lookup c.id s.clients ≡ some d
    → (t : Server) × (on_unregister s c ≡ running t) × Left s t c.id
unfolding on_unregister close
on_unregister-Left s c d v e =
    let (i, o) = v.registered c.id d e in
    let shrunk = length-delete c.id d s.clients v.unique e in
    rw (e, on_unregister, o)
      (
        _,
        refl,
        record {
          gone = λ j. lookup-delete c.id j s.clients;
          counted = omega (arith, v.counted, v.issued, v.wraps, shrunk);
          closed_channel = ground arith;
          same_buffer = ground arith;
          other_channels = λ j n. ground (arith, n);
          same_conns = refl;
          same_unregister = refl;
        },
      )

read_pump_ends :
    (c : Client) (reads : List Incoming)
    → Fails reads
    → read_pump c reads ≡ hang_up c ∷ shut c.id ∷ []
unfolding read_pump
read_pump_ends c [] f = absurd f
read_pump_ends c (message ∷ rest) f = read_pump_ends c rest f
read_pump_ends c (failed ∷ rest) f = refl

-- The running server once the deferred calls have run, and the client waits to be taken off the map alone.
abbrev pub hung_up : Server → Client → Server
hung_up s c = record s {
  unregister = [];
  conns = update s.conns c.id (record (s.conns c.id) { is_open = false });
  stopped = false;
}

deferred :
    (s t : Server) (c : Client)
    → s.unregister ≡ []
    → s.stopped ≡ false
    → on_unregister (hung_up s c) c ≡ running t
    → run_all s (hang_up c ∷ shut c.id ∷ run_unregister ∷ []) ≡ running t
unfolding run_all Server.step close_conn serve_unregister
deferred s t c q up ran = rw (q, up, ran) refl

-- From a state with the invariant in which the server runs and nobody else waits to leave: once a
-- read on the connection of a registered client fails, after any messages, the reader of the
-- client ends, and the server takes the client off the map without a panic. Then the client is
-- registered no more and all others are, the count is one lower, its channel is closed and keeps
-- what was in its buffer, its connection is closed, the channels of the others are as before, and
-- the invariant holds.
pub reader_leaves :
    (s : Server) (c d : Client) (reads : List Incoming)
    → Inv s
    → lookup c.id s.clients ≡ some d
    → s.unregister ≡ []
    → s.stopped ≡ false
    → Fails reads
    → (t : Server) × (run_all s (read_pump c reads ++ run_unregister ∷ []) ≡ running t)
      × Left (hung_up s c) t c.id
      × ((t.conns c.id).is_open ≡ false)
      × Inv t
reader_leaves s c d reads v e q up f =
    let v' : Inv (hung_up s c) = outside-Inv s [] (hung_up s c).conns false v in
    let (t, ran, left) = on_unregister-Left (hung_up s c) c d v' e in
    (
      t,
      rw (read_pump_ends c reads f) (deferred s t c q up ran),
      left,
      ap (λ k. (k c.id).is_open) left.same_conns ∙ ground arith,
      subst (Ensures Inv) ran (unregister-Inv (hung_up s c) c v'),
    )
