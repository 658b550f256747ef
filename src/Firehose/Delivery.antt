-- ===== src/Firehose/Delivery.antt =====
-- What one broadcast does to each client's buffer, and the panic that a late replay causes.
use at_protocol_infrastructu.Prelude.{
  ℕ, ◌≡◌, refl, Bool, true, false, Option, none, some, List, [], ◌∷◌, ◌++◌, ap, ◌∙◌, ltb, inl, inr,
  arith, nat_eq, if◌then◌else◌, length, All, All-map, Bool-cases,
}
use at_protocol_infrastructu.Prelude.Assoc.{lookup, Unique, All-of_lookup}
use at_protocol_infrastructu.Channel.{running, panicked, Chan, try_send, close}
use at_protocol_infrastructu.Firehose.Message.{Object}
use at_protocol_infrastructu.Firehose.Server.{
  Client, Server, run_unregister, hang_up, replay, update, on_unregister, deliver, on_broadcast,
  replay_send, step, run_all,
}
use at_protocol_infrastructu.Firehose.Invariant.{Inv}

-- A message for one client: appended to its buffer, or skipped if the buffer is full.
abbrev pub pushed : Object → Chan Object → Chan Object
pushed m ch =
    if ltb (length ch.buffer) ch.cap then record ch { buffer = ch.buffer ++ m ∷ [] } else ch

abbrev pub pick : Option Client → Object → Chan Object → Chan Object
pick none m ch = ch
pick (some _) m ch = pushed m ch

-- The channels after one broadcast to the clients of the map.
abbrev pub delivered : Object → List (ℕ × Client) → (ℕ → Chan Object) → ℕ → Chan Object
delivered m cs f k = pick (lookup k cs) m (f k)

try_send-pushed :
    (ch : Chan Object) (m : Object)
    → ch.closed ≡ false
    → (b : Bool) × (try_send ch m ≡ running (pushed m ch, b))
unfolding try_send
try_send-pushed ch m h = elim (Bool-cases (ltb (length ch.buffer) ch.cap)) [
  | inl room ↦ (true, ground arith)
  | inr full ↦ (false, ground arith)
]

update_open :
    (m : Object) (id k : ℕ) (f : ℕ → Chan Object)
    → (f id).closed ≡ false
    → (f k).closed ≡ false
    → (update f id (pushed m (f id)) k).closed ≡ false
update_open m id k f h o = ground arith

delivered-cons :
    (m : Object) (id : ℕ) (c : Client) (rest : List (ℕ × Client)) (f : ℕ → Chan Object) (k : ℕ)
    → lookup id rest ≡ none
    → delivered m rest (update f id (pushed m (f id))) k ≡ delivered m ((id, c) ∷ rest) f k
unfolding lookup
delivered-cons m id c rest f k u = ground (arith, u, ap (λ j. lookup j rest), ap f)

pub deliver-delivered :
    (m : Object) (cs : List (ℕ × Client)) (f : ℕ → Chan Object)
    → Unique cs
    → All (λ p. (f p.0).closed ≡ false) cs
    → (g : ℕ → Chan Object) × (deliver m cs f ≡ running g) × ((k : ℕ) → g k ≡ delivered m cs f k)
unfolding deliver lookup
deliver-delivered m [] f u h = (f, refl, λ k. refl)
deliver-delivered m ((id, c) ∷ rest) f u h =
    let (b, e) = try_send-pushed (f id) m h.0 in
    let (g, e', d) =
      deliver-delivered m rest (update f id (pushed m (f id))) u.1
        (All-map rest (λ p o. update_open m id p.0 f h.0 o) h.1) in
    (g, rw (e, deliver) e', λ k. d k ∙ delivered-cons m id c rest f k u.0)

-- From a state with the invariant a broadcast never panics; every registered client gets the
-- message at the end of its buffer if there is room and keeps its buffer if there is none; no
-- other channel changes, and nobody is registered or dropped.
pub broadcast_reaches_all :
    (s : Server) (message : Object)
    → Inv s
    → (t : Server) × (on_broadcast s message ≡ running t)
      × (t.clients ≡ s.clients)
      × ((k : ℕ) → t.sends k ≡ delivered message s.clients s.sends k)
unfolding on_broadcast
broadcast_reaches_all s message v =
    let live =
      All-of_lookup (λ k. (s.sends k).closed ≡ false) s.clients v.unique
        (λ k c h. (v.registered k c h).1) in
    let (g, e, d) = deliver-delivered message s.clients s.sends v.unique live in
    (record s { sends = g }, rw (e, on_broadcast), refl, d)

-- While the server runs with nobody else waiting to leave: once a registered client hangs up and
-- is taken off the map, one more event of a replay that is still going on for it panics.
pub late_replay_panics :
    (s : Server) (c d : Client) (message : Object)
    → Inv s
    → lookup c.id s.clients ≡ some d
    → s.unregister ≡ []
    → s.stopped ≡ false
    → run_all s (hang_up c ∷ run_unregister ∷ replay c.id message ∷ []) ≡ panicked
unfolding run_all step on_unregister close replay_send try_send
late_replay_panics s c d message v h q r = ground (arith, (v.registered c.id d h).1)
