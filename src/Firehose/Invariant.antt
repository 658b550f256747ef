-- ===== src/Firehose/Invariant.antt =====
-- What every step of the firehose server keeps, whatever the schedule.
use at_protocol_infrastructu.Prelude.{
  ℕ, suc, ◌+◌, ◌^◌, ◌≤◌, ◌<◌, ◌≡◌, false, none, some, List, [], ◌∷◌, ◌++◌, subst, ◌∙◌, arith,
  nat_eq, length,
}
use at_protocol_infrastructu.Prelude.Assoc.{
  lookup, insert, delete, lookup-insert, lookup-delete, Unique,
}
use at_protocol_infrastructu.Channel.{Chan}
use at_protocol_infrastructu.Firehose.Message.{Object}
use at_protocol_infrastructu.Firehose.Server.{Client, Server, update}

-- The clients that wait to be registered: their ids grow along the queue up to the last one given
-- out, no entry of the map has them, and their channels are open.
abbrev pub Waiting : List (ℕ × Client) → (ℕ → Chan Object) → ℕ → ℕ → List Client → Type 0
Waiting m sends top low [] = low ≤ top
Waiting m sends top low (c ∷ rest) =
    (low < c.id)
    × (lookup c.id m ≡ none)
    × ((sends c.id).closed ≡ false)
    × Waiting m sends top c.id rest

pub record Inv (s : Server) : Type 0 where
  pub counted : s.client_count ≡ length s.clients
  pub issued : length s.clients + length s.register ≤ s.next_id
  pub wraps : s.next_id < 2 ^ 64
  pub unique : Unique s.clients
  pub waiting : Waiting s.clients s.sends s.next_id 0 s.register
  pub registered :
      (k : ℕ) (c : Client)
      → lookup k s.clients ≡ some c
      → (k ≤ s.next_id) × ((s.sends k).closed ≡ false)
  pub buffers : (k : ℕ) → length (s.sends k).buffer ≤ (s.sends k).cap
  pub capacities : (k : ℕ) → (s.sends k).cap ≤ 256
  pub broadcast_open : s.broadcast.closed ≡ false
  pub broadcast_cap : s.broadcast.cap ≡ 1000
  pub broadcast_bounded : length s.broadcast.buffer ≤ s.broadcast.cap

pub Waiting-le :
    (m : List (ℕ × Client)) (sends : ℕ → Chan Object) (top low : ℕ) (q : List Client)
    → Waiting m sends top low q
    → low ≤ top
Waiting-le m sends top low [] w = w
Waiting-le m sends top low (c ∷ rest) w = omega (arith, w.0, Waiting-le m sends top c.id rest w.3)

-- Registering a client leaves those behind it in the queue waiting.
pub Waiting-insert :
    (k : ℕ) (v : Client) (m : List (ℕ × Client)) (sends : ℕ → Chan Object) (top low : ℕ)
    (q : List Client)
    → k ≤ low
    → Waiting m sends top low q
    → Waiting (insert k v m) sends top low q
Waiting-insert k v m sends top low [] h w = w
Waiting-insert k v m sends top low (c ∷ rest) h w = (
  w.0,
  ground (arith, lookup-insert k c.id v m),
  w.2,
  Waiting-insert k v m sends top c.id rest (omega arith) w.3,
)

-- So does the end of a registered client, whose channel is closed.
pub Waiting-delete :
    (k : ℕ) (v : Client) (ch : Chan Object) (m : List (ℕ × Client)) (sends : ℕ → Chan Object)
    (top low : ℕ) (q : List Client)
    → lookup k m ≡ some v
    → Waiting m sends top low q
    → Waiting (delete k m) (update sends k ch) top low q
Waiting-delete k v ch m sends top low [] h w = w
Waiting-delete k v ch m sends top low (c ∷ rest) h w = (
  w.0,
  ground (arith, lookup-delete k c.id m),
  ground (arith, subst (λ j. lookup j m ≡ none)),
  Waiting-delete k v ch m sends top c.id rest h w.3,
)

-- And every change of the channels that closes none.
pub Waiting-flags :
    (m : List (ℕ × Client)) (f g : ℕ → Chan Object) (top low : ℕ) (q : List Client)
    → ((k : ℕ) → (g k).closed ≡ (f k).closed)
    → Waiting m f top low q
    → Waiting m g top low q
Waiting-flags m f g top low [] h w = w
Waiting-flags m f g top low (c ∷ rest) h w =
    (w.0, w.1, h c.id ∙ w.2, Waiting-flags m f g top c.id rest h w.3)

-- A new client takes the next id and joins the queue at its end.
pub Waiting-accept :
    (new : Client) (ch : Chan Object) (m : List (ℕ × Client)) (f : ℕ → Chan Object) (top low : ℕ)
    (q : List Client)
    → new.id ≡ suc top
    → lookup new.id m ≡ none
    → ch.closed ≡ false
    → Waiting m f top low q
    → Waiting m (update f new.id ch) (suc top) low (q ++ new ∷ [])
Waiting-accept new ch m f top low [] i n o w = (omega arith, n, ground arith, omega arith)
Waiting-accept new ch m f top low (c ∷ rest) i n o w = (
  w.0,
  w.1,
  ground (arith, Waiting-le m f top c.id rest w.3),
  Waiting-accept new ch m f top c.id rest i n o w.3,
)

pub Waiting-lower :
    (m : List (ℕ × Client)) (f : ℕ → Chan Object) (top low low' : ℕ) (q : List Client)
    → low' ≤ low
    → Waiting m f top low q
    → Waiting m f top low' q
Waiting-lower m f top low low' [] h w = omega arith
Waiting-lower m f top low low' (c ∷ rest) h w = (omega arith, w.1, w.2, w.3)
