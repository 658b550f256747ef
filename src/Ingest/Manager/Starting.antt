-- ===== src/Ingest/Manager/Starting.antt =====
-- `NewManager` and `Start`: a client for each host of the configuration.
use text.Mathlib.TextEquality.{eq_iff}
use at_protocol_infrastructu.Prelude.{
  ℕ, ◌≡◌, refl, ap, subst, sym, ◌∙◌, inl, inr, ◌⊎◌, false, Option, some, List, [], ◌∷◌, String,
  ◌==◌, string_eq, arith, All, Bool-cases, Option-cases,
}
use at_protocol_infrastructu.Prelude.Assoc.{lookup, insert, Unique, lookup-insert}
use at_protocol_infrastructu.Prelude.Int.{ℤ, pos, negsuc}
use at_protocol_infrastructu.Channel.{Outcome, running, panicked, ◌>>=◌, make, make_sized}
use at_protocol_infrastructu.Config.{IngestConfig, Config, validate}
use at_protocol_infrastructu.Prelude.Result.{ok}
use at_protocol_infrastructu.Ingest.Client.{
  PdsClient, Duration, new_pds_client, get_cursor, get_stats,
}
use at_protocol_infrastructu.Ingest.Manager.{
  CursorStore, Counters, Manager, status_of, add_host, starting_cursor, get_host_status,
}
use at_protocol_infrastructu.Ingest.Manager.Hosts.{add_host_old, add_host_new, add_host-Unique}

-- `NewManager`
unfoldable pub new_manager : IngestConfig → Option Counters → Outcome Manager
new_manager cfg m = do
  ch ← make_sized cfg.buffer_size
  running (record {
    reconnect_delay = cfg.reconnect_delay;
    max_reconnect_delay = cfg.max_reconnect_delay;
    clients = [];
    event_chan = ch;
    metrics = m;
  })

-- The workers that `for i := 0; i < n; i++` starts.
unfoldable pub worker_number : ℤ → ℕ
worker_number (pos n) = n
worker_number (negsuc n) = 0

-- What is found after an insertion is the new value, or was there.
inserted :
    (h j : String) (v c : PdsClient) (clients : List (String × PdsClient))
    → lookup j (insert h v clients) ≡ some c
    → ((h ≡ j) × (v ≡ c)) ⊎ (lookup j clients ≡ some c)
inserted h j v c clients q = elim (Bool-cases (h == j)) [
  | inl here ↦ inl ((eq_iff h j).0 here, ground (arith, lookup-insert h j v clients))
  | inr other ↦ inr (ground (arith, lookup-insert h j v clients))
]

there :
    (h j : String) (v : PdsClient) (clients : List (String × PdsClient))
    → (h ≡ j) ⊎ ((c : PdsClient) × (lookup j clients ≡ some c))
    → (c : PdsClient) × (lookup j (insert h v clients) ≡ some c)
there h j v clients (inl e) = (v, ground (arith, lookup-insert h j v clients, eq_iff h j))
there h j v clients (inr (c, q)) = elim (Bool-cases (h == j)) [
  | inl here ↦ (v, ground (arith, lookup-insert h j v clients))
  | inr other ↦ (c, ground (arith, lookup-insert h j v clients))
]

module _ {ℓ} {E : Type ℓ} {W : Type 0} (store : Option (CursorStore E W)) (w : W) where
  -- The loop over the initial hosts; the cursors are read from a store that nobody writes yet.
  unfoldable pub add_hosts : Manager → List String → Manager
  add_hosts m [] = m
  add_hosts m (host ∷ rest) = add_hosts (add_host m store host w) rest

  -- `Start`: the number of workers, and the manager with its clients. The workers, `updateMetrics`
  -- and each client are goroutines that run at once; this is the state that they are given. Their
  -- own steps are in Relay/Workers, Ingest/Manager/Refreshing and Ingest/Serving.
  unfoldable pub start : IngestConfig → Manager → ℕ × Manager
  unfolding worker_number add_hosts
  start cfg m = (worker_number cfg.worker_count, add_hosts m cfg.initial_hosts)

  module _ (d e : Duration) where
    -- Every client is the one that `AddHost` makes for its host.
    record AllNew (m : Manager) : Type ℓ where
      delay : m.reconnect_delay ≡ d
      max_delay : m.max_reconnect_delay ≡ e
      fresh :
          (j : String) (c : PdsClient)
          → lookup j m.clients ≡ some c
          → c ≡ new_pds_client j (starting_cursor store j w) d e

    add_host-AllNew : (m : Manager) (h : String) → AllNew m → AllNew (add_host m store h w)
    unfolding add_host
    add_host-AllNew m h a = elim (Option-cases (lookup h m.clients)) [
      | inr (c, old) ↦ subst AllNew (sym (add_host_old m store h w c old)) a
      | inl new ↦
          rw (new, add_host)
            (record {
              delay = a.delay;
              max_delay = a.max_delay;
              fresh = λ j c q. elim (inserted h j _ c m.clients q) [
                | inr old ↦ a.fresh j c old
                | inl (same, made) ↦
                    sym made
                    ∙ ap
                        (λ x.
                          new_pds_client x (starting_cursor store x w) m.reconnect_delay
                            m.max_reconnect_delay)
                        same
                    ∙ ap (λ x. new_pds_client j (starting_cursor store j w) x m.max_reconnect_delay)
                        a.delay
                    ∙ ap (new_pds_client j (starting_cursor store j w) d) a.max_delay
              ];
            })
    ]

    -- A host that was added, or had a client, has one.
    add_host_there :
        (m : Manager) (h j : String)
        → (h ≡ j) ⊎ ((c : PdsClient) × (lookup j m.clients ≡ some c))
        → (c : PdsClient) × (lookup j (add_host m store h w).clients ≡ some c)
    add_host_there m h j q = elim (Option-cases (lookup h m.clients)) [
      | inr (o, old) ↦ rw (add_host_old m store h w o old) (elim q [
        | inl e ↦ (o, subst (λ x. lookup x m.clients ≡ some o) e old)
        | inr known ↦ known
      ])
      | inl new ↦ rw (add_host_new m store h w new) (there h j _ m.clients q)
    ]

    -- A host whose client is as `AddHost` made it.
    abbrev IsNew : Manager → String → Type 0
    IsNew m j = get_host_status m j ≡ (false, starting_cursor store j w, 0, 0)

    IsNew-status :
        (m : Manager) (j : String) (c : PdsClient)
        → AllNew m
        → lookup j m.clients ≡ some c
        → IsNew m j
    unfolding get_host_status status_of new_pds_client get_cursor get_stats
    IsNew-status m j c a q = rw (q, status_of, a.fresh j c q) refl

    add_hosts_kept :
        (m : Manager) (hosts : List String) (j : String) (c : PdsClient)
        → AllNew m
        → lookup j m.clients ≡ some c
        → IsNew (add_hosts m hosts) j
    unfolding add_hosts
    add_hosts_kept m [] j c a q = IsNew-status m j c a q
    add_hosts_kept m (h ∷ rest) j c a q =
        let (c', q') = add_host_there m h j (inr (c, q)) in
        add_hosts_kept (add_host m store h w) rest j c' (add_host-AllNew m h a) q'

    add_hosts-All :
        (m : Manager) (hosts : List String)
        → AllNew m
        → Unique m.clients
        → All (IsNew (add_hosts m hosts)) hosts × Unique (add_hosts m hosts).clients
    unfolding add_hosts
    add_hosts-All m [] a u = (tt, u)
    add_hosts-All m (h ∷ rest) a u =
        let (c, q) = add_host_there m h h (inl refl) in
        let next = add_host-AllNew m h a in
        let (all, unique) =
          add_hosts-All (add_host m store h w) rest next (add_host-Unique m store h w u) in
        ((add_hosts_kept (add_host m store h w) rest h c next q, all), unique)

  -- With a buffer size that is not negative a manager is made, and once it has started it has one
  -- worker for each of the configured number, and for every initial host one client, which is not
  -- connected, stands at the saved cursor of the host and has no events.
  pub start_lem :
      (cfg : IngestConfig) (metrics : Option Counters) (size : ℕ)
      → cfg.buffer_size ≡ pos size
      → (m : Manager) × (new_manager cfg metrics ≡ running m)
        × ((start cfg m).0 ≡ worker_number cfg.worker_count)
        × All
            (λ j. get_host_status (start cfg m).1 j ≡ (false, starting_cursor store j w, 0, 0))
            cfg.initial_hosts
        × Unique (start cfg m).1.clients
  unfolding new_manager start make_sized lookup
  start_lem cfg metrics size e =
      let m : Manager = record {
        reconnect_delay = cfg.reconnect_delay;
        max_reconnect_delay = cfg.max_reconnect_delay;
        clients = [];
        event_chan = make size;
        metrics = metrics;
      } in
      let new : AllNew cfg.reconnect_delay cfg.max_reconnect_delay m = record {
        delay = refl;
        max_delay = refl;
        fresh = λ j c q. absurd (cc);
      } in
      let (all, unique) =
        add_hosts-All cfg.reconnect_delay cfg.max_reconnect_delay m cfg.initial_hosts new tt in
      (m, ap made e, refl, all, unique)
    where
      made : ℤ → Outcome Manager
      made z = new_manager (record cfg { buffer_size = z }) metrics

abbrev pub with_buffer : ℤ → Config → Config
with_buffer size cfg = record cfg { ingest = record cfg.ingest { buffer_size = size } }

-- Every configuration that is accepted is accepted with a negative buffer size too, and then no
-- manager is made: the relay panics at its start.
pub negative_buffer_panics :
    (cfg : Config) (metrics : Option Counters) (n : ℕ)
    → validate cfg ≡ ok tt
    → (validate (with_buffer (negsuc n) cfg) ≡ ok tt)
      × (new_manager (with_buffer (negsuc n) cfg).ingest metrics ≡ panicked)
unfolding new_manager make_sized validate
negative_buffer_panics cfg metrics n valid = (valid, refl)
