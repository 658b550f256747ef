-- ===== src/Ingest/Manager/Hosts.antt =====
-- Hosts are added once, and start where their cursor was saved.
use at_protocol_infrastructu.Prelude.{
  ℕ, ◌≡◌, refl, subst, sym, if_cases, inl, inr, Bool, false, Option, none, some, List, String, ◌==◌,
  string_eq, if◌then◌else◌, Option-cases,
}
use at_protocol_infrastructu.Prelude.Assoc.{lookup, insert, Unique, insert-Unique, lookup-insert}
use at_protocol_infrastructu.Prelude.Int.{ℤ}
use at_protocol_infrastructu.Ingest.Event.{Time}
use at_protocol_infrastructu.Ingest.Client.{PdsClient, new_pds_client, get_cursor, get_stats}
use at_protocol_infrastructu.Ingest.Manager.{
  CursorStore, Manager, status_of, add_host, starting_cursor, get_host_status,
}

module _ {ℓ} {E : Type ℓ} {W : Type 0} where
  pub add_host_old :
      (m : Manager) (store : Option (CursorStore E W)) (h : String) (w : W) (c : PdsClient)
      → lookup h m.clients ≡ some c
      → add_host m store h w ≡ m
  unfolding add_host
  add_host_old m store h w c e = rw (e, add_host) refl

  pub add_host_new :
      (m : Manager) (store : Option (CursorStore E W)) (h : String) (w : W)
      → lookup h m.clients ≡ none
      → (add_host m store h w).clients
        ≡ insert h
            (new_pds_client h (starting_cursor store h w) m.reconnect_delay m.max_reconnect_delay)
            m.clients
  unfolding add_host
  add_host_new m store h w e = rw (e, add_host) refl

  pub add_host-chan :
      (m : Manager) (store : Option (CursorStore E W)) (h : String) (w : W)
      → (add_host m store h w).event_chan ≡ m.event_chan
  unfolding add_host
  add_host-chan m store h w = elim (Option-cases (lookup h m.clients)) [
    | inl e ↦ rw (e, add_host) refl
    | inr (c, e) ↦ rw (e, add_host) refl
  ]

  -- The status of `j` once `h` was added.
  abbrev pub status_after :
      Manager
      → Option (CursorStore E W)
      → String
      → String
      → W
      → Option PdsClient
      → Bool × ℤ × ℕ × Time
  status_after m store h j w (some _) = get_host_status m j
  status_after m store h j w none =
      if h == j then (false, starting_cursor store h w, 0, 0) else get_host_status m j

  -- After a host is added the status of every host is known: a host that was there keeps its
  -- client, a new one is not connected, starts from its saved cursor and has no events, and the
  -- others are untouched.
  get_host_status-add_host :
      (m : Manager) (store : Option (CursorStore E W)) (h j : String) (w : W)
      → get_host_status (add_host m store h w) j ≡ status_after m store h j w (lookup h m.clients)
  unfolding get_host_status status_of new_pds_client get_stats get_cursor
  get_host_status-add_host m store h j w = elim (Option-cases (lookup h m.clients)) [
    | inr (c, e) ↦ rw (e, add_host_old m store h w c e) refl
    | inl e ↦
        rw
          (
            e,
            add_host_new m store h w e,
            lookup-insert h j
                (new_pds_client h (starting_cursor store h w) m.reconnect_delay
                  m.max_reconnect_delay)
                m.clients,
          )
          (if_cases (λ o. status_of o ≡ status_after m store h j w none) (h == j) _ _
            (λ q. rw q refl) (λ q. rw q refl))
  ]

  -- If no host has two clients, none has after a host is added.
  pub add_host-Unique :
      (m : Manager) (store : Option (CursorStore E W)) (h : String) (w : W)
      → Unique m.clients
      → Unique (add_host m store h w).clients
  add_host-Unique m store h w u = elim (Option-cases (lookup h m.clients)) [
    | inr (c, e) ↦ subst (λ (n : Manager). Unique n.clients) (sym (add_host_old m store h w c e)) u
    | inl e ↦
        subst (λ (l : List (String × PdsClient)). Unique l) (sym (add_host_new m store h w e))
          (insert-Unique h _ m.clients u)
  ]
