-- ===== src/Ingest/Stream/Calm.antt =====
-- Which frames panic the handler, and what the others leave.
use at_protocol_infrastructu.Prelude.{
  ◌≡◌, ◌⊎◌, ◌↔◌, Bool-cases, sym, ap, true, refl, ◌∙◌, false, none, some, Option, String, inl, inr,
  Option-cases, arith,
}
use at_protocol_infrastructu.Prelude.Result.{ok}
use at_protocol_infrastructu.Channel.{running, panicked, Chan, try_send, try_send-Sent}
use at_protocol_infrastructu.Ingest.Event.{Event, Time, Bytes}
use at_protocol_infrastructu.Ingest.Client.{PdsClient}
use at_protocol_infrastructu.Ingest.Stream.{
  StreamEvent, Select, send_ready, timed_out, ctx_done, Handled, info_event, to_event, hand_on,
  note_event, deliver_event, handle_repo_stream_event,
}
use at_protocol_infrastructu.Ingest.Stream.Handling.{IsBareInfo, bare_info_panics}

-- What a frame leaves of the client.
pub record Same (c t : PdsClient) : Type 0 where
  pub same_host : t.hostname ≡ c.hostname
  pub same_reconnect : t.reconnect_delay ≡ c.reconnect_delay
  pub same_max : t.max_reconnect_delay ≡ c.max_reconnect_delay
  pub same_delay : t.current_delay ≡ c.current_delay

-- What the handler leaves: the client of the same host and delays, and an open channel.
abbrev pub Kept : PdsClient → Handled → Type 0
Kept c (t, ch, r) = Same c t × (ch.closed ≡ false)

pub same_self : (c : PdsClient) → Same c c
same_self c = record { same_host = refl; same_reconnect = refl; same_max = refl; same_delay = refl }

pub same_trans : (c t u : PdsClient) → Same c t → Same t u → Same c u
same_trans c t u a b = record {
  same_host = b.same_host ∙ a.same_host;
  same_reconnect = b.same_reconnect ∙ a.same_reconnect;
  same_max = b.same_max ∙ a.same_max;
  same_delay = b.same_delay ∙ a.same_delay;
}

note_event-Same : (c : PdsClient) (event : Event) → Same c (note_event c event)
unfolding note_event
note_event-Same c event = record {
  same_host = refl;
  same_reconnect = refl;
  same_max = refl;
  same_delay = refl;
}

hand_on-Kept :
    (choice : Select) (c : PdsClient) (ch : Chan Event) (o : Option Event)
    → ch.closed ≡ false
    → (x : Handled) × (hand_on choice c ch o ≡ running x) × Kept c x
unfolding hand_on deliver_event
hand_on-Kept choice c ch none o = (_, refl, (same_self c, o))
hand_on-Kept timed_out c ch (some event) o = (_, refl, (note_event-Same c event, o))
hand_on-Kept ctx_done c ch (some event) o = (_, refl, (note_event-Same c event, o))
hand_on-Kept send_ready c ch (some event) o =
    let (r, e, sent) = try_send-Sent ch event o in
    ((note_event c event, r.0, ok tt), rw e refl, (note_event-Same c event, sent.still_open))

module _ (extract : Bytes → String → String → String) where
  -- The switch panics on a bare info frame alone.
  to_event_ways :
      (host : String) (now : Time) (evt : StreamEvent)
      → IsBareInfo evt ⊎ ((o : Option Event) × (to_event extract host now evt ≡ running o))
  unfolding to_event info_event
  to_event_ways host now evt = elim (Option-cases evt.repo_commit) [
    | inr (x, e1) ↦ rw e1 (inr (_, refl))
    | inl e1 ↦ elim (Option-cases evt.repo_identity) [
      | inr (x, e2) ↦ rw (e1, e2) (inr (_, refl))
      | inl e2 ↦ elim (Option-cases evt.repo_account) [
        | inr (x, e3) ↦ rw (e1, e2, e3) (inr (_, refl))
        | inl e3 ↦ elim (Option-cases evt.repo_sync) [
          | inr (x, e4) ↦ rw (e1, e2, e3, e4) (inr (_, refl))
          | inl e4 ↦ elim (Option-cases evt.repo_info) [
            | inl e5 ↦ rw (e1, e2, e3, e4, e5) (inr (_, refl))
            | inr (info, e5) ↦ elim (Option-cases info.message) [
              | inr (t, e6) ↦ rw (e1, e2, e3, e4, e5, e6) (inr (_, refl))
              | inl e6 ↦ inl (record {
                info = info;
                no_commit = e1;
                no_identity = e2;
                no_account = e3;
                no_sync = e4;
                is_info = e5;
                no_message = e6;
              })
            ]
          ]
        ]
      ]
    ]
  ]

  to_hand_on :
      (c : PdsClient) (ch : Chan Event) (now : Time) (choice : Select) (evt : StreamEvent)
      (o : Option Event)
      → evt.error ≡ none
      → to_event extract c.hostname now evt ≡ running o
      → handle_repo_stream_event extract c ch now choice evt ≡ hand_on choice c ch o
  unfolding handle_repo_stream_event
  to_hand_on c ch now choice evt o e ran = ground arith

  -- The handler on an open channel.
  pub handle_repo_stream_event-Kept :
      (c : PdsClient) (ch : Chan Event) (now : Time) (choice : Select) (evt : StreamEvent)
      → ¬ IsBareInfo evt
      → ch.closed ≡ false
      → (x : Handled) × (handle_repo_stream_event extract c ch now choice evt ≡ running x)
        × Kept c x
  unfolding handle_repo_stream_event
  handle_repo_stream_event-Kept c ch now choice evt calm o = elim (Option-cases evt.error) [
    | inr ((error, message), e) ↦ rw e (_, refl, (same_self c, o))
    | inl e ↦ elim (to_event_ways c.hostname now evt) [
      | inl bare ↦ absurd (calm bare)
      | inr (event, ran) ↦
          let (x, went, k) = hand_on-Kept choice c ch event o in
          (x, to_hand_on c ch now choice evt event e ran ∙ went, k)
    ]
  ]

  -- The two ways in which the handler of a frame panics.
  abbrev pub Trouble : PdsClient → Chan Event → Time → Select → StreamEvent → Type 0
  Trouble c ch now choice evt =
      (evt.error ≡ none)
      × (IsBareInfo evt
          ⊎ ((event : Event) × (to_event extract c.hostname now evt ≡ running (some event))
              × (choice ≡ send_ready)
              × (ch.closed ≡ true)))

  hand_on_closed :
      (choice : Select) (c : PdsClient) (ch : Chan Event) (o : Option Event)
      → hand_on choice c ch o ≡ panicked
      → (event : Event) × (o ≡ some event) × (choice ≡ send_ready) × (ch.closed ≡ true)
  unfolding hand_on deliver_event
  hand_on_closed choice c ch none h = absurd (cc)
  hand_on_closed timed_out c ch (some event) h = absurd (cc)
  hand_on_closed ctx_done c ch (some event) h = absurd (cc)
  hand_on_closed send_ready c ch (some event) h = elim (Bool-cases ch.closed) [
    | inl c ↦ (event, refl, refl, c)
    | inr open_chan ↦
        let (x, went, _) = hand_on-Kept send_ready c ch (some event) open_chan in absurd (cc)
  ]

  sends_closed :
      (choice : Select) (c : PdsClient) (ch : Chan Event) (event : Event)
      → choice ≡ send_ready
      → ch.closed ≡ true
      → hand_on choice c ch (some event) ≡ panicked
  unfolding hand_on deliver_event try_send
  sends_closed send_ready c ch event e shut = rw shut refl
  sends_closed timed_out c ch event e shut = absurd (cc)
  sends_closed ctx_done c ch event e shut = absurd (cc)

  -- The handler of a frame panics exactly if the frame has no error, and either it is an info
  -- frame without a message, which nothing else in the switch comes before, or it becomes an
  -- event, the last select takes the send, and the channel is closed.
  pub handle_repo_stream_event-panics_iff :
      (c : PdsClient) (ch : Chan Event) (now : Time) (choice : Select) (evt : StreamEvent)
      → (handle_repo_stream_event extract c ch now choice evt ≡ panicked)
        ↔ Trouble c ch now choice evt
  unfolding handle_repo_stream_event
  handle_repo_stream_event-panics_iff c ch now choice evt = (to, from)
    where
      to :
          handle_repo_stream_event extract c ch now choice evt ≡ panicked
          → Trouble c ch now choice evt
      to h = elim (Option-cases evt.error) [
        | inr ((error, message), e) ↦ absurd (ground arith)
        | inl e ↦ (
          e,
          elim (to_event_ways c.hostname now evt) [
            | inl bare ↦ inl bare
            | inr (o, ran) ↦
                let (event, some_event, ready, shut) =
                  hand_on_closed choice c ch o (sym (to_hand_on c ch now choice evt o e ran) ∙ h) in
                inr (event, ran ∙ ap (λ x. running x) some_event, ready, shut)
          ],
        )
      ]

      from :
          Trouble c ch now choice evt
          → handle_repo_stream_event extract c ch now choice evt ≡ panicked
      from (e, inl bare) = bare_info_panics extract c ch now choice evt e bare
      from (e, inr (event, ran, ready, shut)) =
          to_hand_on c ch now choice evt (some event) e ran
          ∙ sends_closed choice c ch event ready shut
