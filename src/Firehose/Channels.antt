-- ===== src/Firehose/Channels.antt =====
-- Changes of the channels that close none and stay within their capacities.
use at_protocol_infrastructu.Prelude.{
  ℕ, ◌≤◌, ◌≡◌, refl, Bool, false, List, [], ◌∷◌, ap, ◌∙◌, arith, nat_eq, length, All, All-map,
}
use at_protocol_infrastructu.Channel.{running, Chan, Sent, try_send-Sent}
use at_protocol_infrastructu.Firehose.Message.{Object}
use at_protocol_infrastructu.Firehose.Server.{Client, update, deliver}

pub record SameChans (f g : ℕ → Chan Object) : Type 0 where
  pub flags : (k : ℕ) → (g k).closed ≡ (f k).closed
  pub caps : (k : ℕ) → (g k).cap ≡ (f k).cap
  pub bounds : (k : ℕ) → length (f k).buffer ≤ (f k).cap → length (g k).buffer ≤ (g k).cap

pub update-SameChans :
    (f : ℕ → Chan Object) (k : ℕ) (r : Chan Object × Bool)
    → (f k).closed ≡ false
    → Sent (f k) r
    → SameChans f (update f k r.0)
update-SameChans f k r h s = record {
  flags = λ j. ground (arith, ap f);
  caps = λ j. ground arith;
  bounds = λ j b. ground arith;
}

pub SameChans-refl : (f : ℕ → Chan Object) → SameChans f f
SameChans-refl f = record { flags = λ k. refl; caps = λ k. refl; bounds = λ k b. b }

pub SameChans-trans : {f g h : ℕ → Chan Object} → SameChans f g → SameChans g h → SameChans f h
SameChans-trans p q = record {
  flags = λ k. q.flags k ∙ p.flags k;
  caps = λ k. q.caps k ∙ p.caps k;
  bounds = λ k b. q.bounds k (p.bounds k b);
}

-- The loop over the clients sends on open channels only, so it never panics.
pub deliver-SameChans :
    (message : Object) (cs : List (ℕ × Client)) (f : ℕ → Chan Object)
    → All (λ p. (f p.0).closed ≡ false) cs
    → (g : ℕ → Chan Object) × (deliver message cs f ≡ running g) × SameChans f g
unfolding deliver
deliver-SameChans message [] f h = (f, refl, SameChans-refl f)
deliver-SameChans message ((id, c) ∷ rest) f h =
    let (r, e, sent) = try_send-Sent (f id) message h.0 in
    let same = update-SameChans f id r h.0 sent in
    let (g, e', same') =
      deliver-SameChans message rest (update f id r.0)
        (All-map rest (λ p o. same.flags p.0 ∙ o) h.1) in
    (g, rw (e, deliver) e', SameChans-trans same same')

-- Any change of the channels that keeps their flags keeps the invariant.
