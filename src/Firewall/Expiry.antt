-- ===== src/Firewall/Expiry.antt =====
-- How long a tracked key stays open.
use neth.Base.{ℕ, ◌+◌, ◌≡◌, refl, ◌∙◌, false, List, [], ◌∷◌, arith, some, ltb}
use neth.Base.Text.{Text}
use neth.Base.Assoc.{lookup}
use neth.Net.{Addr}
use neth.Firewall.Tracking.{
  IsConntrack, packet_key, track, track-IsConntrack, is_established, expire-IsConntrack,
  is_established_lem, lookup-track, lookup-expire, same_conn_iff, conn_key, ttl_of,
}
use neth.Firewall.{Firewall, allow_inbound, allow_outbound, expire_with}
use neth.Firewall.Laws.{allow_inbound_cases, allow_outbound_cases}
use neth.Firewall.History.{Event, inbound, outbound, expiry, step, run}

-- Only packets, no expiry.
abbrev pub Packets : List Event → Type 0
Packets [] = Unit
Packets (inbound now ip groups port proto ∷ es) = Packets es
Packets (outbound now ip groups port proto ∷ es) = Packets es
Packets (expiry tcp udp other now ∷ es) = ⊥

-- A key that was tracked at a time is open after expiry exactly while its protocol's timeout
-- since that time has not passed.
pub is_established-expire_with :
    (tcp udp other now tracked_at : ℕ) (ip : Addr) (port proto : ℕ) (f : Firewall)
    → IsConntrack f.ct
    → lookup (packet_key ip port proto) f.ct ≡ some tracked_at
    → is_established (packet_key ip port proto) (expire_with tcp udp other now f).ct
      ≡ ltb now (tracked_at + ttl_of tcp udp other proto)
unfolding expire_with
is_established-expire_with tcp udp other now tracked_at ip port proto f is here =
    is_established_lem ip port proto _ (expire-IsConntrack tcp udp other now f.ct is)
    ∙ ground
        (arith, lookup-expire tcp udp other now (packet_key ip port proto) f.ct is.distinct, here)

-- The key keeps the time at which it was first tracked.
module _ (ip : Addr) (port proto tracked_at : ℕ) where
  record TrackedAt (f : Firewall) : Type 0 where
    is_conntrack : IsConntrack f.ct
    time : lookup (packet_key ip port proto) f.ct ≡ some tracked_at

  -- A key is tracked anew only if it is not tracked yet.
  TrackedAt-track :
      (f : Firewall) (now : ℕ) (jp : Addr) (q p : ℕ)
      → IsConntrack (track now (packet_key jp q p) f.ct)
      → is_established (packet_key jp q p) f.ct ≡ false
      → TrackedAt f
      → TrackedAt (record f { ct = track now (packet_key jp q p) f.ct })
  TrackedAt-track f now jp q p is fresh t =
      let k = packet_key jp q p in
      let j = packet_key ip port proto in
      record {
        is_conntrack = is;
        time = ground (
          arith,
          is_established_lem jp q p f.ct t.is_conntrack,
          lookup-track now k j f.ct,
          same_conn_iff k j,
          t.time,
        );
      }

  step-TrackedAt :
      (f : Firewall) (now : ℕ) (jp : Addr) (groups : List Text) (q p : ℕ)
      → TrackedAt f
      → TrackedAt (allow_inbound now jp groups q p f).0
        × TrackedAt (allow_outbound now jp groups q p f).0
  step-TrackedAt f now jp groups q p t =
      let is = track-IsConntrack now (packet_key jp q p) f.ct refl refl t.is_conntrack in
      let opened = λ (e : is_established (packet_key jp q p) f.ct ≡ false).
        TrackedAt-track f now jp q p is e t in
      (
        allow_inbound_cases (λ r. TrackedAt r.0) now jp groups q p f (λ _. t) (λ e _. opened e)
            (λ _. t),
        allow_outbound_cases (λ r. TrackedAt r.0) now jp groups q p f (λ _. t) (λ e _. opened e)
            (λ _. t),
      )

  run-TrackedAt : (f : Firewall) (es : List Event) → Packets es → TrackedAt f → TrackedAt (run f es)
  unfolding run step
  run-TrackedAt f [] packets t = t
  run-TrackedAt f (inbound now jp groups q p ∷ es) packets t =
      run-TrackedAt (allow_inbound now jp groups q p f).0 es packets
        ((step-TrackedAt f now jp groups q p t).0)
  run-TrackedAt f (outbound now jp groups q p ∷ es) packets t =
      run-TrackedAt (allow_outbound now jp groups q p f).0 es packets
        ((step-TrackedAt f now jp groups q p t).1)
  run-TrackedAt f (expiry tcp udp other now ∷ es) packets t = elim packets [ ]

-- Traffic does not prolong a tracked key: whatever packets pass in either direction after a key
-- was tracked, those of the key itself included, expiry at a time past the protocol's timeout
-- since the first tracking closes the key, and expiry before that time does not.
pub is_established-expire_with-run :
    (tcp udp other now tracked_at : ℕ) (ip : Addr) (port proto : ℕ) (f : Firewall) (es : List Event)
    → IsConntrack f.ct
    → lookup (packet_key ip port proto) f.ct ≡ some tracked_at
    → Packets es
    → is_established (packet_key ip port proto) (expire_with tcp udp other now (run f es)).ct
      ≡ ltb now (tracked_at + ttl_of tcp udp other proto)
is_established-expire_with-run tcp udp other now tracked_at ip port proto f es is here packets =
    let later =
      run-TrackedAt ip port proto tracked_at f es packets
        (record { is_conntrack = is; time = here }) in
    is_established-expire_with tcp udp other now tracked_at ip port proto (run f es)
      later.is_conntrack later.time
