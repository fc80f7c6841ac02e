-- ===== src/Firewall/History.antt =====
-- The firewall over a run of the program: any sequence of packets in both directions and of expiry.
use neth.Base.{
  ℕ, ◌≡◌, refl, ◌∙◌, true, false, List, [], ◌∷◌, arith, ap, none, inl, inr, ◌⊎◌, Bool-cases,
}
use neth.Base.Text.{Text}
use neth.Base.Assoc.{lookup}
use neth.Net.{Addr}
use neth.Firewall.Rules.{Rule}
use neth.Firewall.Tracking.{
  IsConntrack, ConnKey, packet_key, track, track-IsConntrack, same_conn, expire-IsConntrack,
  new_conntrack-IsConntrack, is_established_lem, lookup-track, lookup-expire, same_conn_iff,
  conn_key,
}
use neth.Firewall.{Firewall, new, allow_inbound, allow_outbound, expire_with}
use neth.Firewall.Laws.{matching, allow_lem, allow_inbound_cases, allow_outbound_cases}

-- A call of the firewall with its arguments and the clock's reading.
pub data Event : Type 0 where
  inbound outbound : ℕ → Addr → List Text → ℕ → ℕ → Event
  expiry : ℕ → ℕ → ℕ → ℕ → Event

unfoldable pub step : Firewall → Event → Firewall
step f (inbound now ip groups port proto) = (allow_inbound now ip groups port proto f).0
step f (outbound now ip groups port proto) = (allow_outbound now ip groups port proto f).0
step f (expiry tcp udp other now) = expire_with tcp udp other now f

unfoldable pub run : Firewall → List Event → Firewall
run f [] = f
run f (e ∷ es) = run (step f e) es

-- No rule of the two lists matches the packet, in whatever groups the peer is.
abbrev pub Unmatched : List Rule → List Rule → Addr → ℕ → ℕ → Type 0
Unmatched inbound_rules outbound_rules ip port proto =
    (groups : List Text)
    → (matching inbound_rules ip groups port proto ≡ false)
      × (matching outbound_rules ip groups port proto ≡ false)

module _ (ip : Addr) (port proto : ℕ) where
  -- The key is closed, and the rules are still those that do not match it.
  record Closed (f : Firewall) : Type 0 where
    is_conntrack : IsConntrack f.ct
    unmatched : Unmatched f.inbound f.outbound ip port proto
    untracked : lookup (packet_key ip port proto) f.ct ≡ none

  Closed-track :
      (f : Firewall) (now : ℕ) (jp : Addr) (groups : List Text) (q p : ℕ)
      → Closed f
      → (matching f.inbound jp groups q p ≡ true) ⊎ (matching f.outbound jp groups q p ≡ true)
      → Closed (record f { ct = track now (packet_key jp q p) f.ct })
  Closed-track f now jp groups q p c matched =
      let k = packet_key jp q p in
      let j = packet_key ip port proto in
      record {
        is_conntrack = track-IsConntrack now k f.ct refl refl c.is_conntrack;
        unmatched = c.unmatched;
        untracked = elim (Bool-cases (same_conn k j)) [
          | inl hit ↦
              let same = (same_conn_iff k j).0 hit in
              ground (
                arith,
                c.unmatched groups,
                ap (λ (x : ConnKey). matching f.inbound x.dst_ip groups x.dst_port x.proto) same,
                ap (λ (x : ConnKey). matching f.outbound x.dst_ip groups x.dst_port x.proto) same,
              )
          | inr miss ↦ ground (arith, lookup-track now k j f.ct, c.untracked)
        ];
      }

  step-Closed : (f : Firewall) (e : Event) → Closed f → Closed (step f e)
  unfolding step
  step-Closed f (inbound now jp groups q p) c =
      allow_inbound_cases (λ r. Closed r.0) now jp groups q p f (λ _. c)
        (λ _. Closed-track f now jp groups q p c) (λ _. c)
  step-Closed f (outbound now jp groups q p) c =
      allow_outbound_cases (λ r. Closed r.0) now jp groups q p f (λ _. c)
        (λ _. Closed-track f now jp groups q p c) (λ _. c)
  step-Closed f (expiry tcp udp other now) c =
      unfold expire_with in
      record {
        is_conntrack = expire-IsConntrack tcp udp other now f.ct c.is_conntrack;
        unmatched = c.unmatched;
        untracked =
            lookup-expire tcp udp other now (packet_key ip port proto) f.ct c.is_conntrack.distinct
            ∙ rw c.untracked;
      }

  run-Closed : (f : Firewall) (es : List Event) → Closed f → Closed (run f es)
  unfolding run
  run-Closed f [] c = c
  run-Closed f (e ∷ es) c = run-Closed (step f e) es (step-Closed f e c)

  Closed-refuses :
      (f : Firewall) (now : ℕ) (groups : List Text)
      → Closed f
      → (allow_inbound now ip groups port proto f ≡ (f, false))
        × (allow_outbound now ip groups port proto f ≡ (f, false))
  Closed-refuses f now groups c =
      let closed = is_established_lem ip port proto f.ct c.is_conntrack in
      let both = allow_lem now ip groups port proto f in
      ground (arith, closed, c.untracked, c.unmatched groups, both.0, both.1)

-- Default deny: if no rule of either direction matches an address, port and protocol, in whatever
-- groups, then after any sequence of calls on a new firewall, in either direction, for any
-- packets, and of expiries, such a packet is refused in both directions and changes nothing.
pub allow-run-new :
    (inbound_rules outbound_rules : List Rule) (ip : Addr) (port proto : ℕ) (es : List Event)
    (now : ℕ) (groups : List Text)
    → Unmatched inbound_rules outbound_rules ip port proto
    → let f = run (new inbound_rules outbound_rules) es in
      (allow_inbound now ip groups port proto f ≡ (f, false))
      × (allow_outbound now ip groups port proto f ≡ (f, false))
unfolding new
allow-run-new inbound_rules outbound_rules ip port proto es now groups u =
    Closed-refuses ip port proto _ now groups (
      run-Closed ip port proto (new inbound_rules outbound_rules) es (record {
        is_conntrack = new_conntrack-IsConntrack;
        unmatched = u;
        untracked = unfold lookup in refl;
      }))
