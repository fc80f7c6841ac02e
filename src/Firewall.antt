-- ===== src/Firewall.antt =====
-- firewall/firewall.go and firewall/expiry.go.
pub mod Rules
pub mod Tracking
pub mod Laws
pub mod Verdict
pub mod Parsed
pub mod History
pub mod Expiry
use neth.Base.{
  ℕ, ◌+◌, ◌*◌, Bool, true, false, not, ◌&&◌, List, [], ◌∷◌, if◌then◌else◌, ◌==◌, ◌=?◌, bytes_key,
  any,
}
use neth.Base.Text.{Text}
use neth.Net.{Addr, contains}
use Rules.{Rule, proto_any}
use Tracking.{Conntrack, packet_key, new_conntrack, track, is_established, expire}

pub record Firewall : Type 0 where
  pub inbound : List Rule
  pub outbound : List Rule
  pub ct : Conntrack

-- New
unfoldable pub new : List Rule → List Rule → Firewall
new inbound outbound = record { inbound = inbound; outbound = outbound; ct = new_conntrack }

unfoldable pub matches : Rule → Addr → List Text → ℕ → ℕ → Bool
matches r remote_ip remote_groups port proto =
    if not (r.proto == proto_any) && not (r.proto == proto)
    then false
    else if not r.port_any && not (r.port == port)
    then false
    else if not r.group_any && not (any (λ g. g =? r.group) remote_groups)
    then false
    else if not r.cid_any && not (contains r.cidr remote_ip)
    then false
    else true

-- The loop over the rules: the first that matches tracks the key.
unfoldable pub first_match : List Rule → ℕ → Addr → List Text → ℕ → ℕ → Conntrack → Conntrack × Bool
first_match [] now ip groups port proto ct = (ct, false)
first_match (r ∷ rs) now ip groups port proto ct =
    let rest = first_match rs now ip groups port proto ct in
    if matches r ip groups port proto then (track now (packet_key ip port proto) ct, true) else rest

unfoldable pub allow : List Rule → ℕ → Addr → List Text → ℕ → ℕ → Conntrack → Conntrack × Bool
allow rules now ip groups port proto ct =
    if is_established (packet_key ip port proto) ct
    then (ct, true)
    else first_match rules now ip groups port proto ct

-- AllowInbound, with the clock's reading.
unfoldable pub allow_inbound : ℕ → Addr → List Text → ℕ → ℕ → Firewall → Firewall × Bool
unfolding allow
allow_inbound now src_ip src_groups dst_port proto f =
    let (ct, ok) = allow f.inbound now src_ip src_groups dst_port proto f.ct in
    (record f { ct = ct }, ok)

-- AllowOutbound
unfoldable pub allow_outbound : ℕ → Addr → List Text → ℕ → ℕ → Firewall → Firewall × Bool
unfolding allow
allow_outbound now dst_ip dst_groups dst_port proto f =
    let (ct, ok) = allow f.outbound now dst_ip dst_groups dst_port proto f.ct in
    (record f { ct = ct }, ok)

abbrev pub second : ℕ
second = 1000000000

abbrev pub default_tcp_timeout : ℕ
default_tcp_timeout = 5 * 60 * second

abbrev pub default_udp_timeout : ℕ
default_udp_timeout = 30 * second

abbrev pub default_icmp_timeout : ℕ
default_icmp_timeout = 10 * second

-- ExpireWith
pub expire_with : ℕ → ℕ → ℕ → ℕ → Firewall → Firewall
expire_with tcp_timeout udp_timeout default_timeout now f = record f {
  ct = expire tcp_timeout udp_timeout default_timeout now f.ct;
}

-- RunExpiry, one tick.
unfoldable pub expiry_tick : ℕ → Firewall → Firewall
expiry_tick now f = record f {
  ct = expire default_tcp_timeout default_udp_timeout default_icmp_timeout now f.ct;
}
