-- ===== src/Interface/Builders.antt =====
-- interface.go: what NewInterface builds from the configuration.
-- The packages net and net/netip are parameters where they read texts, and so are the network
-- interfaces of the host and the directory of certificates.
use neth.Base.{
  ℕ, ◌+◌, Bool, not, ◌&&◌, ◌||◌, List, [], ◌∷◌, ◌++◌, Option, none, some, length, take, drop, ◌==◌,
  ◌=?◌, bytes_key, if◌then◌else◌, Result, ok, err, or_err, map_err, ◌>>=◌, ◌-◌,
}
use neth.Base.Assoc.{Assoc}
use neth.Base.Text.{Text, text}
use neth.Net.{Addr, UdpAddr, Prefix, v4_in_v6}
use neth.Cert.{Certificate, CertError, parse}
use neth.Cert as Certs
use neth.Config.{Config, FirewallConfig}
use neth.Firewall.{Firewall, new as new_firewall}
use neth.Firewall.Rules.{Rule, RuleError, FirewallRule, parse_rule}
use neth.LightHouse.{LightHouse, new_light_house, add_static_entry, set_punchy}
use neth.LightHouse as Lights
use neth.Pki.{PkiError}
use neth.Tun.{TunError}
use neth.Interface.{Interface, add_peer_cert}

pub data StartError : Type 0 where
  pki_failed : PkiError → StartError
  inbound_rule outbound_rule : ℕ → RuleError → StartError
  listen_failed : StartError
  tun_failed : TunError → StartError
  bad_lighthouse_host bad_static_key : Text → StartError
  bad_static_addr : Text → Text → StartError
  read_dir_failed read_peer_failed : Text → StartError

-- A loop of buildFirewall, from the rule with the number `i` on.
unfoldable pub parse_rules :
    (Text → Option Prefix)
    → (ℕ → RuleError → StartError)
    → ℕ
    → List FirewallRule
    → Result StartError (List Rule)
parse_rules parse_prefix failed i [] = ok []
parse_rules parse_prefix failed i (r ∷ rs) = do
  rule ← map_err (failed i) (parse_rule parse_prefix r)
  rules ← parse_rules parse_prefix failed (i + 1) rs
  ok (rule ∷ rules)

-- buildFirewall
unfoldable pub build_firewall : (Text → Option Prefix) → FirewallConfig → Result StartError Firewall
build_firewall parse_prefix cfg = do
  inbound ← parse_rules parse_prefix inbound_rule 0 cfg.inbound
  outbound ← parse_rules parse_prefix outbound_rule 0 cfg.outbound
  ok (new_firewall inbound outbound)

-- net.Interface, with the addresses that Addrs gives: the bytes of an IPNet, or another address.
pub record NetInterface : Type 0 where
  pub loopback : Bool
  pub up : Bool
  pub addrs : List (Option (List ℕ))

-- IP.To4
unfoldable pub to4 : List ℕ → Option (List ℕ)
to4 ip =
    if length ip == 4
    then some ip
    else if length ip == 16 && take 12 ip =? v4_in_v6
    then some (drop 12 ip)
    else none

-- The inner loop of localUDPAddrs, and the outer one.
unfoldable pub ipv4_addrs : ℕ → List (Option (List ℕ)) → List UdpAddr
ipv4_addrs port [] = []
ipv4_addrs port (none ∷ addrs) = ipv4_addrs port addrs
ipv4_addrs port (some ip ∷ addrs) =
    let rest = ipv4_addrs port addrs in
    elim (to4 ip) [ none ↦ rest | some v4 ↦ record { ip = v4; port = port } ∷ rest ]

unfoldable pub addrs_of : ℕ → List NetInterface → List UdpAddr
addrs_of port [] = []
addrs_of port (i ∷ is) =
    let rest = addrs_of port is in
    if i.loopback || not i.up then rest else ipv4_addrs port i.addrs ++ rest

-- localUDPAddrs; `none` when net.Interfaces fails.
unfoldable pub local_udp_addrs : Option (List NetInterface) → ℕ → List UdpAddr
unfolding addrs_of
local_udp_addrs none port = []
local_udp_addrs (some is) port = addrs_of port is

-- os.DirEntry
pub record DirEntry : Type 0 where
  pub is_dir : Bool
  pub name : Text

-- strings.HasSuffix
unfoldable pub has_suffix : Text → Text → Bool
has_suffix s suffix = drop (length s - length suffix) s =? suffix

module _ (lights : Lights.Library) (resolve_udp_addr : Text → Option UdpAddr) where
  unfoldable pub lighthouse_ips : List Text → Result StartError (List Addr)
  lighthouse_ips [] = ok []
  lighthouse_ips (host ∷ hosts) = do
    ip ← or_err (lights.parse_addr host) (bad_lighthouse_host host)
    ips ← lighthouse_ips hosts
    ok (ip ∷ ips)

  unfoldable pub add_static_addrs :
      Text → Addr → List Text → LightHouse → Result StartError LightHouse
  add_static_addrs key vpn_ip [] lh = ok lh
  add_static_addrs key vpn_ip (s ∷ addrs) lh = do
    addr ← or_err (resolve_udp_addr s) (bad_static_addr key s)
    add_static_addrs key vpn_ip addrs (add_static_entry vpn_ip addr lh)

  unfoldable pub add_static_entries :
      Assoc Text (List Text) → LightHouse → Result StartError LightHouse
  add_static_entries [] lh = ok lh
  add_static_entries ((key, addrs) ∷ hosts) lh = do
    vpn_ip ← or_err (lights.parse_addr key) (bad_static_key key)
    next ← add_static_addrs key vpn_ip addrs lh
    add_static_entries hosts next

  -- buildLightHouse, with the port of the socket.
  unfoldable pub build_light_house :
      Option (List NetInterface) → Config → ℕ → Result StartError LightHouse
  build_light_house interfaces cfg port = do
    lh_ips ← lighthouse_ips cfg.lighthouse.hosts
    add_static_entries cfg.static_host_map
        (new_light_house cfg.lighthouse.am_lighthouse lh_ips (local_udp_addrs interfaces port))

module _ {Cipher State : Type 0} (lib : Certs.Library) (read_file : Text → Option (List ℕ)) where
  -- The loop of loadPeerCerts; `join` is filepath.Join with the directory.
  unfoldable pub add_peers :
      (Text → Text)
      → List DirEntry
      → Interface Cipher State
      → Result StartError (Interface Cipher State)
  add_peers join [] i = ok i
  add_peers join (e ∷ entries) i =
      let skipped = add_peers join entries i in
      if e.is_dir || not (has_suffix e.name (text ".crt"))
      then skipped
      else or_err (read_file (join e.name)) (read_peer_failed e.name) >>= λ body.
          elim (parse lib body) [
            | err _ ↦ skipped
            | ok c ↦ add_peers join entries (add_peer_cert c.vpn_ip.addr c i)
          ]

  -- loadPeerCerts
  unfoldable pub load_peer_certs :
      (Text → Option (List DirEntry))
      → (Text → Text → Text)
      → Text
      → Interface Cipher State
      → Result StartError (Interface Cipher State)
  load_peer_certs read_dir join dir i = do
    entries ← or_err (read_dir dir) (read_dir_failed dir)
    add_peers (join dir) entries i
