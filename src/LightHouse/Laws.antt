-- ===== src/LightHouse/Laws.antt =====
-- lighthouse.go: what a lighthouse stores, and what it answers.
use neth.Base.{
  ℕ, ◌%◌, ◌^◌, ◌<◌, ◌≡◌, ◌≢◌, ◌⊎◌, inl, inr, refl, ap, subst, ◌∙◌, arith, Bool, true, false, ◌&&◌,
  List, [], ◌∷◌, ◌++◌, map, none, some, length, if◌then◌else◌, ◌==◌, any, All, Bool-cases,
}
use neth.Base.Assoc.{Assoc, lookup, lookup-insert, lookup-insert_self, Distinct}
use neth.Base.Text.{Text}
use neth.Net.{Addr, UdpAddr, addr_key, same_addr, same_addr_iff, ip_equal, v4_in_v6}
use neth.LightHouse.{
  Library, LightHouse, entries, get_addrs, vpn_ip_by_addr, first_with, ip_port_to_udp_addr,
  udp_addr_to_ip_port, ip_ports_to_udp_addrs, udp_addrs_to_ip_ports, advertisement, reply_to_query,
  handle_query_reply, handle_update, handle_message,
}

-- The bytes of an IPv4 or an IPv6 address.
abbrev pub IsIp : List ℕ → Type 0
IsIp ip = ((length ip ≡ 4) ⊎ (length ip ≡ 16)) × All (λ b. b < 256) ip

abbrev pub IsUdpAddr : UdpAddr → Type 0
IsUdpAddr a = IsIp a.ip × (a.port < 2 ^ 32)

-- The same address in the 16-byte form, which net.ParseIP gives.
abbrev pub to_16 : List ℕ → List ℕ
to_16 ip = if length ip == 4 then v4_in_v6 ++ ip else ip

abbrev pub addr_to_16 : UdpAddr → UdpAddr
addr_to_16 a = record { ip = to_16 a.ip; port = a.port }

-- net.ParseIP reads back what IP.String prints.
abbrev pub PrintsIps : Library → Type 0
PrintsIps lib = (ip : List ℕ) → IsIp ip → lib.parse_ip (lib.ip_string ip) ≡ some (to_16 ip)

module _ (lib : Library) (prints : PrintsIps lib) where
  addr-round_trip :
      (a : UdpAddr)
      → IsUdpAddr a
      → ip_port_to_udp_addr lib (udp_addr_to_ip_port lib a) ≡ some (addr_to_16 a)
  unfolding ip_port_to_udp_addr udp_addr_to_ip_port
  addr-round_trip a (is_ip, small) =
      let small_port : a.port % 2 ^ 32 ≡ a.port = omega arith in
      rw (ip_port_to_udp_addr, prints a.ip is_ip, small_port) refl

  -- The addresses that one node sends in a message arrive at the other in order, in the 16-byte form,
  -- when each is an IPv4 or IPv6 address with a port of 32 bits.
  pub ip_ports_to_udp_addrs-udp_addrs_to_ip_ports :
      (addrs : List UdpAddr)
      → All IsUdpAddr addrs
      → ip_ports_to_udp_addrs lib (udp_addrs_to_ip_ports lib addrs) ≡ map addr_to_16 addrs
  unfolding ip_ports_to_udp_addrs udp_addrs_to_ip_ports
  ip_ports_to_udp_addrs-udp_addrs_to_ip_ports [] is = refl
  ip_ports_to_udp_addrs-udp_addrs_to_ip_ports (a ∷ addrs) is =
      rw (ip_ports_to_udp_addrs, addr-round_trip a is.0)
        (ap (◌∷◌ (addr_to_16 a)) (ip_ports_to_udp_addrs-udp_addrs_to_ip_ports addrs is.1))

  -- A node that gets a lighthouse's reply to a query for a VPN IP then has, for that IP, the addresses
  -- that the lighthouse has, in the 16-byte form; its addresses for another IP are unchanged. The
  -- sender of the reply does not matter.
  pub get_addrs-reply_to_query :
      (vpn_ip : Text) (queried other from : Addr) (lighthouse node : LightHouse)
      → lib.parse_addr vpn_ip ≡ some queried
      → All IsUdpAddr (get_addrs queried lighthouse)
      → queried ≢ other
      → let next =
          (handle_message lib (reply_to_query lib vpn_ip queried lighthouse) from node).0 in
        (get_addrs queried next ≡ map addr_to_16 (get_addrs queried lighthouse))
        × (get_addrs other next ≡ get_addrs other node)
  unfolding handle_message reply_to_query handle_query_reply get_addrs
  get_addrs-reply_to_query vpn_ip queried other from lighthouse node parses is differ =
      let addrs = get_addrs queried lighthouse in
      let sent = ip_ports_to_udp_addrs lib (udp_addrs_to_ip_ports lib addrs) in
      rw (handle_query_reply, parses)
        (
          ap entries (lookup-insert_self queried sent node.addr_store)
              ∙ ip_ports_to_udp_addrs-udp_addrs_to_ip_ports addrs is,
          ground (
            arith,
            lookup-insert queried other sent node.addr_store,
            same_addr_iff queried other,
          ),
        )

  -- A lighthouse that gets a node's advertisement then has, for the sender's VPN IP, the addresses
  -- that the node advertises, in the 16-byte form; its addresses for another IP are unchanged.
  pub get_addrs-advertisement :
      (from other : Addr) (node lighthouse : LightHouse)
      → lighthouse.am_lighthouse ≡ true
      → All IsUdpAddr node.my_addrs
      → from ≢ other
      → let next = (handle_message lib (advertisement lib node) from lighthouse).0 in
        (get_addrs from next ≡ map addr_to_16 node.my_addrs)
        × (get_addrs other next ≡ get_addrs other lighthouse)
  unfolding handle_message advertisement handle_update get_addrs
  get_addrs-advertisement from other node lighthouse am is differ =
      let sent = ip_ports_to_udp_addrs lib (udp_addrs_to_ip_ports lib node.my_addrs) in
      rw (handle_update, am)
        (
          ap entries (lookup-insert_self from sent lighthouse.addr_store)
              ∙ ip_ports_to_udp_addrs-udp_addrs_to_ip_ports node.my_addrs is,
          ground (
            arith,
            lookup-insert from other sent lighthouse.addr_store,
            same_addr_iff from other,
          ),
        )

-- The test of VpnIPByAddr on the addresses of one peer.
abbrev pub has_addr : UdpAddr → List UdpAddr → Bool
has_addr addr addrs = any (λ (a : UdpAddr). ip_equal a.ip addr.ip && a.port == addr.port) addrs

first_with_sound :
    (addr : UdpAddr) (store : Assoc Addr (List UdpAddr)) (vpn_ip : Addr)
    → Distinct store
    → first_with addr store ≡ some vpn_ip
    → has_addr addr (entries (lookup vpn_ip store)) ≡ true
unfolding first_with lookup
first_with_sound addr [] vpn_ip d h = cc
first_with_sound addr ((ip, addrs) ∷ store) vpn_ip d h = elim (Bool-cases (has_addr addr addrs)) [
  | inl hit ↦ ground (arith, hit, h, same_addr_iff ip vpn_ip)
  | inr miss ↦
      let found : first_with addr store ≡ some vpn_ip = ground (arith, miss, h) in
      elim (Bool-cases (same_addr ip vpn_ip)) [
        | inl same ↦
            let here : ip ≡ vpn_ip = (same_addr_iff ip vpn_ip).0 same in
            let gone : lookup vpn_ip store ≡ none = subst (λ x. lookup x store ≡ none) here d.0 in
            let impossible : false ≡ true =
              subst (λ o. has_addr addr (entries o) ≡ true) gone
                (first_with_sound addr store vpn_ip d.1 found) in
            cc
        | inr other ↦ rw other (first_with_sound addr store vpn_ip d.1 found)
      ]
]

-- The peer that `VpnIPByAddr` gives for a physical address has that address among the ones that
-- `GetAddrs` gives, up to the form of the IP, when no key of the registry stands twice.
pub has_addr-vpn_ip_by_addr :
    (addr : UdpAddr) (lh : LightHouse) (vpn_ip : Addr)
    → Distinct lh.addr_store
    → vpn_ip_by_addr addr lh ≡ some vpn_ip
    → has_addr addr (get_addrs vpn_ip lh) ≡ true
unfolding vpn_ip_by_addr get_addrs
has_addr-vpn_ip_by_addr addr lh vpn_ip d h = first_with_sound addr lh.addr_store vpn_ip d h
