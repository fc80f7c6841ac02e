-- ===== src/LightHouse.antt =====
-- lighthouse.go: the registry of peers' physical addresses and its messages.
-- The locks make each method one step. `sendFn` is the list of datagrams that a method sends, in
-- order. protobuf and Go's texts of addresses are the parameter `Library`.
pub mod Laws
use neth.Base.{
  ℕ, ◌+◌, ◌*◌, ◌%◌, ◌^◌, ◌<◌, ◌≡◌, ◌⊎◌, Bool, true, false, ◌&&◌, List, [], ◌∷◌, ◌++◌, map, Option,
  none, some, length, if◌then◌else◌, ◌==◌, any,
}
use neth.Base.Assoc.{Assoc, lookup, insert}
use neth.Base.Text.{Text}
use neth.Net.{Addr, no_addr, UdpAddr, addr_key, ip_equal}
use neth.Header.{Header, version, type_lighthouse, packet}
use neth.Punchy.{Punchy, Datagram, punch}

-- nethpb.IpPort
pub record IpPort : Type 0 where
  pub ip : Text
  pub port : ℕ

-- The body of nethpb.LightHouseMessage, with the fields of its messages.
pub data LightHouseMessage : Type 0 where
  query : Text → LightHouseMessage
  query_reply : Text → List IpPort → LightHouseMessage
  update : List IpPort → LightHouseMessage
  who_am_i : LightHouseMessage
  who_am_i_reply : Option IpPort → LightHouseMessage
  punch_notification : List IpPort → LightHouseMessage
  no_body : LightHouseMessage

-- proto.Marshal, and net and net/netip between addresses and their texts.
pub record Library : Type 0 where
  pub marshal : LightHouseMessage → Option (List ℕ)
  pub unmarshal : List ℕ → Option LightHouseMessage
  pub parse_addr : Text → Option Addr
  pub addr_string : Addr → Text
  pub parse_ip : Text → Option (List ℕ)
  pub ip_string : List ℕ → Text

pub record LightHouse : Type 0 where
  pub addr_store : Assoc Addr (List UdpAddr)
  pub lighthouses : List Addr
  pub am_lighthouse : Bool
  pub my_addrs : List UdpAddr
  pub punchy : Option Punchy

-- NewLightHouse
unfoldable pub new_light_house : Bool → List Addr → List UdpAddr → LightHouse
new_light_house am_lighthouse lighthouses my_addrs = record {
  addr_store = [];
  lighthouses = lighthouses;
  am_lighthouse = am_lighthouse;
  my_addrs = my_addrs;
  punchy = none;
}

-- SetPunchy
unfoldable pub set_punchy : Punchy → LightHouse → LightHouse
set_punchy p lh = record lh { punchy = some p }

-- The entry of a map of slices; a missing key gives nil.
abbrev pub entries : Option (List UdpAddr) → List UdpAddr
entries none = []
entries (some addrs) = addrs

-- GetAddrs
unfoldable pub get_addrs : Addr → LightHouse → List UdpAddr
get_addrs vpn_ip lh = entries (lookup vpn_ip lh.addr_store)

-- AddStaticEntry
unfoldable pub add_static_entry : Addr → UdpAddr → LightHouse → LightHouse
add_static_entry vpn_ip addr lh = record lh {
  addr_store = insert vpn_ip (entries (lookup vpn_ip lh.addr_store) ++ addr ∷ []) lh.addr_store;
}

unfoldable pub first_with : UdpAddr → Assoc Addr (List UdpAddr) → Option Addr
first_with addr [] = none
first_with addr ((vpn_ip, addrs) ∷ store) =
    if any (λ (a : UdpAddr). ip_equal a.ip addr.ip && a.port == addr.port) addrs
    then some vpn_ip
    else first_with addr store

-- VpnIPByAddr: `none` is the false flag.
unfoldable pub vpn_ip_by_addr : UdpAddr → LightHouse → Option Addr
unfolding first_with
vpn_ip_by_addr addr lh = first_with addr lh.addr_store

module _ (lib : Library) where
  -- ipPortToUDPAddr
  unfoldable pub ip_port_to_udp_addr : IpPort → Option UdpAddr
  ip_port_to_udp_addr p = elim (lib.parse_ip p.ip) [
    | none ↦ none
    | some ip ↦ some (record { ip = ip; port = p.port })
  ]

  -- udpAddrToIpPort; the port is converted to uint32.
  unfoldable pub udp_addr_to_ip_port : UdpAddr → IpPort
  udp_addr_to_ip_port a = record { ip = lib.ip_string a.ip; port = a.port % 2 ^ 32 }

  -- ipPortsToUDPAddrs: what does not parse is left out.
  unfoldable pub ip_ports_to_udp_addrs : List IpPort → List UdpAddr
  ip_ports_to_udp_addrs [] = []
  ip_ports_to_udp_addrs (p ∷ ports) =
      let rest = ip_ports_to_udp_addrs ports in
      elim (ip_port_to_udp_addr p) [ none ↦ rest | some a ↦ a ∷ rest ]

  -- udpAddrsToIpPorts
  unfoldable pub udp_addrs_to_ip_ports : List UdpAddr → List IpPort
  udp_addrs_to_ip_ports addrs = map udp_addr_to_ip_port addrs

  -- marshalLightHousePacket
  unfoldable pub marshal_light_house_packet : LightHouseMessage → Option (List ℕ)
  marshal_light_house_packet msg = elim (lib.marshal msg) [
    | none ↦ none
    | some body ↦ some (
        packet
          (record {
            version = version;
            type = type_lighthouse;
            sub_type = 0;
            remote_index = 0;
            message_counter = 0;
          })
          body)
  ]

  -- send
  unfoldable pub send : LightHouseMessage → Addr → LightHouse → List Datagram
  send msg to_vpn_ip lh = elim (marshal_light_house_packet msg) [
    | none ↦ []
    | some wire ↦ map (λ (a : UdpAddr). (wire, a)) (entries (lookup to_vpn_ip lh.addr_store))
  ]

  -- `for _, lhIP := range lh.lighthouses { lh.send(msg, lhIP, sendFn) }`
  unfoldable pub send_each : LightHouseMessage → List Addr → LightHouse → List Datagram
  send_each msg [] lh = []
  send_each msg (lh_ip ∷ lh_ips) lh = send msg lh_ip lh ++ send_each msg lh_ips lh

  -- QueryPeer
  unfoldable pub query_peer : Addr → LightHouse → List Datagram
  query_peer vpn_ip lh = send_each (query (lib.addr_string vpn_ip)) lh.lighthouses lh

  -- The message that Advertise sends.
  unfoldable pub advertisement : LightHouse → LightHouseMessage
  advertisement lh = update (udp_addrs_to_ip_ports lh.my_addrs)

  -- Advertise
  unfoldable pub advertise : LightHouse → List Datagram
  advertise lh = send_each (advertisement lh) lh.lighthouses lh

  -- The reply that handleQuery sends.
  unfoldable pub reply_to_query : Text → Addr → LightHouse → LightHouseMessage
  reply_to_query vpn_ip queried lh =
      query_reply vpn_ip (udp_addrs_to_ip_ports (entries (lookup queried lh.addr_store)))

  -- handleQuery
  unfoldable pub handle_query : Text → Addr → LightHouse → List Datagram
  handle_query vpn_ip reply_to lh = elim (lib.parse_addr vpn_ip) [
    | none ↦ []
    | some queried ↦ send (reply_to_query vpn_ip queried lh) reply_to lh
  ]

  -- handleQueryReply
  pub handle_query_reply : Text → List IpPort → LightHouse → LightHouse
  handle_query_reply vpn_ip addrs lh = elim (lib.parse_addr vpn_ip) [
    | none ↦ lh
    | some ip ↦ record lh { addr_store = insert ip (ip_ports_to_udp_addrs addrs) lh.addr_store }
  ]

  -- handleUpdate
  pub handle_update : List IpPort → Addr → LightHouse → LightHouse
  handle_update addrs from lh =
      if lh.am_lighthouse
      then record lh { addr_store = insert from (ip_ports_to_udp_addrs addrs) lh.addr_store }
      else lh

  -- The address that handleWhoAmI answers with.
  unfoldable pub seen_addr : List UdpAddr → Option IpPort
  seen_addr [] = none
  seen_addr (a ∷ addrs) = some (udp_addr_to_ip_port a)

  -- handleWhoAmI
  unfoldable pub handle_who_am_i : Addr → LightHouse → List Datagram
  handle_who_am_i from lh =
      send (who_am_i_reply (seen_addr (entries (lookup from lh.addr_store)))) from lh

  -- handleWhoAmIReply
  unfoldable pub handle_who_am_i_reply : Option IpPort → LightHouse → LightHouse
  handle_who_am_i_reply none lh = lh
  handle_who_am_i_reply (some p) lh = elim (ip_port_to_udp_addr p) [
    | none ↦ lh
    | some addr ↦ record lh { my_addrs = addr ∷ lh.my_addrs }
  ]

  -- handlePunch
  unfoldable pub handle_punch : List IpPort → LightHouse → List Datagram
  handle_punch addrs lh = elim (lh.punchy) [
    | none ↦ []
    | some p ↦ punch p (ip_ports_to_udp_addrs addrs)
  ]

  -- HandleMessage: the state and what is sent.
  pub handle_message : LightHouseMessage → Addr → LightHouse → LightHouse × List Datagram
  handle_message (query vpn_ip) from lh = (lh, handle_query vpn_ip from lh)
  handle_message (query_reply vpn_ip addrs) from lh = (handle_query_reply vpn_ip addrs lh, [])
  handle_message (update addrs) from lh = (handle_update addrs from lh, [])
  handle_message who_am_i from lh = (lh, handle_who_am_i from lh)
  handle_message (who_am_i_reply addr) from lh = (handle_who_am_i_reply addr lh, [])
  handle_message (punch_notification addrs) from lh = (lh, handle_punch addrs lh)
  handle_message no_body from lh = (lh, [])
