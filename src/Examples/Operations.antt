-- ===== src/Examples/Operations.antt =====
-- Runs of the operations on their branches.
use neth.Base.{
  ℕ, ◌*◌, ◌≡◌, refl, true, false, List, [], ◌∷◌, length, Option, none, some, ok, err, nat_key,
}
use neth.Base.Assoc.{lookup, insert, delete, retain}
use neth.Base.Text.{Text, text, to_lower, trim_space, parse_uint16}
use neth.Net.{Addr, ip4, UdpAddr, addr_key, no_prefix, addr_from4}
use neth.Cert.{pem}
use neth.Header.{type_name, known, unknown, packet, bytes, encode, put_big_endian}
use neth.Handshake.{build_initiator_message, mac_of}
use neth.Noise.{new_initiator_state}
use neth.Firewall.{Firewall, new, expiry_tick, allow_outbound, allow, first_match, matches}
use neth.Firewall.Rules.{
  invalid_port, proto_tcp, parse_rule, parse_proto, parse_port, parse_group, parse_cidr, is_any,
}
use neth.Firewall.Tracking.{packet_key, track, expire, conn_key, is_established, reversed}
use neth.HostMap.{add, new_host_map, get_by_index, get_by_vpn_ip, remove, write_host}
use neth.Interface.{
  Interface, handle_close_tunnel, get_peer_cert, add_peer_cert, sender_vpn, count_packet,
}
use neth.Interface.Packets.{consume_inside_packet, forward, reach, start_and_queue}
use neth.LightHouse.{
  LightHouse, IpPort, new_light_house, set_punchy, add_static_entry, get_addrs, handle_query,
  handle_who_am_i, handle_who_am_i_reply, handle_punch, query_peer, advertise, send, send_each,
  seen_addr, marshal_light_house_packet, advertisement, ip_port_to_udp_addr, ip_ports_to_udp_addrs,
  udp_addr_to_ip_port, udp_addrs_to_ip_ports, reply_to_query,
}
use neth.Manager.Packets.{random_index, marshal_handshake_packet}
use neth.Manager.Stages.{start_handshake, new_pending, build_handshake_packet}
use neth.Manager.{new_handshake_manager}
use neth.Packet.{dst_ip_from_ipv4, dst_port_from_ipv4, proto_from_ipv4, header_bytes}
use neth.Punchy.{Punchy, punch}
use neth.Examples.Certificates as Certificates
use neth.Examples.Discovery.{home, beacon}
use neth.Examples.Instances.{
  plain_aead, plain_library, plain_lights, plain_protobuf, length_hashes, counting_noise,
}
use neth.Examples.Traffic.{key, remote, always, receiver, receiver_end, plain_packet, any_packet}

type_name_test : (type_name 3 ≡ known "Test") × (type_name 9 ≡ unknown 9)
unfolding type_name
type_name_test = (refl, refl)

abbrev no_prefixes : Text → Option (neth.Net.Prefix)
no_prefixes t = none

-- A rule with spaces around its protocol, and one with spaces around its port.
parse_rule_test :
    (parse_rule no_prefixes
        (record { port = text "443"; proto = text " TCP "; group = []; cidr = [] })
      ≡ ok (record {
        port = 443;
        port_any = false;
        proto = proto_tcp;
        group = [];
        group_any = true;
        cidr = no_prefix;
        cid_any = true;
      }))
    × (parse_rule no_prefixes (record { port = text " 80 "; proto = []; group = []; cidr = [] })
        ≡ err (invalid_port (text " 80 ")))
unfolding parse_rule parse_proto parse_port parse_group parse_cidr is_any to_lower trim_space
    parse_uint16
parse_rule_test = (refl, refl)

-- A TCP connection outlives a tick after four minutes, and not one after five.
abbrev tracked : Firewall
tracked = record { inbound = []; outbound = []; ct = track 0 (packet_key (ip4 1) 443 proto_tcp) [] }

expiry_tick_test :
    ((expiry_tick (4 * 60 * 1000000000) tracked).ct ≡ tracked.ct)
    × ((expiry_tick (5 * 60 * 1000000000) tracked).ct ≡ [])
unfolding expiry_tick expire track retain insert
expiry_tick_test = (refl, refl)

new_initiator_state_test : new_initiator_state counting_noise key [] [] ≡ some 0
unfolding new_initiator_state
new_initiator_state_test = refl

build_initiator_message_test :
    build_initiator_message length_hashes plain_library plain_protobuf Certificates.node [] 4 77
    ≡ ok (record {
      details = 4 ∷ 0 ∷ 77 ∷ pem plain_library Certificates.node;
      noise_payload = [];
      hmac =
          mac_of length_hashes Certificates.node
            (4 ∷ 0 ∷ 77 ∷ pem plain_library Certificates.node)
            [];
    })
unfolding build_initiator_message
build_initiator_message_test = refl

abbrev alone : LightHouse
alone = new_light_house false (ip4 9 ∷ []) []

add_static_entry_test :
    get_addrs (ip4 9) (add_static_entry (ip4 9) remote (add_static_entry (ip4 9) home alone))
    ≡ home ∷ remote ∷ []
unfolding add_static_entry get_addrs new_light_house lookup insert
add_static_entry_test = refl

abbrev puncher : Punchy
puncher = record { punch = true; respond = false }

abbrev home_port : IpPort
home_port = record { ip = 10 ∷ 0 ∷ 0 ∷ 7 ∷ 0 ∷ []; port = 5 }

abbrev home_addr : UdpAddr
home_addr = record { ip = 10 ∷ 0 ∷ 0 ∷ 7 ∷ 0 ∷ []; port = 5 }

handle_punch_test :
    (handle_punch plain_lights (home_port ∷ []) alone ≡ [])
    × (handle_punch plain_lights (home_port ∷ []) (set_punchy puncher alone) ≡ ([], home_addr) ∷ [])
unfolding handle_punch set_punchy new_light_house ip_port_to_udp_addr ip_ports_to_udp_addrs punch
handle_punch_test = (refl, refl)

-- The header of a lighthouse packet.
abbrev beacon_bytes : List ℕ
beacon_bytes = 0x12 ∷ 0 ∷ 0 ∷ 0 ∷ 0 ∷ 0 ∷ 0 ∷ 0 ∷ 0 ∷ 0 ∷ 0 ∷ 0 ∷ 0 ∷ 0 ∷ 0 ∷ 0 ∷ []

handle_query_test :
    (handle_query plain_lights (1 ∷ []) (ip4 1) beacon ≡ (beacon_bytes, home) ∷ [])
    × (handle_query plain_lights [] (ip4 1) beacon ≡ [])
    × (handle_who_am_i plain_lights (ip4 1) beacon ≡ (beacon_bytes, home) ∷ [])
unfolding handle_query handle_who_am_i seen_addr send marshal_light_house_packet reply_to_query
    packet bytes encode put_big_endian lookup udp_addrs_to_ip_ports udp_addr_to_ip_port
handle_query_test = (refl, refl, refl)

advertise_test :
    (advertise plain_lights (add_static_entry (ip4 9) remote alone) ≡ (beacon_bytes, remote) ∷ [])
    × (query_peer plain_lights (ip4 1) (add_static_entry (ip4 9) remote alone)
        ≡ (beacon_bytes, remote) ∷ [])
unfolding advertise query_peer send_each send advertisement marshal_light_house_packet packet bytes
    encode put_big_endian lookup insert add_static_entry new_light_house udp_addrs_to_ip_ports
    udp_addr_to_ip_port
advertise_test = (refl, refl)

handle_who_am_i_reply_test :
    ((handle_who_am_i_reply plain_lights (some home_port) alone).my_addrs ≡ home_addr ∷ [])
    × (handle_who_am_i_reply plain_lights none alone ≡ alone)
unfolding handle_who_am_i_reply new_light_house ip_port_to_udp_addr
handle_who_am_i_reply_test = (refl, refl)

-- The packet is IPv4 without a TCP or UDP header.
fields_test :
    (dst_ip_from_ipv4 plain_packet ≡ some (ip4 0))
    × (dst_port_from_ipv4 plain_packet ≡ 0)
    × (header_bytes plain_packet ≡ 20)
unfolding dst_ip_from_ipv4 dst_port_from_ipv4 header_bytes addr_from4
fields_test = (refl, refl, refl)

close_test :
    let closed =
      handle_close_tunnel
        (record { version = 1; type = 4; sub_type = 0; remote_index = 4; message_counter = 0 })
        receiver in
    (get_by_index 4 (closed.hostmap) ≡ none) × (get_by_vpn_ip (ip4 1) (closed.hostmap) ≡ none)
unfolding handle_close_tunnel get_by_index get_by_vpn_ip add new_host_map remove lookup insert
    delete
close_test = (refl, refl)

peer_cert_test :
    (get_peer_cert (ip4 5) (add_peer_cert (ip4 5) Certificates.node receiver)
      ≡ some Certificates.node)
    × (get_peer_cert (ip4 5) receiver ≡ none)
unfolding get_peer_cert add_peer_cert lookup insert
peer_cert_test = (refl, refl)

-- Without an outbound rule nothing leaves; with one, a packet to an unknown peer is not sent either.
consume_inside_packet_test :
    ((consume_inside_packet length_hashes plain_library plain_protobuf plain_lights plain_aead
        counting_noise always 5 none plain_packet receiver).1
      ≡ [])
    × ((consume_inside_packet length_hashes plain_library plain_protobuf plain_lights plain_aead
          counting_noise always 5 none plain_packet
          (record receiver { fw = new [] (any_packet ∷ []) })).1
        ≡ [])
unfolding consume_inside_packet forward reach get_peer_cert dst_ip_from_ipv4 addr_from4
    get_by_vpn_ip add new_host_map lookup insert allow_outbound allow first_match matches new
    is_established reversed dst_port_from_ipv4 proto_from_ipv4
consume_inside_packet_test = (refl, refl)

sender_vpn_test :
    sender_vpn
      (record { version = 1; type = 2; sub_type = 0; remote_index = 4; message_counter = 0 })
      remote
      receiver
    ≡ some (ip4 1)
unfolding sender_vpn get_by_index add new_host_map lookup insert
sender_vpn_test = refl

-- A peer whose certificate and address are known gets the first message of a handshake.
abbrev ready : Interface ℕ ℕ
ready = record receiver {
  fw = new [] (any_packet ∷ []);
  lighthouse = add_static_entry (ip4 0) remote alone;
  peer_certs = (ip4 0, Certificates.node) ∷ [];
}

start_test :
    length
      (consume_inside_packet length_hashes plain_library plain_protobuf plain_lights plain_aead
        counting_noise always 5
        (some (4 ∷ 0 ∷ 0 ∷ 0 ∷ []))
        plain_packet
        ready).1
    ≡ 1
unfolding consume_inside_packet forward reach start_and_queue start_handshake new_pending
    random_index build_handshake_packet build_initiator_message marshal_handshake_packet
    new_initiator_state get_addrs add_static_entry new_light_house new_handshake_manager
    get_peer_cert dst_ip_from_ipv4 addr_from4 get_by_vpn_ip add new_host_map lookup insert
    allow_outbound allow first_match matches new is_established reversed dst_port_from_ipv4
    proto_from_ipv4
start_test = refl

-- The counter that a packet was sent with is kept.
count_packet_test :
    get_by_index 4 ((count_packet plain_aead 0 receiver_end receiver).hostmap)
    ≡ some (0, record receiver_end { counter = 1 })
unfolding count_packet get_by_index add new_host_map write_host lookup insert
count_packet_test = refl
