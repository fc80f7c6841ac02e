-- ===== src/Examples/Traffic.antt =====
-- A packet from one node's TUN device to the other's.
use neth.Base.{
  ℕ, ◌≡◌, refl, subst, sym, inl, arith, Bool, true, false, List, [], ◌∷◌, none, some, replicate, ok,
  nat_key,
}
use neth.Base.Assoc.{lookup, insert}
use neth.Net.{ip4, UdpAddr, addr_key, no_prefix, addr_from4}
use neth.Cert.{Certificate}
use neth.Header.{Header, parse as parse_header}
use neth.HostMap.{HostInfo, new_host_map, add, get_by_index}
use neth.Firewall.{new, matches, first_match, allow, allow_inbound}
use neth.Firewall.Rules.{Rule}
use neth.Firewall.Tracking.{is_established, reversed}
use neth.Punchy.{Datagram}
use neth.Replay.{new_window, check_replay}
use neth.LightHouse.{new_light_house}
use neth.Manager.{new_handshake_manager}
use neth.Noise.{DhKey}
use neth.Packet.{src_ip_from_ipv4, proto_from_ipv4, dst_port_from_ipv4}
use neth.Interface.{Interface, writes_tun, message_packet}
use neth.Interface.Packets.{consume_outside_packet}
use neth.Interface.Delivery.{consume_outside_packet-message_packet}
use neth.Interface.Effects.{Delivers}
use neth.Interface.Safety.{MayDeliver, consume_outside_packet-Delivers}
use neth.Examples.Certificates.{node}
use neth.Examples.Instances.{
  plain_aead, plain_library, plain_lights, plain_protobuf, length_hashes, counting_noise,
}

abbrev pub key : DhKey
key = record { private_key = []; public_key = [] }

abbrev pub remote : UdpAddr
remote = record { ip = 10 ∷ 0 ∷ 0 ∷ 1 ∷ []; port = 4242 }

abbrev pub always : Datagram → Bool
always d = true

-- The two ends of one session.
abbrev pub sender_end : HostInfo ℕ Certificate
sender_end = record {
  vpn_ip = ip4 2;
  remote = remote;
  index = 3;
  remote_index = 4;
  send_cipher = 7;
  recv_cipher = 8;
  counter = 0;
  cert = none;
  replay = new_window;
}

abbrev pub receiver_end : HostInfo ℕ Certificate
receiver_end = record sender_end {
  vpn_ip = ip4 1;
  index = 4;
  remote_index = 3;
  send_cipher = 8;
  recv_cipher = 7;
}

abbrev pub any_packet : Rule
any_packet = record {
  port = 0;
  port_any = true;
  proto = 0;
  group = [];
  group_any = true;
  cidr = no_prefix;
  cid_any = true;
}

abbrev pub receiver : Interface ℕ ℕ
receiver = record {
  hostmap = add receiver_end new_host_map;
  handshake_mgr = new_handshake_manager node key [];
  fw = new (any_packet ∷ []) [];
  lighthouse = new_light_house false [] [];
  punchy = none;
  peer_certs = [];
}

-- An IPv4 header without options.
abbrev pub plain_packet : List ℕ
plain_packet = 0x45 ∷ replicate 19 0

pub session_known : get_by_index 4 (receiver.hostmap) ≡ some (0, receiver_end)
unfolding get_by_index add new_host_map lookup insert
session_known = refl

counter_fresh : (check_replay (receiver_end.replay) 1).1 ≡ false
unfolding check_replay
counter_fresh = refl

packet_source : src_ip_from_ipv4 plain_packet ≡ some (ip4 0)
unfolding src_ip_from_ipv4 addr_from4
packet_source = refl

packet_allowed :
    (allow_inbound 5
      (ip4 0)
      []
      (dst_port_from_ipv4 plain_packet)
      (proto_from_ipv4 plain_packet)
      (receiver.fw)).1
    ≡ true
unfolding allow_inbound allow first_match matches new is_established reversed lookup
    dst_port_from_ipv4 proto_from_ipv4
packet_allowed = refl

consume_outside_packet-message_packet_example :
    (consume_outside_packet length_hashes plain_library plain_protobuf plain_lights plain_aead
      counting_noise always 5 none
      (message_packet plain_aead sender_end plain_packet)
      remote
      receiver).1
    ≡ writes_tun plain_packet ∷ []
consume_outside_packet-message_packet_example =
    consume_outside_packet-message_packet length_hashes plain_library plain_protobuf plain_lights
      plain_aead counting_noise always 5 none remote 0 sender_end receiver_end plain_packet (ip4 0)
      receiver (omega arith) session_known refl counter_fresh packet_source packet_allowed

pub packet_delivered :
    Delivers plain_packet
      (consume_outside_packet length_hashes plain_library plain_protobuf plain_lights plain_aead
        counting_noise always 5 none
        (message_packet plain_aead sender_end plain_packet)
        remote
        receiver).1
packet_delivered =
    subst (Delivers plain_packet)
      (sym (
        consume_outside_packet-message_packet length_hashes plain_library plain_protobuf
          plain_lights plain_aead counting_noise always 5 none remote 0 sender_end receiver_end
          plain_packet (ip4 0) receiver (omega arith) session_known refl counter_fresh packet_source
          packet_allowed))
      (inl refl)

consume_outside_packet-Delivers_example :
    (hdr : Header) × (parse_header (message_packet plain_aead sender_end plain_packet) ≡ ok hdr)
    × MayDeliver plain_aead 5
        (message_packet plain_aead sender_end plain_packet)
        hdr
        plain_packet
        receiver
consume_outside_packet-Delivers_example =
    consume_outside_packet-Delivers length_hashes plain_library plain_protobuf plain_lights
      plain_aead counting_noise always 5 none remote
      (message_packet plain_aead sender_end plain_packet) plain_packet receiver packet_delivered
