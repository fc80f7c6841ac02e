-- ===== src/Examples/Handshakes.antt =====
-- A handshake between two nodes at concrete inputs.
use neth.Base.{
  ℕ, suc, ◌≡◌, refl, arith, List, [], ◌∷◌, ◌++◌, some, length, replicate, ok, nat_key, bytes_key,
}
use neth.Base.Assoc.{lookup, insert}
use neth.Net.{ip4, addr_key, no_addr}
use neth.Cert.{pem, parse as parse_cert, parse_der, read_extensions, verify, fingerprint}
use neth.Header.{packet, bytes, encode, put_big_endian, parse as parse_header, get_big_endian}
use neth.Handshake.{
  mac_of, parse_handshake_message, parse_details, verify_hmac, build_initiator_message,
  build_responder_message,
}
use neth.Noise.{cipher_from_state, new_initiator_state, new_responder_state}
use neth.Manager.{PendingHandshake, HandshakeManager, new_handshake_manager, find_index, enter}
use neth.Manager.Packets.{
  Completed, new_host, random_index, marshal_handshake_packet, ciphers_from_states,
}
use neth.Manager.Stages.{
  build_handshake_packet, open_envelope, new_pending, stage0_reply, stage0_completed, handle_stage0,
  handle_stage1,
}
use neth.Manager.Mirror.{Completes, handle_stage1-handle_stage0}
use neth.Examples.Certificates.{node}
use neth.Examples.Instances.{
  plain_library, plain_protobuf, plain_protobuf-RoundTrips, length_hashes, counting_noise,
}
use neth.HostMap.{new_host_map}
use neth.HostMap.Laws.{IsHostMap, new_host_map-IsHostMap, add-IsHostMap}
use neth.Interface.{complete, on_handshake_complete, writes_tun}
use neth.Interface.Stream.{Passes, receive_all}
use neth.Interface.Established.{receive_all-handle_stage1}
use neth.Firewall.{matches, new}
use neth.Packet.{src_ip_from_ipv4}
use neth.Net.{addr_from4}
use neth.Examples.Instances.{plain_lights, plain_aead}
use neth.Examples.Traffic.{receiver, receiver_end, plain_packet}
use neth.Examples.Traffic.{key, remote, always}

counting_noise-Completes : Completes counting_noise
counting_noise-Completes = record {
  completes =
      λ mine yours s s1 t t1 u first second early early' states i r new new' wrote read wrote'.
        (suc s1, cc);
}

-- The first packet: the index 4 and the time 0.
abbrev details : List ℕ
details = 4 ∷ 0 ∷ 0 ∷ pem plain_library node

abbrev first_packet : List ℕ
first_packet =
    16 ∷ replicate 15 0
    ++ (length details ∷ (details ++ (1 ∷ 0 ∷ (replicate 32 3 ++ (details ++ (0 ∷ []))))))

abbrev started : PendingHandshake ℕ
started = record {
  state = 1;
  local_index = 4;
  remote_vpn_ip = ip4 1;
  remote_addr = remote;
  pending_packets = [];
  attempts = 1;
  next_retry = 500000000;
  stage0msg = first_packet;
}

-- The same handshake with a packet in its queue.
abbrev queued : PendingHandshake ℕ
queued = record started { pending_packets = plain_packet ∷ [] }

abbrev idle : HandshakeManager ℕ
idle = new_handshake_manager node key []

abbrev waiting : HandshakeManager ℕ
waiting = enter (ip4 1) queued idle

abbrev responder_session : Completed ℕ
responder_session = record { host = new_host no_addr remote 9 4 (8, 7) node; packets = [] }

is_started :
    new_pending length_hashes plain_library plain_protobuf counting_noise always 0
      (some (4 ∷ 0 ∷ 0 ∷ 0 ∷ []))
      (ip4 1)
      remote
      node
      idle
    ≡ ok started
unfolding new_pending random_index new_initiator_state build_handshake_packet
    build_initiator_message marshal_handshake_packet packet bytes encode put_big_endian
    new_handshake_manager mac_of fingerprint
is_started = refl

is_accepted :
    (handle_stage0 length_hashes plain_library plain_protobuf counting_noise always 50
      (some (9 ∷ 0 ∷ 0 ∷ 0 ∷ []))
      first_packet
      remote
      idle).1
    ≡ ok responder_session
unfolding handle_stage0 stage0_reply stage0_completed open_envelope new_handshake_manager
    parse_header get_big_endian parse_handshake_message parse_details parse_cert parse_der
    read_extensions verify verify_hmac mac_of fingerprint ciphers_from_states cipher_from_state
    new_responder_state random_index build_responder_message marshal_handshake_packet pem
is_accepted = refl

is_waiting : find_index 4 waiting ≡ some (0, queued)
unfolding find_index enter new_handshake_manager lookup insert
is_waiting = refl

node_parsed : parse_cert plain_library (pem plain_library node) ≡ ok node
unfolding parse_cert parse_der read_extensions pem
node_parsed = refl

node_verified : verify plain_library node (waiting.ca_pool) 60 ≡ ok tt
unfolding verify
node_verified = refl

handle_stage1-handle_stage0_example :
    (sent : List ℕ) × ((handle_stage0 length_hashes plain_library plain_protobuf counting_noise
        always 50
        (some (9 ∷ 0 ∷ 0 ∷ 0 ∷ []))
        first_packet
        remote
        idle).0
      ≡ (sent, remote) ∷ [])
    × ((handle_stage1 length_hashes plain_library plain_protobuf counting_noise always 60 sent
          waiting).1
        ≡ ok (record {
          host = new_host (ip4 1) remote 4 9 (7, 8) node;
          packets = plain_packet ∷ [];
        }))
    × (responder_session.host.remote_index ≡ 4)
unfolding new_handshake_manager
handle_stage1-handle_stage0_example =
    handle_stage1-handle_stage0 length_hashes plain_library plain_protobuf plain_protobuf-RoundTrips
      counting_noise always counting_noise-Completes 0 50 60 (some (4 ∷ 0 ∷ 0 ∷ 0 ∷ []))
      (some (9 ∷ 0 ∷ 0 ∷ 0 ∷ [])) (ip4 1) remote remote node idle idle waiting 0 started queued
      responder_session is_started (omega arith) is_accepted is_waiting refl node_parsed
      node_verified

responder-IsHostMap : IsHostMap (receiver.hostmap)
responder-IsHostMap = add-IsHostMap receiver_end new_host_map new_host_map-IsHostMap

waiting-Passes : Passes (receiver.fw.inbound) [] plain_packet
unfolding src_ip_from_ipv4 addr_from4 matches new
waiting-Passes = (ip4 0, refl, refl)

receive_all-handle_stage1_example :
    (sent : List ℕ) × ((handle_stage0 length_hashes plain_library plain_protobuf counting_noise
        always 50
        (some (9 ∷ 0 ∷ 0 ∷ 0 ∷ []))
        first_packet
        remote
        idle).0
      ≡ (sent, remote) ∷ [])
    × ((receive_all length_hashes plain_library plain_protobuf plain_lights plain_aead
          counting_noise always 70 remote
          (complete plain_aead
            (handle_stage1 length_hashes plain_library plain_protobuf counting_noise always 60 sent
              waiting).1
            receiver).1
          (on_handshake_complete plain_aead responder_session receiver).0).1
        ≡ writes_tun plain_packet ∷ [])
unfolding new_handshake_manager
receive_all-handle_stage1_example =
    receive_all-handle_stage1 length_hashes plain_library plain_protobuf plain_lights plain_aead
      counting_noise always plain_protobuf-RoundTrips counting_noise-Completes 0 50 60 70
      (some (4 ∷ 0 ∷ 0 ∷ 0 ∷ [])) (some (9 ∷ 0 ∷ 0 ∷ 0 ∷ [])) (ip4 1) remote remote remote node idle
      idle waiting 0 started queued responder_session receiver receiver is_started (omega arith)
      is_accepted (omega arith) is_waiting refl node_parsed node_verified responder-IsHostMap
      (omega arith) (waiting-Passes, tt)
