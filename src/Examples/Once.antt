-- ===== src/Examples/Once.antt =====
-- A packet that comes twice, and the loops that read packets.
use neth.Base.{
  ℕ, zero, suc, ◌+◌, ◌≤◌, length, map, true, false, Option, subst, sym, ◌≡◌, refl, arith, List, [],
  ◌∷◌, none, some, ok, nat_key,
}
use neth.Base.Assoc.{lookup, insert}
use neth.Net.{addr_key, UdpAddr}
use neth.Cert.{Certificate}
use neth.Header.{parse as parse_header}
use neth.Header.Laws.{parse-packet, length-packet}
use neth.HostMap.{HostInfo, HostMap, new_host_map, add, get_by_index, write_host}
use neth.HostMap.Laws.{IsHostMap, new_host_map-IsHostMap, add-IsHostMap}
use neth.Replay.{check_replay}
use neth.Replay.Shift.{empty_window-IsWindow}
use neth.Interface.{Interface, message_header, message_packet}
use neth.Interface.Packets.{consume_outside_packet}
use neth.Interface.Delivery.{message_header-IsHeader}
use neth.Interface.Effects.{Delivers}
use neth.Interface.Once.{outside, retries, expires, step, run, consume_outside_packet_once}
use neth.Interface.Messages.{message-hostmap}
use neth.Interface.{send_pending, writes_tun}
use neth.Packet.{src_ip_from_ipv4}
use neth.Firewall.{matches, new}
use neth.Interface.Rounds.{Round}
use neth.Interface.Loops.{read_from_udp}
use neth.Interface.Serving.{Meets, read_from_udp-send_pending}
use neth.Interface.{send_to_remote, sends}
use neth.NoiseUtil.{encrypt}
use neth.Header.{bytes}
use neth.Interface.Serving.{arrived}
use neth.Interface.Stream.{Passes, receive_all, receive_all-send_pending}
use neth.Net.{ip4, addr_from4}
use neth.Base.{replicate}
use neth.Examples.Instances.{
  plain_aead, plain_library, plain_lights, plain_protobuf, length_hashes, counting_noise,
}
use neth.Examples.Traffic.{
  always, remote, sender_end, receiver_end, receiver, plain_packet, session_known, packet_delivered,
}

abbrev sent_packet : List ℕ
sent_packet = message_packet plain_aead sender_end plain_packet

abbrev after_events : Interface ℕ ℕ
after_events =
    run length_hashes plain_library plain_protobuf plain_lights plain_aead counting_noise always
      (outside 5 none sent_packet remote ∷ retries 6 ∷ expires 7 ∷ []) receiver

abbrev used_end : HostInfo ℕ Certificate
used_end = record receiver_end { replay = (check_replay (receiver_end.replay) 1).0 }

receiver-IsHostMap : IsHostMap (receiver.hostmap)
receiver-IsHostMap = add-IsHostMap receiver_end new_host_map new_host_map-IsHostMap

sent_header : parse_header sent_packet ≡ ok (message_header plain_aead sender_end)
unfolding message_packet message_header
sent_header =
    let hdr = message_header plain_aead sender_end in
    (parse-packet hdr _ (message_header-IsHeader plain_aead sender_end (omega arith)) refl
      (omega arith)).0

message_known :
    get_by_index ((message_header plain_aead sender_end).remote_index) (receiver.hostmap)
    ≡ some (0, receiver_end)
unfolding message_header
message_known = session_known

still_known :
    get_by_index ((message_header plain_aead sender_end).remote_index) (after_events.hostmap)
    ≡ some (0, used_end)
unfolding run step get_by_index message_header write_host lookup insert add new_host_map
still_known =
    subst (λ (m : HostMap ℕ Certificate). get_by_index 4 m ≡ some (0, used_end))
      (sym (
        message-hostmap length_hashes plain_library plain_protobuf plain_lights plain_aead
          counting_noise always 5 none sent_packet remote (message_header plain_aead sender_end) 0
          receiver_end receiver sent_header refl message_known))
      refl

consume_outside_packet_once_example :
    ¬ Delivers plain_packet
      (consume_outside_packet length_hashes plain_library plain_protobuf plain_lights plain_aead
        counting_noise always 8 none sent_packet remote after_events).1
consume_outside_packet_once_example =
    consume_outside_packet_once length_hashes plain_library plain_protobuf plain_lights plain_aead
      counting_noise always 5 8 none none sent_packet sent_packet plain_packet plain_packet remote
      remote (message_header plain_aead sender_end) (message_header plain_aead sender_end) 0
      receiver_end used_end (retries 6 ∷ expires 7 ∷ []) receiver receiver-IsHostMap sent_header
      message_known empty_window-IsWindow packet_delivered sent_header refl still_known

-- An IPv4 packet from another address.
abbrev next_packet : List ℕ
next_packet = 0x45 ∷ replicate 19 1

plain_packet-Passes : Passes (receiver.fw.inbound) [] plain_packet
unfolding src_ip_from_ipv4 addr_from4 matches new
plain_packet-Passes = (ip4 0, refl, refl)

next_packet-Passes : Passes (receiver.fw.inbound) [] next_packet
unfolding src_ip_from_ipv4 addr_from4 matches new
next_packet-Passes = (_, refl, refl)

receive_all-send_pending_example :
    (receive_all length_hashes plain_library plain_protobuf plain_lights plain_aead counting_noise
      always 5 remote
      (send_pending plain_aead 9 sender_end (plain_packet ∷ next_packet ∷ []) receiver).1
      receiver).1
    ≡ writes_tun plain_packet ∷ writes_tun next_packet ∷ []
receive_all-send_pending_example =
    receive_all-send_pending length_hashes plain_library plain_protobuf plain_lights plain_aead
      counting_noise always 5 remote 9 0 sender_end receiver_end (plain_packet ∷ next_packet ∷ [])
      receiver receiver (omega arith) (omega arith) session_known refl (omega arith)
      (plain_packet-Passes, (next_packet-Passes, tt))

-- The socket gives the first packet, then nothing, then the second; then the context is done.
abbrev first_sent : List ℕ
first_sent = message_packet plain_aead sender_end plain_packet

abbrev second_sent : List ℕ
second_sent = message_packet plain_aead (record sender_end { counter = 1 }) next_packet

abbrev rounds : ℕ → Round (List ℕ × UdpAddr)
rounds zero = record { done = false; read = some (first_sent, remote); done_after = false }
rounds (suc zero) = record { done = false; read = none; done_after = false }
rounds (suc (suc zero)) = record {
  done = false;
  read = some (second_sent, remote);
  done_after = false;
}
rounds (suc (suc (suc n))) = record { done = true; read = none; done_after = false }

abbrev reads : List (Option (List ℕ))
reads = some first_sent ∷ none ∷ some second_sent ∷ []

abbrev clock : ℕ → ℕ
clock k = 5 + k

abbrev drawn : ℕ → Option (List ℕ)
drawn k = none

abbrev unchanged : ℕ → Interface ℕ ℕ → Interface ℕ ℕ
unchanged k i = i

first_short : length first_sent ≤ 65535
unfolding message_packet message_header encrypt
first_short =
    let hdr = message_header plain_aead sender_end in
    omega (arith, length-packet hdr (encrypt plain_aead 7 1 (bytes hdr) plain_packet))

second_short : length second_sent ≤ 65535
unfolding message_packet message_header encrypt
second_short =
    let hdr = message_header plain_aead (record sender_end { counter = 1 }) in
    omega (arith, length-packet hdr (encrypt plain_aead 7 2 (bytes hdr) next_packet))

are_sent :
    (send_pending plain_aead 9 sender_end (plain_packet ∷ next_packet ∷ []) receiver).1
    ≡ map (λ d. sends (d, remote)) (arrived reads)
unfolding send_pending send_to_remote
are_sent = refl

rounds_meet : Meets rounds remote 0 reads
rounds_meet =
    (refl, (refl, (first_short, (refl, (refl, (refl, (refl, (refl, (second_short, refl)))))))))

read_from_udp-send_pending_example :
    (last : Interface ℕ ℕ) × (read_from_udp length_hashes plain_library plain_protobuf plain_lights
        plain_aead counting_noise always clock drawn unchanged rounds 4 receiver
      ≡ some (last, writes_tun plain_packet ∷ writes_tun next_packet ∷ []))
read_from_udp-send_pending_example =
    read_from_udp-send_pending length_hashes plain_library plain_protobuf plain_lights plain_aead
      counting_noise always clock drawn unchanged rounds 4 reads remote remote 9 0 sender_end
      receiver_end (plain_packet ∷ next_packet ∷ []) receiver receiver rounds_meet (omega arith)
      are_sent (λ k i. (refl, refl)) (omega arith) (omega arith) session_known refl (omega arith)
      (plain_packet-Passes, (next_packet-Passes, tt))
