-- ===== src/Interface/Delivery.antt =====
-- interface.go: a packet from one node's TUN device to the other's.
use neth.Base.{
  ℕ, ◌+◌, ◌%◌, ◌^◌, ◌<◌, ◌≡◌, refl, arith, Bool, true, false, List, [], ◌∷◌, take, drop, length,
  Option, some, ltb, nat_key, le→ltb,
}
use neth.Net.{Addr, UdpAddr, addr_key}
use neth.Crypto.{Aead, Hashes}
use neth.Cert.{Certificate}
use neth.Cert as Certs
use neth.Header.{header_len, bytes, packet}
use neth.Header.Laws.{IsHeader, parse-packet, length-packet}
use neth.Replay.{check_replay}
use neth.HostMap.{HostInfo, get_by_index}
use neth.Firewall.{allow_inbound}
use neth.NoiseUtil.{encrypt, decrypt}
use neth.NoiseUtil.Laws.{decrypt-encrypt}
use neth.Handshake.{Protobuf}
use neth.Noise.{Noise}
use neth.Punchy.{Datagram}
use neth.LightHouse as Lights
use neth.Packet.{src_ip_from_ipv4, proto_from_ipv4, dst_port_from_ipv4}
use neth.Interface.{
  writes_tun, Interface, groups_of, message_header, message_packet, receive, open_message,
  handle_message,
}
use neth.Interface.Packets.{dispatch, consume_outside_packet}

module _ (aead : Aead) where
  pub message_header-IsHeader :
      (host : HostInfo (aead.Cipher) Certificate)
      → host.remote_index < 2 ^ 32
      → IsHeader (message_header aead host)
  unfolding message_header
  message_header-IsHeader host small = record {
    version_fits = omega arith;
    type_fits = omega arith;
    sub_type_fits = omega arith;
    index_fits = small;
    counter_fits = omega arith;
  }

module _ (aead : Aead) {State : Type 0} where
  receive-allowed :
      (now : ℕ) (host : HostInfo (aead.Cipher) Certificate) (plaintext : List ℕ) (src : Addr)
      (i : Interface (aead.Cipher) State)
      → src_ip_from_ipv4 plaintext ≡ some src
      → (allow_inbound now src
          (groups_of host.cert)
          (dst_port_from_ipv4 plaintext)
          (proto_from_ipv4 plaintext)
          i.fw).1
        ≡ true
      → (receive aead now host plaintext i).1 ≡ writes_tun plaintext ∷ []
  unfolding receive
  receive-allowed now host plaintext src i from allowed = rw (receive, from) (rw allowed refl)

  open_message-delivers :
      (now r : ℕ) (sender host : HostInfo (aead.Cipher) Certificate) (plaintext : List ℕ)
      (src : Addr) (i : Interface (aead.Cipher) State)
      → sender.remote_index < 2 ^ 32
      → host.recv_cipher ≡ sender.send_cipher
      → (check_replay host.replay ((sender.counter + 1) % 2 ^ 64)).1 ≡ false
      → src_ip_from_ipv4 plaintext ≡ some src
      → (allow_inbound now src
          (groups_of host.cert)
          (dst_port_from_ipv4 plaintext)
          (proto_from_ipv4 plaintext)
          i.fw).1
        ≡ true
      → (open_message aead now r host
          (message_packet aead sender plaintext)
          (message_header aead sender)
          i).1
        ≡ writes_tun plaintext ∷ []
  unfolding open_message message_packet message_header
  open_message-delivers now r sender host plaintext src i small keys fresh from allowed =
      let hdr = message_header aead sender in
      let body = encrypt aead sender.send_cipher hdr.message_counter (bytes hdr) plaintext in
      let (_, dropped, taken) =
        parse-packet hdr body (message_header-IsHeader aead sender small) refl (omega arith) in
      let opened : decrypt aead host.recv_cipher hdr.message_counter
            (take header_len (message_packet aead sender plaintext))
            (drop header_len (message_packet aead sender plaintext))
          ≡ some plaintext =
        rw (taken, dropped, keys)
          (decrypt-encrypt aead sender.send_cipher hdr.message_counter (bytes hdr) plaintext) in
      rw (open_message, fresh) (rw opened (receive-allowed now host plaintext src _ from allowed))

module _ (hashes : Hashes) (lib : Certs.Library) (proto : Protobuf) (lights : Lights.Library) where
  module _ (aead : Aead) (noise : Noise (aead.Cipher)) (can_write : Datagram → Bool) where
    -- What `sendToRemote` sends to a node, the node writes to its TUN device unchanged, and nothing
    -- else, when it has a session under the index that the sender knows, the session's receive
    -- cipher is the sender's send cipher, the counter is no replay, the packet is IPv4 and the
    -- inbound rules or the connection table allow it.
    pub consume_outside_packet-message_packet :
        (now : ℕ) (random : Option (List ℕ)) (from : UdpAddr) (r : ℕ)
        (sender host : HostInfo (aead.Cipher) Certificate) (plaintext : List ℕ) (src : Addr)
        (i : Interface (aead.Cipher) (noise.State))
        → sender.remote_index < 2 ^ 32
        → get_by_index sender.remote_index i.hostmap ≡ some (r, host)
        → host.recv_cipher ≡ sender.send_cipher
        → (check_replay host.replay ((sender.counter + 1) % 2 ^ 64)).1 ≡ false
        → src_ip_from_ipv4 plaintext ≡ some src
        → (allow_inbound now src
            (groups_of host.cert)
            (dst_port_from_ipv4 plaintext)
            (proto_from_ipv4 plaintext)
            i.fw).1
          ≡ true
        → (consume_outside_packet hashes lib proto lights aead noise can_write now random
            (message_packet aead sender plaintext)
            from
            i).1
          ≡ writes_tun plaintext ∷ []
    unfolding consume_outside_packet dispatch handle_message message_packet message_header
    consume_outside_packet-message_packet now random from r sender host plaintext src i small known
          keys fresh is_ipv4 allowed =
        let hdr = message_header aead sender in
        let body = encrypt aead sender.send_cipher hdr.message_counter (bytes hdr) plaintext in
        let (parsed, _, _) =
          parse-packet hdr body (message_header-IsHeader aead sender small) refl (omega arith) in
        let long : ltb (length (packet hdr body)) header_len ≡ false =
          le→ltb _ 16 (omega (arith, length-packet hdr body)) in
        rw (consume_outside_packet, long)
          (rw (parsed, dispatch)
            (rw (handle_message, known)
              (open_message-delivers aead now r sender host plaintext src i small keys fresh is_ipv4
                allowed)))
