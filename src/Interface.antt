-- ===== src/Interface.antt =====
-- interface.go: the orchestrator, between the TUN device and the UDP socket.
-- What the handlers write is a list of effects, in order; a failed write is only logged, except where
-- the handshake manager looks at it. The time, the bytes of crypto/rand and whether the socket takes
-- a datagram are arguments.
pub mod Builders
pub mod Start
pub mod Packets
pub mod Delivery
pub mod Effects
pub mod Safety
pub mod Spent
pub mod Handlers
pub mod Keeps
pub mod Messages
pub mod Once
pub mod Stream
pub mod Established
pub mod Rounds
pub mod Loops
pub mod Serving
use neth.Base.{
  ℕ, ◌+◌, ◌*◌, ◌%◌, ◌^◌, Bool, true, false, List, [], ◌∷◌, ◌++◌, map, take, drop, length, Option,
  none, some, ltb, ◌==◌, if◌then◌else◌, Result, ok, err, nat_key,
}
use neth.Base.Assoc.{Assoc, lookup, insert}
use neth.Base.Text.{Text}
use neth.Net.{Addr, UdpAddr, addr_key}
use neth.Crypto.{Aead, Hashes}
use neth.Cert.{Certificate}
use neth.Cert as Certs
use neth.Header.{
  Header, header_len, version, type_handshake, type_message, type_lighthouse, type_test,
  type_close_tunnel, handshake_initiation, handshake_response, bytes, packet, parse as parse_header,
}
use neth.Replay.{ReplayWindow, check_replay}
use neth.HostMap.{HostInfo, HostMap, add, get_by_vpn_ip, get_by_index, remove, write_host}
use neth.Firewall.{Firewall, allow_inbound, allow_outbound}
use neth.NoiseUtil.{encrypt, decrypt}
use neth.Handshake.{Protobuf}
use neth.Noise.{Noise}
use neth.Punchy.{Punchy, Datagram, respond_to_punch}
use neth.LightHouse.{
  LightHouse, LightHouseMessage, get_addrs, vpn_ip_by_addr, query_peer,
  handle_message as handle_light_house_message,
}
use neth.LightHouse as Lights
use neth.Manager.{HandshakeManager, queue_packet}
use neth.Manager.Packets.{Completed}
use neth.Manager.Stages.{start_handshake, handle_stage0, handle_stage1}
use neth.Packet.{dst_ip_from_ipv4, src_ip_from_ipv4, proto_from_ipv4, dst_port_from_ipv4}

-- A datagram given to the socket, or a packet given to the TUN device.
pub data Effect : Type 0 where
  sends : Datagram → Effect
  writes_tun : List ℕ → Effect

-- The parts of `Interface` that change, and its punchy.
pub record Interface (Cipher State : Type 0) : Type 0 where
  pub hostmap : HostMap Cipher Certificate
  pub handshake_mgr : HandshakeManager State
  pub fw : Firewall
  pub lighthouse : LightHouse
  pub punchy : Option Punchy
  pub peer_certs : Assoc Addr Certificate

-- The groups of a session's certificate.
abbrev pub groups_of : Option Certificate → List Text
groups_of none = []
groups_of (some cert) = cert.groups

-- handleTest
pub handle_test : UdpAddr → List Effect
handle_test from =
    sends (
      bytes (record {
        version = version;
        type = type_test;
        sub_type = 0;
        remote_index = 0;
        message_counter = 0;
      }),
      from,
    )
    ∷ []

module _ {Cipher State : Type 0} where
  -- getPeerCert
  unfoldable pub get_peer_cert : Addr → Interface Cipher State → Option Certificate
  get_peer_cert vpn_ip i = lookup vpn_ip i.peer_certs

  -- AddPeerCert
  unfoldable pub add_peer_cert :
      Addr → Certificate → Interface Cipher State → Interface Cipher State
  add_peer_cert vpn_ip c i = record i { peer_certs = insert vpn_ip c i.peer_certs }

  -- handleCloseTunnel
  unfoldable pub handle_close_tunnel : Header → Interface Cipher State → Interface Cipher State
  handle_close_tunnel hdr i = elim (get_by_index hdr.remote_index i.hostmap) [
    | none ↦ i
    | some (r, host) ↦ record i { hostmap = remove host.vpn_ip i.hostmap }
  ]

  -- The two ways in which handleLightHouse learns the sender's VPN IP.
  unfoldable pub sender_vpn : Header → UdpAddr → Interface Cipher State → Option Addr
  sender_vpn hdr from i = elim (get_by_index hdr.remote_index i.hostmap) [
    | none ↦ vpn_ip_by_addr from i.lighthouse
    | some (r, host) ↦ some host.vpn_ip
  ]

  module _ (lights : Lights.Library) where
    -- handleLightHouse
    pub handle_light_house :
        List ℕ → Header → UdpAddr → Interface Cipher State → Interface Cipher State × List Effect
    handle_light_house pkt hdr from i = elim (sender_vpn hdr from i) [
      | none ↦ (i, [])
      | some sender ↦ elim (lights.unmarshal (drop header_len pkt)) [
        | none ↦ (i, [])
        | some msg ↦
            let (lh, sent) = handle_light_house_message lights msg sender i.lighthouse in
            (record i { lighthouse = lh }, map sends sent)
      ]
    ]

module _ (aead : Aead) where
  -- The header of a session's next packet.
  unfoldable pub message_header : HostInfo (aead.Cipher) Certificate → Header
  message_header host = record {
    version = version;
    type = type_message;
    sub_type = 0;
    remote_index = host.remote_index;
    message_counter = (host.counter + 1) % 2 ^ 64;
  }

  -- The datagram that sendToRemote sends.
  unfoldable pub message_packet : HostInfo (aead.Cipher) Certificate → List ℕ → List ℕ
  message_packet host plaintext =
      let hdr = message_header host in
      packet hdr (encrypt aead host.send_cipher hdr.message_counter (bytes hdr) plaintext)

module _ (aead : Aead) {State : Type 0} where
  -- The host map after the counter's `Add(1)`.
  unfoldable pub count_packet :
      ℕ
      → HostInfo (aead.Cipher) Certificate
      → Interface (aead.Cipher) State
      → Interface (aead.Cipher) State
  count_packet r host i = record i {
    hostmap = write_host r (record host { counter = (host.counter + 1) % 2 ^ 64 }) i.hostmap;
  }

  -- sendToRemote, through a pointer to the session.
  unfoldable pub send_to_remote :
      ℕ
      → HostInfo (aead.Cipher) Certificate
      → List ℕ
      → Interface (aead.Cipher) State
      → Interface (aead.Cipher) State × List Effect
  send_to_remote r host plaintext i =
      (count_packet r host i, sends (message_packet aead host plaintext, host.remote) ∷ [])

  -- `for _, pkt := range pending { iface.sendToRemote(h, pkt) }`
  unfoldable pub send_pending :
      ℕ
      → HostInfo (aead.Cipher) Certificate
      → List (List ℕ)
      → Interface (aead.Cipher) State
      → Interface (aead.Cipher) State × List Effect
  send_pending r host [] i = (i, [])
  send_pending r host (pkt ∷ pending) i =
      let (next, sent) = send_to_remote r host pkt i in
      let (last, more) =
        send_pending r (record host { counter = (host.counter + 1) % 2 ^ 64 }) pending next in
      (last, sent ++ more)

  -- onHandshakeComplete; the certificate is always set.
  pub on_handshake_complete :
      Completed (aead.Cipher)
      → Interface (aead.Cipher) State
      → Interface (aead.Cipher) State × List Effect
  on_handshake_complete c i =
      let with_host : Interface (aead.Cipher) State = record i { hostmap = add c.host i.hostmap } in
      let with_cert : Interface (aead.Cipher) State = elim (c.host.cert) [
        | none ↦ with_host
        | some cert ↦ add_peer_cert c.host.vpn_ip cert with_host
      ] in
      send_pending i.hostmap.next_ref c.host c.packets with_cert

  -- What a handshake's handler leads to through the callback.
  pub complete :
      {E : Type 0}
      → Result E (Completed (aead.Cipher))
      → Interface (aead.Cipher) State
      → Interface (aead.Cipher) State × List Effect
  complete (err _) i = (i, [])
  complete (ok c) i = on_handshake_complete c i

  -- handleMessage after the packet is decrypted.
  pub receive :
      ℕ
      → HostInfo (aead.Cipher) Certificate
      → List ℕ
      → Interface (aead.Cipher) State
      → Interface (aead.Cipher) State × List Effect
  receive now host plaintext i = elim (src_ip_from_ipv4 plaintext) [
    | none ↦ (i, [])
    | some src_ip ↦
        let (fw, allowed) =
          allow_inbound now src_ip (groups_of host.cert) (dst_port_from_ipv4 plaintext)
            (proto_from_ipv4 plaintext) i.fw in
        (record i { fw = fw }, if allowed then writes_tun plaintext ∷ [] else [])
  ]

  -- handleMessage for a session: the replay check, which moves the window, and then the cipher.
  pub open_message :
      ℕ
      → ℕ
      → HostInfo (aead.Cipher) Certificate
      → List ℕ
      → Header
      → Interface (aead.Cipher) State
      → Interface (aead.Cipher) State × List Effect
  open_message now r host pkt hdr i =
      let (window, replayed) = check_replay host.replay hdr.message_counter in
      let checked : Interface (aead.Cipher) State = record i {
        hostmap = write_host r (record host { replay = window }) i.hostmap;
      } in
      if replayed
      then (checked, [])
      else elim (decrypt aead host.recv_cipher hdr.message_counter (take header_len pkt)
          (drop header_len pkt)) [
            | none ↦ (checked, [])
            | some plaintext ↦ receive now host plaintext checked
          ]

  -- handleMessage
  pub handle_message :
      ℕ
      → List ℕ
      → Header
      → UdpAddr
      → Interface (aead.Cipher) State
      → Interface (aead.Cipher) State × List Effect
  handle_message now pkt hdr from i = elim (get_by_index hdr.remote_index i.hostmap) [
    | some (r, host) ↦ open_message now r host pkt hdr i
    | none ↦ elim (i.punchy) [ none ↦ (i, []) | some p ↦ (i, map sends (respond_to_punch p from)) ]
  ]
