-- ===== src/Interface/Packets.antt =====
-- interface.go: consumeInsidePacket, consumeOutsidePacket and handleHandshake.
use neth.Base.{
  ℕ, Bool, List, [], ◌∷◌, ◌++◌, map, length, Option, none, some, ltb, ◌==◌, if◌then◌else◌, ok, err,
  nat_key,
}
use neth.Base.Text.{Text}
use neth.Net.{Addr, UdpAddr, addr_key}
use neth.Crypto.{Aead, Hashes}
use neth.Cert.{Certificate}
use neth.Cert as Certs
use neth.Header.{
  Header, header_len, type_handshake, type_message, type_lighthouse, type_test, type_close_tunnel,
  handshake_initiation, handshake_response, parse as parse_header,
}
use neth.HostMap.{HostInfo, get_by_vpn_ip}
use neth.Firewall.{allow_outbound}
use neth.Handshake.{Protobuf}
use neth.Noise.{Noise}
use neth.Punchy.{Datagram}
use neth.LightHouse.{
  LightHouse, LightHouseMessage, get_addrs, vpn_ip_by_addr, query_peer,
  handle_message as handle_light_house_message,
}
use neth.LightHouse as Lights
use neth.Manager.{queue_packet}
use neth.Manager.Stages.{start_handshake, handle_stage0, handle_stage1}
use neth.Packet.{dst_ip_from_ipv4, proto_from_ipv4, dst_port_from_ipv4}
use neth.Interface.{
  Effect, sends, Interface, groups_of, handle_test, get_peer_cert, handle_close_tunnel,
  handle_light_house, send_to_remote, complete, handle_message,
}

module _ (hashes : Hashes) (lib : Certs.Library) (proto : Protobuf) (lights : Lights.Library) where
  module _ (aead : Aead) (noise : Noise (aead.Cipher)) (can_write : Datagram → Bool) where
    -- handleHandshake; an error is only logged.
    unfoldable pub handle_handshake :
        ℕ
        → Option (List ℕ)
        → List ℕ
        → Header
        → UdpAddr
        → Interface (aead.Cipher) (noise.State)
        → Interface (aead.Cipher) (noise.State) × List Effect
    handle_handshake now random pkt hdr from i =
        if hdr.sub_type == handshake_initiation
        then (let (sent, result) =
              handle_stage0 hashes lib proto noise can_write now random pkt from i.handshake_mgr in
            let (next, more) = complete aead result i in (next, map sends sent ++ more))
        else if hdr.sub_type == handshake_response
        then (let (mgr, result) =
              handle_stage1 hashes lib proto noise can_write now pkt i.handshake_mgr in
            complete aead result (record i { handshake_mgr = mgr }))
        else (i, [])

    -- The `switch` of consumeOutsidePacket.
    unfoldable pub dispatch :
        ℕ
        → Option (List ℕ)
        → List ℕ
        → Header
        → UdpAddr
        → Interface (aead.Cipher) (noise.State)
        → Interface (aead.Cipher) (noise.State) × List Effect
    dispatch now random pkt hdr from i =
        if hdr.type == type_message
        then handle_message aead now pkt hdr from i
        else if hdr.type == type_handshake
        then handle_handshake now random pkt hdr from i
        else if hdr.type == type_lighthouse
        then handle_light_house lights pkt hdr from i
        else if hdr.type == type_test
        then (i, handle_test from)
        else if hdr.type == type_close_tunnel
        then (handle_close_tunnel hdr i, [])
        else (i, [])

    -- consumeOutsidePacket
    unfoldable pub consume_outside_packet :
        ℕ
        → Option (List ℕ)
        → List ℕ
        → UdpAddr
        → Interface (aead.Cipher) (noise.State)
        → Interface (aead.Cipher) (noise.State) × List Effect
    consume_outside_packet now random pkt from i =
        if ltb (length pkt) header_len then (i, []) else elim (parse_header pkt) [
          | err _ ↦ (i, [])
          | ok hdr ↦ dispatch now random pkt hdr from i
        ]

    abbrev queue :
        Addr
        → List ℕ
        → Interface (aead.Cipher) (noise.State)
        → Interface (aead.Cipher) (noise.State)
    queue ip pkt i = record i { handshake_mgr = queue_packet ip pkt i.handshake_mgr }

    -- The end of consumeInsidePacket: start a handshake, and queue the packet if that worked.
    unfoldable pub start_and_queue :
        ℕ
        → Option (List ℕ)
        → Addr
        → UdpAddr
        → Certificate
        → List ℕ
        → Interface (aead.Cipher) (noise.State)
        → Interface (aead.Cipher) (noise.State) × List Effect
    start_and_queue now random dst_ip addr cert pkt i =
        let (mgr, sent, result) =
          start_handshake hashes lib proto noise can_write now random dst_ip addr cert
            i.handshake_mgr in
        let started : Interface (aead.Cipher) (noise.State) = record i { handshake_mgr = mgr } in
        (elim result [ err _ ↦ started | ok _ ↦ queue dst_ip pkt started ], map sends sent)

    -- consumeInsidePacket for a peer without a session.
    unfoldable pub reach :
        ℕ
        → Option (List ℕ)
        → Addr
        → List ℕ
        → Interface (aead.Cipher) (noise.State)
        → Interface (aead.Cipher) (noise.State) × List Effect
    reach now random dst_ip pkt i = elim (get_peer_cert dst_ip i) [
      | none ↦ (queue dst_ip pkt i, [])
      | some cert ↦ elim (get_addrs dst_ip i.lighthouse) [
        | [] ↦ (queue dst_ip pkt i, map sends (query_peer lights dst_ip i.lighthouse))
        | addr ∷ _ ↦ start_and_queue now random dst_ip addr cert pkt i
      ]
    ]

    -- The groups of the session of a destination.
    abbrev groups_at : Option (ℕ × HostInfo (aead.Cipher) Certificate) → List Text
    groups_at none = []
    groups_at (some (r, host)) = groups_of host.cert

    -- consumeInsidePacket for a destination.
    unfoldable pub forward :
        ℕ
        → Option (List ℕ)
        → Addr
        → List ℕ
        → Interface (aead.Cipher) (noise.State)
        → Interface (aead.Cipher) (noise.State) × List Effect
    forward now random dst_ip pkt i =
        let found = get_by_vpn_ip dst_ip i.hostmap in
        let (fw, allowed) =
          allow_outbound now dst_ip (groups_at found) (dst_port_from_ipv4 pkt) (proto_from_ipv4 pkt)
            i.fw in
        let checked : Interface (aead.Cipher) (noise.State) = record i { fw = fw } in
        if allowed
        then elim found [
          | some (r, host) ↦ send_to_remote aead r host pkt checked
          | none ↦ reach now random dst_ip pkt checked
        ]
        else (checked, [])

    -- consumeInsidePacket
    unfoldable pub consume_inside_packet :
        ℕ
        → Option (List ℕ)
        → List ℕ
        → Interface (aead.Cipher) (noise.State)
        → Interface (aead.Cipher) (noise.State) × List Effect
    consume_inside_packet now random pkt i = elim (dst_ip_from_ipv4 pkt) [
      | none ↦ (i, [])
      | some dst_ip ↦ forward now random dst_ip pkt i
    ]
