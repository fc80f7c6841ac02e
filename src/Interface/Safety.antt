-- ===== src/Interface/Safety.antt =====
-- interface.go: what reaches the TUN device from the network.
use neth.Base.{
  ℕ, ◌≡◌, refl, ap, subst, ◌∙◌, Bool, true, false, List, [], ◌∷◌, map, take, drop, length, Option,
  some, ltb, ◌==◌, if◌then◌else◌, ok, nat_key, Bool-cases, Option-cases, Result-cases, inl, inr,
  if-if_cases,
}
use neth.Net.{Addr, UdpAddr, addr_key}
use neth.Crypto.{Aead, Hashes}
use neth.Cert.{Certificate}
use neth.Cert as Certs
use neth.Header.{
  Header, header_len, type_message, type_handshake, type_lighthouse, type_test, type_close_tunnel,
  handshake_initiation, handshake_response, parse as parse_header,
}
use neth.Replay.{check_replay}
use neth.HostMap.{HostInfo, get_by_index, write_host}
use neth.Firewall.{allow_inbound}
use neth.NoiseUtil.{decrypt}
use neth.Handshake.{Protobuf}
use neth.Noise.{Noise}
use neth.Punchy.{Datagram, respond_to_punch}
use neth.LightHouse as Lights
use neth.Packet.{src_ip_from_ipv4, proto_from_ipv4, dst_port_from_ipv4}
use neth.Interface.{
  handle_light_house, handle_test, handle_close_tunnel, Effect, sends, writes_tun, Interface,
  groups_of, receive, open_message, handle_message,
}
use neth.Interface.Packets.{handle_handshake, dispatch, consume_outside_packet}
use neth.Interface.Effects.{
  OnlySends, map-OnlySends, append-OnlySends, Delivers, OnlySends-Delivers, complete-OnlySends,
  handle_light_house-OnlySends,
}

-- The packet with this header opens to a plaintext that a session may deliver: a session stands under
-- the index that the header names, the counter is no replay to it, its cipher opens the packet to the
-- plaintext, and the firewall allows the plaintext's source.
abbrev pub MayDeliver :
    (aead : Aead) {State : Type 0}
    → ℕ
    → List ℕ
    → Header
    → List ℕ
    → Interface (aead.Cipher) State
    → Type 0
MayDeliver aead now pkt hdr plaintext i =
    (r : ℕ) × (host : HostInfo (aead.Cipher) Certificate) × (src : Addr) × (get_by_index
        hdr.remote_index i.hostmap
      ≡ some (r, host))
    × ((check_replay host.replay hdr.message_counter).1 ≡ false)
    × (decrypt aead host.recv_cipher hdr.message_counter (take header_len pkt) (drop header_len pkt)
        ≡ some plaintext)
    × (src_ip_from_ipv4 plaintext ≡ some src)
    × ((allow_inbound now src (groups_of host.cert) (dst_port_from_ipv4 plaintext)
          (proto_from_ipv4 plaintext) i.fw).1
        ≡ true)

one_delivery : (written pkt : List ℕ) → Delivers pkt (writes_tun written ∷ []) → written ≡ pkt
one_delivery written pkt (inl same) = same
one_delivery written pkt (inr none_left) = absurd none_left

module _ (aead : Aead) {State : Type 0} where
  receive-Delivers :
      (now : ℕ) (host : HostInfo (aead.Cipher) Certificate) (opened plaintext : List ℕ)
      (i : Interface (aead.Cipher) State)
      → Delivers plaintext (receive aead now host opened i).1
      → (src : Addr) × (opened ≡ plaintext)
        × (src_ip_from_ipv4 opened ≡ some src)
        × ((allow_inbound now src
              (groups_of host.cert)
              (dst_port_from_ipv4 opened)
              (proto_from_ipv4 opened)
              i.fw).1
            ≡ true)
  unfolding receive
  receive-Delivers now host opened plaintext i d = elim (Option-cases (src_ip_from_ipv4 opened)) [
    | inl bad ↦
        let nothing : (receive aead now host opened i).1 ≡ [] = rw (receive, bad) refl in
        absurd (subst (Delivers plaintext) nothing d)
    | inr (src, good) ↦
        let allowed =
          (allow_inbound now src (groups_of host.cert) (dst_port_from_ipv4 opened)
            (proto_from_ipv4 opened) i.fw).1 in
        elim (Bool-cases allowed) [
          | inl pass ↦
              let one : (receive aead now host opened i).1 ≡ writes_tun opened ∷ [] =
                rw (receive, good) (rw pass refl) in
              (src, one_delivery opened plaintext (subst (Delivers plaintext) one d), good, pass)
          | inr stop ↦
              let nothing : (receive aead now host opened i).1 ≡ [] =
                rw (receive, good) (rw stop refl) in
              absurd (subst (Delivers plaintext) nothing d)
        ]
  ]

  open_message-Delivers :
      (now r : ℕ) (host : HostInfo (aead.Cipher) Certificate) (pkt plaintext : List ℕ)
      (hdr : Header) (i : Interface (aead.Cipher) State)
      → get_by_index hdr.remote_index i.hostmap ≡ some (r, host)
      → Delivers plaintext (open_message aead now r host pkt hdr i).1
      → MayDeliver aead now pkt hdr plaintext i
  unfolding open_message
  open_message-Delivers now r host pkt plaintext hdr i known d =
      let window = (check_replay host.replay hdr.message_counter).0 in
      let checked : Interface (aead.Cipher) State = record i {
        hostmap = write_host r (record host { replay = window }) i.hostmap;
      } in
      elim (Bool-cases ((check_replay host.replay hdr.message_counter).1)) [
        | inl replay ↦
            let nothing : (open_message aead now r host pkt hdr i).1 ≡ [] =
              rw (open_message, replay) refl in
            absurd (subst (Delivers plaintext) nothing d)
        | inr fresh ↦
            elim (Option-cases (
              decrypt aead host.recv_cipher hdr.message_counter (take header_len pkt)
                (drop header_len pkt))) [
                  | inl bad ↦
                      let nothing : (open_message aead now r host pkt hdr i).1 ≡ [] =
                        rw (open_message, fresh) (rw bad refl) in
                      absurd (subst (Delivers plaintext) nothing d)
                  | inr (opened, good) ↦
                      let passed : (open_message aead now r host pkt hdr i).1
                          ≡ (receive aead now host opened checked).1 =
                        rw (open_message, fresh) (rw good refl) in
                      let (src, same, from, allowed) =
                        receive-Delivers now host opened plaintext checked
                          (subst (Delivers plaintext) passed d) in
                      (
                        r,
                        host,
                        src,
                        known,
                        fresh,
                        good ∙ ap (λ x. some x) same,
                        subst (λ x. src_ip_from_ipv4 x ≡ some src) same from,
                        subst
                            (λ x.
                              (allow_inbound now src (groups_of host.cert) (dst_port_from_ipv4 x)
                                (proto_from_ipv4 x) i.fw).1
                              ≡ true)
                            same allowed,
                      )
                ]
      ]

  handle_message-Delivers :
      (now : ℕ) (pkt plaintext : List ℕ) (hdr : Header) (from : UdpAddr)
      (i : Interface (aead.Cipher) State)
      → Delivers plaintext (handle_message aead now pkt hdr from i).1
      → MayDeliver aead now pkt hdr plaintext i
  unfolding handle_message
  handle_message-Delivers now pkt plaintext hdr from i d =
      elim (Option-cases (get_by_index hdr.remote_index i.hostmap)) [
        | inr ((r, host), known) ↦
            let passed : (handle_message aead now pkt hdr from i).1
                ≡ (open_message aead now r host pkt hdr i).1 =
              rw (handle_message, known) refl in
            open_message-Delivers now r host pkt plaintext hdr i known
              (subst (Delivers plaintext) passed d)
        | inl unknown ↦ elim (Option-cases (i.punchy)) [
          | inl unset ↦
              let nothing : (handle_message aead now pkt hdr from i).1 ≡ [] =
                rw (handle_message, unknown) (rw unset refl) in
              absurd (subst (Delivers plaintext) nothing d)
          | inr (p, set) ↦
              let answer = map sends (respond_to_punch p from) in
              let answered : (handle_message aead now pkt hdr from i).1 ≡ answer =
                rw (handle_message, unknown) (rw set refl) in
              absurd (
                OnlySends-Delivers answer plaintext (map-OnlySends (respond_to_punch p from))
                  (subst (Delivers plaintext) answered d))
        ]
      ]

module _ (hashes : Hashes) (lib : Certs.Library) (proto : Protobuf) (lights : Lights.Library) where
  module _ (aead : Aead) (noise : Noise (aead.Cipher)) (can_write : Datagram → Bool) where
    handle_handshake-OnlySends :
        (now : ℕ) (random : Option (List ℕ)) (pkt : List ℕ) (hdr : Header) (from : UdpAddr)
        (i : Interface (aead.Cipher) (noise.State))
        → OnlySends
            (handle_handshake hashes lib proto lights aead noise can_write now random pkt hdr from
              i).1
    unfolding handle_handshake
    handle_handshake-OnlySends now random pkt hdr from i =
        if-if_cases (λ (p : Interface (aead.Cipher) (noise.State) × List Effect). OnlySends p.1)
          (hdr.sub_type == handshake_initiation) (hdr.sub_type == handshake_response) _ _ _
          (λ _. append-OnlySends _ _ (map-OnlySends _) (complete-OnlySends aead _ i))
          (λ _ _. complete-OnlySends aead _ _) (λ _ _. tt)

    pub others-OnlySends :
        (now : ℕ) (random : Option (List ℕ)) (pkt : List ℕ) (hdr : Header) (from : UdpAddr)
        (i : Interface (aead.Cipher) (noise.State))
        → OnlySends
            (if hdr.type == type_handshake
              then handle_handshake hashes lib proto lights aead noise can_write now random pkt hdr
                  from i
              else if hdr.type == type_lighthouse
              then handle_light_house lights pkt hdr from i
              else if hdr.type == type_test
              then (i, handle_test from)
              else if hdr.type == type_close_tunnel
              then (handle_close_tunnel hdr i, [])
              else (i, [])).1
    unfolding handle_test
    others-OnlySends now random pkt hdr from i =
        if-if_cases (λ (p : Interface (aead.Cipher) (noise.State) × List Effect). OnlySends p.1)
          (hdr.type == type_handshake) (hdr.type == type_lighthouse) _ _ _
          (λ _. handle_handshake-OnlySends now random pkt hdr from i)
          (λ _ _. handle_light_house-OnlySends aead lights pkt hdr from i)
          (λ _ _.
            if-if_cases (λ (p : Interface (aead.Cipher) (noise.State) × List Effect). OnlySends p.1)
              (hdr.type == type_test) (hdr.type == type_close_tunnel) _ _ _ (λ _. (tt, tt))
              (λ _ _. tt) (λ _ _. tt))

    dispatch-Delivers :
        (now : ℕ) (random : Option (List ℕ)) (pkt plaintext : List ℕ) (hdr : Header)
        (from : UdpAddr) (i : Interface (aead.Cipher) (noise.State))
        → Delivers plaintext
            (dispatch hashes lib proto lights aead noise can_write now random pkt hdr from i).1
        → MayDeliver aead now pkt hdr plaintext i
    unfolding dispatch handle_test
    dispatch-Delivers now random pkt plaintext hdr from i d =
        elim (Bool-cases (hdr.type == type_message)) [
          | inl message ↦
              let passed : (dispatch hashes lib proto lights aead noise can_write now random pkt hdr
                    from i).1
                  ≡ (handle_message aead now pkt hdr from i).1 =
                rw (dispatch, message) refl in
              handle_message-Delivers aead now pkt plaintext hdr from i
                (subst (Delivers plaintext) passed d)
          | inr other ↦ absurd (
              OnlySends-Delivers
                ((dispatch hashes lib proto lights aead noise can_write now random pkt hdr from
                  i).1)
                plaintext (rw (dispatch, other) (others-OnlySends now random pkt hdr from i)) d)
        ]

    -- Whenever a packet from the network makes the node write a plaintext to its TUN device, the
    -- packet's header parses, a session stands under the index that the header names, the counter is
    -- no replay to it, its cipher opens the packet to that plaintext, and the firewall allows the
    -- plaintext's source.
    pub consume_outside_packet-Delivers :
        (now : ℕ) (random : Option (List ℕ)) (from : UdpAddr) (pkt plaintext : List ℕ)
        (i : Interface (aead.Cipher) (noise.State))
        → Delivers plaintext
            (consume_outside_packet hashes lib proto lights aead noise can_write now random pkt from
              i).1
        → (hdr : Header) × (parse_header pkt ≡ ok hdr) × MayDeliver aead now pkt hdr plaintext i
    unfolding consume_outside_packet
    consume_outside_packet-Delivers now random from pkt plaintext i d =
        let effects =
          (consume_outside_packet hashes lib proto lights aead noise can_write now random pkt from
            i).1 in
        elim (Bool-cases (ltb (length pkt) header_len)) [
          | inl short ↦
              let nothing : effects ≡ [] = rw (consume_outside_packet, short) refl in
              absurd (subst (Delivers plaintext) nothing d)
          | inr long ↦ elim (Result-cases (parse_header pkt)) [
            | inl (e, bad) ↦
                let nothing : effects ≡ [] = rw (consume_outside_packet, long) (rw bad refl) in
                absurd (subst (Delivers plaintext) nothing d)
            | inr (hdr, parsed) ↦
                let passed : effects
                    ≡ (dispatch hashes lib proto lights aead noise can_write now random pkt hdr from
                        i).1 =
                  rw (consume_outside_packet, long) (rw parsed refl) in
                (
                  hdr,
                  parsed,
                  dispatch-Delivers now random pkt plaintext hdr from i
                      (subst (Delivers plaintext) passed d),
                )
          ]
        ]
