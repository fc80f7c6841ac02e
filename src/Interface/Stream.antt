-- ===== src/Interface/Stream.antt =====
-- Packets of one session, from a sender's queue to the receiver's TUN device.
use neth.Base.{
  ℕ, ◌+◌, ◌%◌, ◌^◌, ◌≤◌, ◌<◌, ◌≡◌, refl, sym, ap, subst, ◌∙◌, arith, Bool, true, false, List, [],
  ◌∷◌, ◌++◌, map, length, take, drop, Option, none, some, ok, nat_key, ◌==◌, All, Bool-cases,
  Option-cases, inl, inr,
}
use neth.Base.Assoc.{lookup-insert_self}
use neth.Base.Pointers.{deref}
use neth.Base.Text.{Text}
use neth.Net.{Addr, UdpAddr, addr_key}
use neth.Crypto.{Aead, Hashes}
use neth.Cert.{Certificate}
use neth.Cert as Certs
use neth.Header.{Header, header_len, type_message, bytes, parse as parse_header}
use neth.Header.Laws.{parse-packet}
use neth.Replay.{ReplayWindow, check_replay, advance}
use neth.HostMap.{HostInfo, HostMap, get_by_index, write_host}
use neth.Firewall.{Firewall, allow_inbound}
use neth.Firewall.Rules.{Rule}
use neth.Firewall.Laws.{matching, allow_lem, allow_inbound_cases}
use neth.NoiseUtil.{encrypt, decrypt}
use neth.Handshake.{Protobuf}
use neth.Noise.{Noise}
use neth.Punchy.{Datagram}
use neth.LightHouse as Lights
use neth.Packet.{src_ip_from_ipv4, proto_from_ipv4, dst_port_from_ipv4}
use neth.Interface.{
  Effect, sends, writes_tun, Interface, groups_of, message_header, message_packet, send_to_remote,
  send_pending, receive, open_message, handle_message,
}
use neth.Interface.Packets.{dispatch, consume_outside_packet}
use neth.Interface.Delivery.{message_header-IsHeader, consume_outside_packet-message_packet}
use neth.Interface.Messages.{deref-ref, parsed-dispatch, message-hostmap}

-- A packet is IPv4 and a rule lets it in.
abbrev pub Passes : List Rule → List Text → List ℕ → Type 0
Passes rules groups pkt =
    (src : Addr) × (src_ip_from_ipv4 pkt ≡ some src)
    × (matching rules src groups (dst_port_from_ipv4 pkt) (proto_from_ipv4 pkt) ≡ true)

pub matching-allow_inbound :
    (now : ℕ) (ip : Addr) (groups : List Text) (port proto : ℕ) (f : Firewall)
    → matching f.inbound ip groups port proto ≡ true
    → (allow_inbound now ip groups port proto f).1 ≡ true
matching-allow_inbound now ip groups port proto f h =
    ap (λ p. p.1) (allow_lem now ip groups port proto f).0 ∙ ground (arith, h)

-- A counter above the window's end is accepted, and is the new end.
pub check_replay-above :
    (w : ReplayWindow) (n : ℕ)
    → w.window_end < n
    → ((check_replay w n).1 ≡ false) × ((check_replay w n).0.window_end ≡ n)
unfolding check_replay advance
check_replay-above w n above = ground arith

get_by_index-write_host :
    {A C : Type 0} (idx r : ℕ) (old h : HostInfo A C) (m : HostMap A C)
    → get_by_index idx m ≡ some (r, old)
    → get_by_index idx (write_host r h m) ≡ some (r, h)
unfolding get_by_index write_host
get_by_index-write_host idx r old h m known =
    rw (deref-ref m.hosts _ r old known) (rw (deref, lookup-insert_self r h m.hosts) refl)

module _ (aead : Aead) {State : Type 0} where
  receive-inbound :
      (now : ℕ) (host : HostInfo (aead.Cipher) Certificate) (plaintext : List ℕ)
      (i : Interface (aead.Cipher) State)
      → (receive aead now host plaintext i).0.fw.inbound ≡ i.fw.inbound
  unfolding receive
  receive-inbound now host plaintext i = elim (Option-cases (src_ip_from_ipv4 plaintext)) [
    | inl bad ↦ rw (receive, bad) refl
    | inr (src, good) ↦
        rw (receive, good)
          (allow_inbound_cases (λ r. r.0.inbound ≡ i.fw.inbound) now src _ _ _ i.fw (λ _. refl)
            (λ _ _. refl) (λ _. refl))
  ]

  open_message-inbound :
      (now r : ℕ) (host : HostInfo (aead.Cipher) Certificate) (pkt : List ℕ) (hdr : Header)
      (i : Interface (aead.Cipher) State)
      → (open_message aead now r host pkt hdr i).0.fw.inbound ≡ i.fw.inbound
  unfolding open_message
  open_message-inbound now r host pkt hdr i =
      elim (Bool-cases (check_replay host.replay hdr.message_counter).1) [
        | inl replayed ↦ rw (open_message, replayed) refl
        | inr fresh ↦
            elim (Option-cases (
              decrypt aead host.recv_cipher hdr.message_counter (take header_len pkt)
                (drop header_len pkt))) [
                  | inl bad ↦ rw (open_message, fresh) (rw bad refl)
                  | inr (plaintext, good) ↦
                      rw (open_message, fresh) (rw good (receive-inbound now host plaintext _))
                ]
      ]

module _ (hashes : Hashes) (lib : Certs.Library) (proto : Protobuf) (lights : Lights.Library) where
  module _ (aead : Aead) (noise : Noise (aead.Cipher)) (can_write : Datagram → Bool) where
    -- The datagrams of a list arrive one after the other, from one address and at one time.
    unfoldable pub receive_all :
        ℕ
        → UdpAddr
        → List Effect
        → Interface (aead.Cipher) (noise.State)
        → Interface (aead.Cipher) (noise.State) × List Effect
    receive_all now from [] i = (i, [])
    receive_all now from (writes_tun pkt ∷ es) i = receive_all now from es i
    receive_all now from (sends (pkt, to) ∷ es) i =
        let (next, sent) =
          consume_outside_packet hashes lib proto lights aead noise can_write now none pkt from i in
        let (last, more) = receive_all now from es next in (last, sent ++ more)

    message-inbound :
        (now : ℕ) (random : Option (List ℕ)) (pkt : List ℕ) (from : UdpAddr) (hdr : Header) (r : ℕ)
        (host : HostInfo (aead.Cipher) Certificate) (i : Interface (aead.Cipher) (noise.State))
        → parse_header pkt ≡ ok hdr
        → (hdr.type == type_message) ≡ true
        → get_by_index hdr.remote_index i.hostmap ≡ some (r, host)
        → (consume_outside_packet hashes lib proto lights aead noise can_write now random pkt from
            i).0.fw.inbound
          ≡ i.fw.inbound
    unfolding dispatch handle_message
    message-inbound now random pkt from hdr r host i parsed message known =
        rw
          (parsed-dispatch hashes lib proto lights aead noise can_write now random pkt from hdr i
            parsed)
          (rw (dispatch, message)
            (rw (handle_message, known) (open_message-inbound aead now r host pkt hdr i)))

    -- The receiver after a packet of a session: it can read the next one.
    pub record Ready (sender host : HostInfo (aead.Cipher) Certificate) (r : ℕ)
        (i : Interface (aead.Cipher) (noise.State)) : Type 0 where
      pub known : get_by_index sender.remote_index i.hostmap ≡ some (r, host)
      pub keys : host.recv_cipher ≡ sender.send_cipher
      pub behind : host.replay.window_end ≤ sender.counter

    pub after_packet-Ready :
        (now : ℕ) (random : Option (List ℕ)) (from : UdpAddr)
        (sender host : HostInfo (aead.Cipher) Certificate) (r : ℕ) (pkt : List ℕ)
        (i : Interface (aead.Cipher) (noise.State))
        → sender.remote_index < 2 ^ 32
        → sender.counter + 1 < 2 ^ 64
        → Ready sender host r i
        → let after =
            (consume_outside_packet hashes lib proto lights aead noise can_write now random
              (message_packet aead sender pkt)
              from
              i).0 in
          (host' : HostInfo (aead.Cipher) Certificate) × Ready
            (record sender { counter = (sender.counter + 1) % 2 ^ 64 })
            host'
            r
            after
          × (host'.cert ≡ host.cert)
          × (after.fw.inbound ≡ i.fw.inbound)
    unfolding message_packet message_header
    after_packet-Ready now random from sender host r pkt i small room ready =
        let hdr = message_header aead sender in
        let body = encrypt aead sender.send_cipher hdr.message_counter (bytes hdr) pkt in
        let (parsed, _, _) =
          parse-packet hdr body (message_header-IsHeader aead sender small) refl (omega arith) in
        let n = (sender.counter + 1) % 2 ^ 64 in
        let above = check_replay-above host.replay n (omega (arith, ready.behind)) in
        let used : HostInfo (aead.Cipher) Certificate = record host {
          replay = (check_replay host.replay n).0;
        } in
        let stored =
          message-hostmap hashes lib proto lights aead noise can_write now random
            (message_packet aead sender pkt) from hdr r host i parsed refl ready.known in
        (
          used,
          record {
            known =
                subst (λ m. get_by_index sender.remote_index m ≡ some (r, used)) (sym stored)
                  (get_by_index-write_host sender.remote_index r host used i.hostmap ready.known);
            keys = ready.keys;
            behind = omega (arith, above.1);
          },
          refl,
          message-inbound now random (message_packet aead sender pkt) from hdr r host i parsed refl
              ready.known,
        )

    -- Packets that are sent one after the other through a session all reach the receiver's TUN
    -- device, unchanged, in order, and nothing else does, when they arrive in order. The receiver has
    -- the session under the index that the sender knows, with the sender's send cipher as its receive
    -- cipher and no newer counter in its window; every packet is IPv4 and an inbound rule lets it in;
    -- and the counters stay below 2^64.
    pub receive_all-send_pending :
        (now : ℕ) (from : UdpAddr) (q r : ℕ) (sender host : HostInfo (aead.Cipher) Certificate)
        (pkts : List (List ℕ)) (s i : Interface (aead.Cipher) (noise.State))
        → sender.remote_index < 2 ^ 32
        → sender.counter + length pkts < 2 ^ 64
        → get_by_index sender.remote_index i.hostmap ≡ some (r, host)
        → host.recv_cipher ≡ sender.send_cipher
        → host.replay.window_end ≤ sender.counter
        → All (Passes i.fw.inbound (groups_of host.cert)) pkts
        → (receive_all now from (send_pending aead q sender pkts s).1 i).1 ≡ map writes_tun pkts
    unfolding send_pending send_to_remote receive_all
    receive_all-send_pending now from q r sender host [] s i small room known keys behind all = refl
    receive_all-send_pending now from q r sender host (pkt ∷ pkts) s i small room known keys behind
          ((src, is_ipv4, matched), all) =
        let sent = (sender.counter + 1) % 2 ^ 64 in
        let fresh = check_replay-above host.replay sent (omega (arith, behind)) in
        let allowed =
          matching-allow_inbound now src (groups_of host.cert) (dst_port_from_ipv4 pkt)
            (proto_from_ipv4 pkt) i.fw matched in
        let first =
          consume_outside_packet-message_packet hashes lib proto lights aead noise can_write now
            none from r sender host pkt src i small known keys fresh.0 is_ipv4 allowed in
        let (host', ready, same_cert, same_rules) =
          after_packet-Ready now none from sender host r pkt i small (omega (arith, room))
            (record { known = known; keys = keys; behind = behind }) in
        let rest =
          receive_all-send_pending now from q r (record sender { counter = sent }) host' pkts
            (send_to_remote aead q sender pkt s).0
            ((consume_outside_packet hashes lib proto lights aead noise can_write now none
              (message_packet aead sender pkt) from i).0)
            small (omega (arith, room)) ready.known ready.keys ready.behind
            (subst (λ rules. All (Passes rules (groups_of host'.cert)) pkts) (sym same_rules)
              (subst (λ c. All (Passes i.fw.inbound (groups_of c)) pkts) (sym same_cert) all)) in
        rw first (rw rest refl)
