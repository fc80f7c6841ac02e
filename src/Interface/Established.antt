-- ===== src/Interface/Established.antt =====
-- From a handshake to the packets that waited for it.
use neth.Base.{
  ℕ, ◌<◌, ◌^◌, ◌≡◌, refl, sym, subst, ◌∙◌, arith, Bool, List, [], ◌∷◌, map, length, Option, none,
  some, ok, All,
}
use neth.Net.{Addr, UdpAddr}
use neth.Crypto.{Aead, Hashes}
use neth.Cert.{Certificate, pem, parse, verify}
use neth.Cert as Certs
use neth.HostMap.{HostInfo, add, get_by_index}
use neth.HostMap.Laws.{IsHostMap, get-add}
use neth.Handshake.{Protobuf, ProtobufRoundTrips}
use neth.Noise.{Noise}
use neth.Punchy.{Datagram}
use neth.LightHouse as Lights
use neth.Manager.{PendingHandshake, HandshakeManager, find_index}
use neth.Manager.Packets.{Completed, new_host}
use neth.Manager.Stages.{new_pending, handle_stage0, handle_stage1}
use neth.Manager.Answers.{handle_stage0-new}
use neth.Manager.Mirror.{Completes, handle_stage1-handle_stage0}
use neth.Interface.{
  Interface, writes_tun, groups_of, complete, on_handshake_complete, send_pending, add_peer_cert,
}
use neth.Interface.Stream.{Passes, receive_all, receive_all-send_pending}

module _ (aead : Aead) {State : Type 0} where
  peer_cert-keeps :
      (vpn_ip : Addr) (cert : Option Certificate) (i : Interface (aead.Cipher) State)
      → let after : Interface (aead.Cipher) State = elim cert [
        | none ↦ i
        | some x ↦ add_peer_cert vpn_ip x i
      ] in
        (after.hostmap ≡ i.hostmap) × (after.fw ≡ i.fw)
  unfolding add_peer_cert
  peer_cert-keeps vpn_ip none i = (refl, refl)
  peer_cert-keeps vpn_ip (some x) i = (refl, refl)

  -- A session without packets is only registered.
  complete-registers :
      (c : Completed (aead.Cipher)) (i : Interface (aead.Cipher) State)
      → c.packets ≡ []
      → ((on_handshake_complete aead c i).0.hostmap ≡ add c.host i.hostmap)
        × ((on_handshake_complete aead c i).0.fw ≡ i.fw)
  unfolding on_handshake_complete send_pending
  complete-registers c i empty =
      rw (on_handshake_complete, empty)
        (peer_cert-keeps c.host.vpn_ip c.host.cert (record i { hostmap = add c.host i.hostmap }))

module _ (hashes : Hashes) (lib : Certs.Library) (proto : Protobuf) (lights : Lights.Library) where
  module _ (aead : Aead) (noise : Noise (aead.Cipher)) (can_write : Datagram → Bool) where
    -- The packets that waited for a handshake reach the responder's TUN device. `StartHandshake` makes
    -- a first packet and the responder's `HandleStage0` accepts it, which registers the session; its
    -- one datagram completes the handshake at the initiator, where it is still pending with the state
    -- that wrote the first packet; and what the initiator then sends makes the responder write the
    -- waiting packets to its TUN device, unchanged, in order, and nothing else, when it arrives in
    -- order. The responder's certificate parses from its PEM form and the initiator's pool verifies it;
    -- the two indices have 32 bits; the responder's registry is consistent; and every waiting packet is
    -- IPv4 and let in by an inbound rule of the responder. Marshalled messages are taken to unmarshal,
    -- and a Noise handshake to complete on both sides with the same cipher states.
    pub receive_all-handle_stage1 :
        ProtobufRoundTrips proto
        → Completes noise
        → (start now later arrival : ℕ) (random random' : Option (List ℕ)) (vpn_ip : Addr)
          (addr from source : UdpAddr) (cert : Certificate) (a b m : HandshakeManager (noise.State))
          (r : ℕ) (ph waiting : PendingHandshake (noise.State)) (c : Completed (aead.Cipher))
          (initiator responder : Interface (aead.Cipher) (noise.State))
        → new_pending hashes lib proto noise can_write start random vpn_ip addr cert a ≡ ok ph
        → ph.local_index < 2 ^ 32
        → (handle_stage0 hashes lib proto noise can_write now random' ph.stage0msg from b).1 ≡ ok c
        → c.host.index < 2 ^ 32
        → find_index ph.local_index m ≡ some (r, waiting)
        → waiting.state ≡ ph.state
        → parse lib (pem lib b.local_cert) ≡ ok b.local_cert
        → verify lib b.local_cert m.ca_pool later ≡ ok tt
        → IsHostMap responder.hostmap
        → length waiting.pending_packets < 2 ^ 64
        → All (Passes responder.fw.inbound (groups_of c.host.cert)) waiting.pending_packets
        → (bytes : List ℕ) × ((handle_stage0 hashes lib proto noise can_write now random'
              ph.stage0msg from b).0
            ≡ (bytes, from) ∷ [])
          × ((receive_all hashes lib proto lights aead noise can_write arrival source
                (complete aead
                  (handle_stage1 hashes lib proto noise can_write later bytes m).1
                  initiator).1
                (on_handshake_complete aead c responder).0).1
              ≡ map writes_tun waiting.pending_packets)
    unfolding complete on_handshake_complete
    receive_all-handle_stage1 trips agree start now later arrival random random' vpn_ip addr from
          source cert a b m r ph waiting c initiator responder started small accepted small' found
          same_state parsed verified valid room all =
        let (bytes, sent, completed, _) =
          handle_stage1-handle_stage0 hashes lib proto trips noise can_write agree start now later
            random random' vpn_ip addr from cert a b m r ph waiting c started small accepted found
            same_state parsed verified in
        let (new, empty) =
          handle_stage0-new hashes lib proto trips noise can_write now random' ph.stage0msg from b c
            accepted in
        let (stored, same_fw) = complete-registers aead c responder empty in
        let ready = (on_handshake_complete aead c responder).0 in
        let sender : HostInfo (aead.Cipher) Certificate =
          new_host waiting.remote_vpn_ip waiting.remote_addr waiting.local_index c.host.index
            (c.host.recv_cipher, c.host.send_cipher) b.local_cert in
        let known : get_by_index c.host.index ready.hostmap
            ≡ some (responder.hostmap.next_ref, c.host) =
          subst (λ h. get_by_index c.host.index h ≡ some (responder.hostmap.next_ref, c.host))
            (sym stored)
            ((get-add c.host responder.hostmap c.host.vpn_ip c.host.index valid).1
              ∙ ground arith) in
        let delivered =
          receive_all-send_pending hashes lib proto lights aead noise can_write arrival source
            initiator.hostmap.next_ref responder.hostmap.next_ref sender c.host
            waiting.pending_packets _ ready small' (omega (arith, room)) known refl
            (rw new (omega arith))
            (subst (λ f. All (Passes f.inbound (groups_of c.host.cert)) waiting.pending_packets)
              (sym same_fw) all) in
        (bytes, sent, rw completed delivered)
