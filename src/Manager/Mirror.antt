-- ===== src/Manager/Mirror.antt =====
-- A handshake between two nodes, from StartHandshake through HandleStage0 to HandleStage1.
use neth.Base.{
  ℕ, ◌≤◌, ◌<◌, ◌^◌, ◌≡◌, refl, sym, ap, subst, ◌∙◌, arith, Option, none, some, Bool, true, false,
  List, [], ◌∷◌, length, ok, nat_key,
}
use neth.Net.{Addr, UdpAddr}
use neth.Crypto.{Hashes}
use neth.Cert.{Certificate, Library, pem, parse, verify}
use neth.Header.{
  Header, header_len, handshake_initiation, handshake_response, parse as parse_header,
}
use neth.Handshake.{
  HandshakeMessage, HandshakeDetails, Protobuf, ProtobufRoundTrips, build_responder_message,
}
use neth.Noise.{Noise, NoiseConfig}
use neth.Punchy.{Datagram}
use neth.Manager.{PendingHandshake, HandshakeManager, find_index}
use neth.Manager.Packets.{Completed, new_host, marshal_handshake_packet, ciphers_from_states}
use neth.Manager.Stages.{new_pending, handle_stage0, stage1_completed, answer_stage1, handle_stage1}
use neth.Manager.Sessions.{handle_stage1-parsed}
use neth.Manager.Messages.{handshake_header, marshalled, payload_of, opened, open_envelope-built}
use neth.Manager.Answers.{new_pending-IsStarted, stage0_reply-IsAnswered, handle_stage0-parts}

-- What flynn/noise gives for the pattern IK: once the responder has read the initiator's message and
-- written its own, the initiator reads that one, and both have the same two cipher states.
pub record Completes {Cipher : Type 0} (noise : Noise Cipher) : Type 0 where
  pub completes :
      (mine yours : NoiseConfig) (s s1 t t1 u : noise.State) (first second : List ℕ)
      (early early' : Option (noise.CipherState × noise.CipherState))
      (states : Option (noise.CipherState × noise.CipherState))
      → mine.initiator ≡ true
      → yours.initiator ≡ false
      → noise.new_handshake_state mine ≡ some s
      → noise.new_handshake_state yours ≡ some t
      → noise.write_message s ≡ some (s1, first, early)
      → noise.read_message t first ≡ some (t1, early')
      → noise.write_message t1 ≡ some (u, second, states)
      → (s2 : noise.State) × (noise.read_message s1 second ≡ some (s2, states))

module _ (hashes : Hashes) (lib : Library) (proto : Protobuf)
    (trips : ProtobufRoundTrips proto) where
  module _ {Cipher : Type 0} (noise : Noise Cipher) (can_write : Datagram → Bool) where
    -- The response is accepted by a handshake that still has the state of the first packet.
    stage1_completed-built :
        (b : HandshakeManager (noise.State)) (now later index responder : ℕ) (bytes second : List ℕ)
        (msg : HandshakeMessage) (pool : List Certificate)
        (waiting : PendingHandshake (noise.State)) (s2 : noise.State)
        (states : Option (noise.CipherState × noise.CipherState)) (send recv : Cipher)
        → build_responder_message hashes lib proto b.local_cert second index responder now ≡ ok msg
        → marshal_handshake_packet proto msg index handshake_response ≡ ok bytes
        → index < 2 ^ 32
        → parse lib (pem lib b.local_cert) ≡ ok b.local_cert
        → verify lib b.local_cert pool later ≡ ok tt
        → noise.read_message waiting.state second ≡ some (s2, states)
        → ciphers_from_states noise states true ≡ ok (send, recv)
        → stage1_completed hashes lib proto noise can_write pool later bytes waiting
          ≡ ok (record {
            host =
                new_host waiting.remote_vpn_ip waiting.remote_addr waiting.local_index responder
                  (send, recv)
                  b.local_cert;
            packets = waiting.pending_packets;
          })
    unfolding stage1_completed
    stage1_completed-built b now later index responder bytes second msg pool waiting s2 states send
          recv built packed small parsed verified read split =
        let is_open =
          open_envelope-built hashes lib proto trips b.local_cert second index responder now index
            handshake_response later msg bytes pool built packed small (omega arith) parsed
            verified in
        let payload =
          payload_of hashes lib proto trips b.local_cert second index responder now msg built in
        rw (stage1_completed, is_open) (rw payload (rw read (rw split refl)))

    ciphers_from_states-initiator :
        (states : Option (noise.CipherState × noise.CipherState)) (send recv : Cipher)
        → ciphers_from_states noise states false ≡ ok (send, recv)
        → ciphers_from_states noise states true ≡ ok (recv, send)
    unfolding ciphers_from_states
    ciphers_from_states-initiator none send recv h = cc
    ciphers_from_states-initiator (some (cs1, cs2)) send recv h = ground (arith, h)

    answer_stage1-found :
        (later : ℕ) (pkt : List ℕ) (h : Header) (m : HandshakeManager (noise.State)) (r : ℕ)
        (waiting : PendingHandshake (noise.State))
        → header_len ≤ length pkt
        → parse_header pkt ≡ ok h
        → find_index h.remote_index m ≡ some (r, waiting)
        → (handle_stage1 hashes lib proto noise can_write later pkt m).1
          ≡ stage1_completed hashes lib proto noise can_write m.ca_pool later pkt waiting
    unfolding answer_stage1
    answer_stage1-found later pkt h m r waiting long parsed found =
        ap (λ p. p.1)
          (handle_stage1-parsed hashes lib proto noise can_write later pkt h m long parsed)
        ∙ rw (answer_stage1, found) refl

    -- A handshake between two nodes completes with two ends of one session. `StartHandshake` makes a
    -- first packet, and a node's `HandleStage0` accepts it; then the one datagram that it sends is
    -- accepted by `HandleStage1` of every manager in which the handshake is still pending under its
    -- index, with the state that wrote the first packet, when the responder's certificate parses from
    -- its PEM form and the CA pool verifies it. Each side sends with the cipher that the other receives
    -- with, and knows the other's index; the initiator has the responder's certificate and its queued
    -- packets. The first packet's index has 32 bits; marshalled messages are taken to unmarshal, and a
    -- Noise handshake to complete on both sides with the same cipher states.
    pub handle_stage1-handle_stage0 :
        Completes noise
        → (start now later : ℕ) (random random' : Option (List ℕ)) (vpn_ip : Addr)
          (addr from : UdpAddr) (cert : Certificate) (a b m : HandshakeManager (noise.State))
          (r : ℕ) (ph waiting : PendingHandshake (noise.State)) (c : Completed Cipher)
        → new_pending hashes lib proto noise can_write start random vpn_ip addr cert a ≡ ok ph
        → ph.local_index < 2 ^ 32
        → (handle_stage0 hashes lib proto noise can_write now random' ph.stage0msg from b).1 ≡ ok c
        → find_index ph.local_index m ≡ some (r, waiting)
        → waiting.state ≡ ph.state
        → parse lib (pem lib b.local_cert) ≡ ok b.local_cert
        → verify lib b.local_cert m.ca_pool later ≡ ok tt
        → (bytes : List ℕ) × ((handle_stage0 hashes lib proto noise can_write now random'
              ph.stage0msg from b).0
            ≡ (bytes, from) ∷ [])
          × ((handle_stage1 hashes lib proto noise can_write later bytes m).1
              ≡ ok (record {
                host =
                    new_host waiting.remote_vpn_ip waiting.remote_addr waiting.local_index
                      c.host.index
                      (c.host.recv_cipher, c.host.send_cipher)
                      b.local_cert;
                packets = waiting.pending_packets;
              }))
          × (c.host.remote_index ≡ ph.local_index)
    handle_stage1-handle_stage0 agree start now later random random' vpn_ip addr from cert a b m r
          ph waiting c started small accepted found same_state parsed verified =
        let first =
          new_pending-IsStarted hashes lib proto trips noise can_write start random vpn_ip addr cert
            a ph started in
        let (reply, replied, sent, split, index, remote) =
          handle_stage0-parts hashes lib proto trips noise can_write now random' ph.stage0msg from b
            c accepted in
        let answer =
          stage0_reply-IsAnswered hashes lib proto trips noise can_write now random' ph.stage0msg b
            reply replied in
        let (details, payload) =
          opened hashes lib proto trips a.local_cert first.first ph.local_index 0 start 0
            handshake_initiation now first.message ph.stage0msg b.ca_pool answer.envelope
            first.is_built first.is_packed (omega arith) (omega arith) answer.is_opened in
        let back : reply.initiator_index ≡ ph.local_index =
          answer.is_index ∙ ap (λ (d : HandshakeDetails). d.initiator_index) details in
        let fits : reply.initiator_index < 2 ^ 32 = omega (arith, back, small) in
        let (s2, read) =
          agree.completes first.mine answer.yours first.fresh ph.state answer.fresh answer.reads
            answer.writes first.first answer.second first.early answer.early reply.states
            first.is_initiator answer.is_responder first.is_new answer.is_new first.is_written
            (ap (noise.read_message answer.fresh) (sym payload) ∙ answer.is_read)
            answer.is_written in
        let (response, _, long) =
          marshalled hashes lib proto trips answer.message reply.initiator_index handshake_response
            reply.bytes fits (omega arith) answer.is_packed in
        let done =
          stage1_completed-built b now later reply.initiator_index reply.local_index reply.bytes
            answer.second answer.message m.ca_pool waiting s2 reply.states c.host.recv_cipher
            c.host.send_cipher answer.is_built answer.is_packed fits parsed verified
            (ap (λ s. noise.read_message s answer.second) same_state ∙ read)
            (ciphers_from_states-initiator reply.states c.host.send_cipher c.host.recv_cipher
              split) in
        let there =
          answer_stage1-found later reply.bytes
            (handshake_header reply.initiator_index handshake_response) m r waiting long response
            (ap (λ n. find_index n m) back ∙ found) in
        (
          reply.bytes,
          sent,
          subst
              (λ n.
                (handle_stage1 hashes lib proto noise can_write later reply.bytes m).1
                ≡ ok (record {
                  host =
                      new_host waiting.remote_vpn_ip waiting.remote_addr waiting.local_index n
                        (c.host.recv_cipher, c.host.send_cipher) b.local_cert;
                  packets = waiting.pending_packets;
                }))
              (sym index) (there ∙ done),
          remote ∙ back,
        )
