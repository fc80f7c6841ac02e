-- ===== src/Manager/Stages.antt =====
-- handshake_manager.go: StartHandshake, HandleStage0 and HandleStage1.
-- The time, the bytes of crypto/rand and whether the socket takes a datagram are arguments. A method
-- gives the manager, the datagrams that it hands to the socket, and its result.
use neth.Base.{
  ℕ, ◌+◌, ◌*◌, Bool, true, false, List, [], ◌∷◌, drop, length, Option, none, some, ltb, leb,
  if◌then◌else◌, Result, ok, err, ◌>>=◌, ◌>>◌, guard, or_err, map_err,
}
use neth.Base.Assoc.{lookup}
use neth.Net.{Addr, UdpAddr, addr_key}
use neth.Crypto.{Hashes}
use neth.Cert.{Certificate, Library, parse, verify}
use neth.Header.{header_len, handshake_initiation, handshake_response, parse as parse_header}
use neth.Handshake.{
  Protobuf, derive_pre_shared_key, build_initiator_message, build_responder_message,
  parse_handshake_message, parse_details, verify_hmac,
}
use neth.Noise.{Noise, new_initiator_state, new_responder_state}
use neth.Punchy.{Datagram}
use neth.Manager.{
  PendingHandshake, HandshakeManager, HandshakeError, initiator_state_failed,
  responder_state_failed, noise_write_failed, noise_read_failed, send_failed, message_failed,
  packet_too_short, header_failed, cert_parse_failed, cert_verify_failed, unknown_remote_index,
  find_index, enter, leave,
}
use neth.Manager.Packets.{
  Completed, Envelope, Reply, ciphers_from_states, marshal_handshake_packet, new_host, random_index,
}

-- `500 * time.Millisecond`, in nanoseconds.
abbrev pub retry_base : ℕ
retry_base = 500 * 1000000

module _ (hashes : Hashes) (lib : Library) (proto : Protobuf) where
  -- The steps that both stages start with: parse the message, its details and the certificate, verify
  -- the certificate against the pool at a time, and check the HMAC.
  unfoldable pub open_envelope : List Certificate → ℕ → List ℕ → Result HandshakeError Envelope
  open_envelope ca_pool now pkt = do
    msg ← map_err message_failed (parse_handshake_message proto (drop header_len pkt))
    details ← map_err message_failed (parse_details proto msg)
    sender ← map_err cert_parse_failed (parse lib details.cert)
    map_err cert_verify_failed (verify lib sender ca_pool now)
    map_err message_failed (verify_hmac hashes msg sender)
    ok (record { message = msg; details = details; sender = sender })

  -- buildHandshakePacket
  unfoldable pub build_handshake_packet :
      Certificate → List ℕ → ℕ → ℕ → ℕ → Result HandshakeError (List ℕ)
  build_handshake_packet local_cert noise_msg local_index subtype now = do
    msg ←
        map_err message_failed
          (build_initiator_message hashes lib proto local_cert noise_msg local_index now)
    marshal_handshake_packet proto msg 0 subtype

  module _ {Cipher : Type 0} (noise : Noise Cipher) (can_write : Datagram → Bool) where
    -- The body of StartHandshake up to the map writes.
    unfoldable pub new_pending :
        ℕ
        → Option (List ℕ)
        → Addr
        → UdpAddr
        → Certificate
        → HandshakeManager (noise.State)
        → Result HandshakeError (PendingHandshake (noise.State))
    new_pending now random remote_vpn_ip addr remote_cert m = do
      local_index ← random_index random
      hs ←
          or_err
            (new_initiator_state noise m.local_key remote_cert.x25519_public_key
              (derive_pre_shared_key hashes m.local_cert remote_cert))
            initiator_state_failed
      written ← or_err (noise.write_message hs) noise_write_failed
      wire ← build_handshake_packet m.local_cert written.1 local_index handshake_initiation now
      ok (record {
        state = written.0;
        local_index = local_index;
        remote_vpn_ip = remote_vpn_ip;
        remote_addr = addr;
        pending_packets = [];
        attempts = 1;
        next_retry = now + retry_base;
        stage0msg = wire;
      })

    -- StartHandshake
    unfoldable pub start_handshake :
        ℕ
        → Option (List ℕ)
        → Addr
        → UdpAddr
        → Certificate
        → HandshakeManager (noise.State)
        → HandshakeManager (noise.State) × List Datagram × Result HandshakeError (Unit {0})
    start_handshake now random remote_vpn_ip addr remote_cert m =
        elim (lookup remote_vpn_ip m.pending) [
          | some _ ↦ (m, [], ok tt)
          | none ↦ elim (new_pending now random remote_vpn_ip addr remote_cert m) [
            | err e ↦ (m, [], err e)
            | ok ph ↦
                let sent : Datagram = (ph.stage0msg, addr) in
                (enter remote_vpn_ip ph m, sent ∷ [], guard (can_write sent) send_failed)
          ]
        ]

    -- The body of HandleStage0 up to the reply.
    unfoldable pub stage0_reply :
        ℕ
        → Option (List ℕ)
        → List ℕ
        → HandshakeManager (noise.State)
        → Result HandshakeError (Reply (noise.CipherState))
    stage0_reply now random pkt m = do
      guard (leb header_len (length pkt)) (packet_too_short (length pkt))
      _ ← map_err header_failed (parse_header pkt)
      envelope ← open_envelope m.ca_pool now pkt
      hs ←
          or_err
            (new_responder_state noise m.local_key
              (derive_pre_shared_key hashes m.local_cert envelope.sender))
            responder_state_failed
      read ← or_err (noise.read_message hs envelope.message.noise_payload) noise_read_failed
      local_index ← random_index random
      written ← or_err (noise.write_message read.0) noise_write_failed
      msg ← map_err message_failed (
          build_responder_message hashes lib proto m.local_cert written.1
            envelope.details.initiator_index local_index now)
      bytes ← marshal_handshake_packet proto msg envelope.details.initiator_index handshake_response
      ok (record {
        bytes = bytes;
        states = written.2;
        sender = envelope.sender;
        local_index = local_index;
        initiator_index = envelope.details.initiator_index;
      })

    -- The rest of HandleStage0, after the reply.
    unfoldable pub stage0_completed :
        UdpAddr → Reply (noise.CipherState) → Result HandshakeError (Completed Cipher)
    stage0_completed from reply = do
      guard (can_write (reply.bytes, from)) send_failed
      ciphers ← ciphers_from_states noise reply.states false
      ok (record {
        host =
            new_host reply.sender.vpn_ip.addr from reply.local_index reply.initiator_index ciphers
              reply.sender;
        packets = [];
      })

    -- HandleStage0; it changes nothing of the manager.
    unfoldable pub handle_stage0 :
        ℕ
        → Option (List ℕ)
        → List ℕ
        → UdpAddr
        → HandshakeManager (noise.State)
        → List Datagram × Result HandshakeError (Completed Cipher)
    handle_stage0 now random pkt from m = elim (stage0_reply now random pkt m) [
      | err e ↦ ([], err e)
      | ok reply ↦ ((reply.bytes, from) ∷ [], stage0_completed from reply)
    ]

    -- The body of HandleStage1 after the pending handshake is taken out.
    unfoldable pub stage1_completed :
        List Certificate
        → ℕ
        → List ℕ
        → PendingHandshake (noise.State)
        → Result HandshakeError (Completed Cipher)
    stage1_completed ca_pool now pkt ph = do
      envelope ← open_envelope ca_pool now pkt
      read ← or_err (noise.read_message ph.state envelope.message.noise_payload) noise_read_failed
      ciphers ← ciphers_from_states noise read.1 true
      ok (record {
        host =
            new_host ph.remote_vpn_ip ph.remote_addr ph.local_index envelope.details.responder_index
              ciphers envelope.sender;
        packets = ph.pending_packets;
      })

    -- HandleStage1, once the header is parsed.
    unfoldable pub answer_stage1 :
        ℕ
        → List ℕ
        → ℕ
        → HandshakeManager (noise.State)
        → HandshakeManager (noise.State) × Result HandshakeError (Completed Cipher)
    answer_stage1 now pkt remote_index m = elim (find_index remote_index m) [
      | none ↦ (m, err (unknown_remote_index remote_index))
      | some (r, ph) ↦
          (leave ph.remote_vpn_ip remote_index m, stage1_completed m.ca_pool now pkt ph)
    ]

    -- HandleStage1
    unfoldable pub handle_stage1 :
        ℕ
        → List ℕ
        → HandshakeManager (noise.State)
        → HandshakeManager (noise.State) × Result HandshakeError (Completed Cipher)
    handle_stage1 now pkt m =
        if ltb (length pkt) header_len
        then (m, err (packet_too_short (length pkt)))
        else elim (parse_header pkt) [
          | err e ↦ (m, err (header_failed e))
          | ok h ↦ answer_stage1 now pkt h.remote_index m
        ]
