-- ===== src/Manager/Answers.antt =====
-- What StartHandshake and HandleStage0 have done when they succeed.
use neth.Replay.{new_window}
use neth.Base.{
  ℕ, ◌≡◌, refl, sym, ap, subst, ◌∙◌, arith, Option, some, Bool, true, false, List, [], ◌∷◌, length,
  ok, inl, inr, leb, nat_key, >>=-eq-ok, or_err, or_err-eq-ok, map_err, map_err-eq-ok, guard,
  ok_injective, Result-cases,
}
use neth.Net.{Addr, UdpAddr}
use neth.Crypto.{Hashes}
use neth.Cert.{Certificate, Library}
use neth.Header.{header_len, handshake_initiation, handshake_response, parse as parse_header}
use neth.Handshake.{
  HandshakeMessage, Protobuf, ProtobufRoundTrips, build_initiator_message, build_responder_message,
  derive_pre_shared_key,
}
use neth.Noise.{Noise, NoiseConfig, new_initiator_state, new_responder_state}
use neth.Punchy.{Datagram}
use neth.Manager.{
  PendingHandshake, HandshakeManager, message_failed, noise_read_failed, noise_write_failed,
  initiator_state_failed, responder_state_failed, send_failed, packet_too_short, header_failed,
}
use neth.Manager.Packets.{
  Completed, Envelope, Reply, random_index, marshal_handshake_packet, ciphers_from_states,
}
use neth.Manager.Stages.{
  build_handshake_packet, open_envelope, new_pending, stage0_reply, stage0_completed, handle_stage0,
}

module _ (hashes : Hashes) (lib : Library) (proto : Protobuf)
    (trips : ProtobufRoundTrips proto) where
  module _ {Cipher : Type 0} (noise : Noise Cipher) (can_write : Datagram → Bool) where
    -- What StartHandshake made: a state that wrote the message in the first packet.
    pub record IsStarted (a : HandshakeManager (noise.State)) (ph : PendingHandshake (noise.State))
        (start : ℕ) : Type 0 where
      pub mine : NoiseConfig
      pub fresh : noise.State
      pub first : List ℕ
      pub early : Option (noise.CipherState × noise.CipherState)
      pub message : HandshakeMessage
      pub is_initiator : mine.initiator ≡ true
      pub is_new : noise.new_handshake_state mine ≡ some fresh
      pub is_written : noise.write_message fresh ≡ some (ph.state, first, early)
      pub is_built :
          build_responder_message hashes lib proto a.local_cert first ph.local_index 0 start
          ≡ ok message
      pub is_packed :
          marshal_handshake_packet proto message 0 handshake_initiation ≡ ok ph.stage0msg

    pub new_pending-IsStarted :
        (start : ℕ) (random : Option (List ℕ)) (vpn_ip : Addr) (addr : UdpAddr) (cert : Certificate)
        (a : HandshakeManager (noise.State)) (ph : PendingHandshake (noise.State))
        → new_pending hashes lib proto noise can_write start random vpn_ip addr cert a ≡ ok ph
        → IsStarted a ph start
    unfolding new_pending new_initiator_state build_handshake_packet build_initiator_message
        build_responder_message
    new_pending-IsStarted start random vpn_ip addr cert a ph h =
        let psk = derive_pre_shared_key hashes a.local_cert cert in
        let (index, _, h1) = >>=-eq-ok (random_index random) _ h in
        let (s, made, h2) =
          >>=-eq-ok
            (or_err (new_initiator_state noise a.local_key cert.x25519_public_key psk)
              initiator_state_failed)
            _ h1 in
        let (written, wrote, h3) =
          >>=-eq-ok (or_err (noise.write_message s) noise_write_failed) _ h2 in
        let (wire, built, h4) =
          >>=-eq-ok
            (build_handshake_packet hashes lib proto a.local_cert written.1 index
              handshake_initiation start)
            _ h3 in
        let (msg, made_msg, h5) =
          >>=-eq-ok
            (map_err message_failed
              (build_initiator_message hashes lib proto a.local_cert written.1 index start))
            _ built in
        subst (λ (p : PendingHandshake (noise.State)). IsStarted a p start) (ok_injective h4)
          (record {
            mine = _;
            fresh = s;
            first = written.1;
            early = written.2;
            message = msg;
            is_initiator = refl;
            is_new =
                or_err-eq-ok (new_initiator_state noise a.local_key cert.x25519_public_key psk) _
                  made;
            is_written = or_err-eq-ok (noise.write_message s) noise_write_failed wrote;
            is_built = map_err-eq-ok message_failed _ made_msg;
            is_packed = h5;
          })

    -- What HandleStage0 made for a first packet: a state that read its message and wrote the reply's.
    pub record IsAnswered (b : HandshakeManager (noise.State)) (now : ℕ) (pkt : List ℕ)
        (reply : Reply (noise.CipherState)) : Type 0 where
      pub envelope : Envelope
      pub yours : NoiseConfig
      pub fresh : noise.State
      pub reads : noise.State
      pub early : Option (noise.CipherState × noise.CipherState)
      pub writes : noise.State
      pub second : List ℕ
      pub message : HandshakeMessage
      pub is_opened : open_envelope hashes lib proto b.ca_pool now pkt ≡ ok envelope
      pub is_responder : yours.initiator ≡ false
      pub is_new : noise.new_handshake_state yours ≡ some fresh
      pub is_read : noise.read_message fresh envelope.message.noise_payload ≡ some (reads, early)
      pub is_written : noise.write_message reads ≡ some (writes, second, reply.states)
      pub is_built :
          build_responder_message hashes lib proto b.local_cert second reply.initiator_index
            reply.local_index now
          ≡ ok message
      pub is_packed :
          marshal_handshake_packet proto message reply.initiator_index handshake_response
          ≡ ok reply.bytes
      pub is_index : reply.initiator_index ≡ envelope.details.initiator_index

    pub stage0_reply-IsAnswered :
        (now : ℕ) (random : Option (List ℕ)) (pkt : List ℕ) (b : HandshakeManager (noise.State))
        (reply : Reply (noise.CipherState))
        → stage0_reply hashes lib proto noise can_write now random pkt b ≡ ok reply
        → IsAnswered b now pkt reply
    unfolding stage0_reply new_responder_state
    stage0_reply-IsAnswered now random pkt b reply h =
        let (_, _, h1) =
          >>=-eq-ok (guard (leb header_len (length pkt)) (packet_too_short (length pkt))) _ h in
        let (_, _, h2) = >>=-eq-ok (map_err header_failed (parse_header pkt)) _ h1 in
        let (e, is_opened, h3) =
          >>=-eq-ok (open_envelope hashes lib proto b.ca_pool now pkt) _ h2 in
        let psk = derive_pre_shared_key hashes b.local_cert e.sender in
        let (t, made, h4) =
          >>=-eq-ok (or_err (new_responder_state noise b.local_key psk) responder_state_failed) _
            h3 in
        let (read, was_read, h5) =
          >>=-eq-ok (or_err (noise.read_message t e.message.noise_payload) noise_read_failed) _
            h4 in
        let (index, _, h6) = >>=-eq-ok (random_index random) _ h5 in
        let (written, wrote, h7) =
          >>=-eq-ok (or_err (noise.write_message read.0) noise_write_failed) _ h6 in
        let (msg, made_msg, h8) =
          >>=-eq-ok
            (map_err message_failed (
              build_responder_message hashes lib proto b.local_cert written.1
                e.details.initiator_index index now))
            _ h7 in
        let (bytes, packed, h9) =
          >>=-eq-ok
            (marshal_handshake_packet proto msg e.details.initiator_index handshake_response) _
            h8 in
        subst (IsAnswered b now pkt) (ok_injective h9) (record {
          envelope = e;
          yours = _;
          fresh = t;
          reads = read.0;
          early = read.1;
          writes = written.0;
          second = written.1;
          message = msg;
          is_opened = is_opened;
          is_responder = refl;
          is_new = or_err-eq-ok (new_responder_state noise b.local_key psk) _ made;
          is_read = or_err-eq-ok (noise.read_message t e.message.noise_payload) _ was_read;
          is_written = or_err-eq-ok (noise.write_message read.0) _ wrote;
          is_built = map_err-eq-ok message_failed _ made_msg;
          is_packed = packed;
          is_index = refl;
        })

    pub handle_stage0-parts :
        (now : ℕ) (random : Option (List ℕ)) (pkt : List ℕ) (from : UdpAddr)
        (b : HandshakeManager (noise.State)) (c : Completed Cipher)
        → (handle_stage0 hashes lib proto noise can_write now random pkt from b).1 ≡ ok c
        → (reply : Reply (noise.CipherState)) × (stage0_reply hashes lib proto noise can_write now
              random pkt b
            ≡ ok reply)
          × ((handle_stage0 hashes lib proto noise can_write now random pkt from b).0
              ≡ (reply.bytes, from) ∷ [])
          × (ciphers_from_states noise reply.states false
              ≡ ok (c.host.send_cipher, c.host.recv_cipher))
          × (c.host.index ≡ reply.local_index)
          × (c.host.remote_index ≡ reply.initiator_index)
    unfolding handle_stage0 stage0_completed
    handle_stage0-parts now random pkt from b c h =
        elim (Result-cases (stage0_reply hashes lib proto noise can_write now random pkt b)) [
          | inl (bad, failed) ↦ absurd (ground (arith, failed, h))
          | inr (reply, made) ↦
              let completed : stage0_completed hashes lib proto noise can_write from reply ≡ ok c =
                ground (arith, made, h) in
              let (_, _, h1) =
                >>=-eq-ok (guard (can_write (reply.bytes, from)) send_failed) _ completed in
              let (ciphers, split, h2) =
                >>=-eq-ok (ciphers_from_states noise reply.states false) _ h1 in
              let done = sym (ok_injective h2) in
              (
                reply,
                made,
                rw (handle_stage0, made) refl,
                split
                    ∙ ap (λ (x : Completed Cipher). ok (x.host.send_cipher, x.host.recv_cipher))
                        (sym done),
                ap (λ (x : Completed Cipher). x.host.index) done,
                ap (λ (x : Completed Cipher). x.host.remote_index) done,
              )
        ]

    -- The responder's session is new, and has no packets.
    pub handle_stage0-new :
        (now : ℕ) (random : Option (List ℕ)) (pkt : List ℕ) (from : UdpAddr)
        (b : HandshakeManager (noise.State)) (c : Completed Cipher)
        → (handle_stage0 hashes lib proto noise can_write now random pkt from b).1 ≡ ok c
        → (c.host.replay ≡ new_window) × (c.packets ≡ [])
    unfolding handle_stage0 stage0_completed
    handle_stage0-new now random pkt from b c h =
        elim (Result-cases (stage0_reply hashes lib proto noise can_write now random pkt b)) [
          | inl (bad, failed) ↦ absurd (ground (arith, failed, h))
          | inr (reply, made) ↦
              let completed : stage0_completed hashes lib proto noise can_write from reply ≡ ok c =
                ground (arith, made, h) in
              let (_, _, h1) =
                >>=-eq-ok (guard (can_write (reply.bytes, from)) send_failed) _ completed in
              let (ciphers, _, h2) =
                >>=-eq-ok (ciphers_from_states noise reply.states false) _ h1 in
              let done = sym (ok_injective h2) in
              (
                ap (λ (x : Completed Cipher). x.host.replay) done,
                ap (λ (x : Completed Cipher). x.packets) done,
              )
        ]
