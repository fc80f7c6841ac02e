-- ===== src/Manager/Messages.antt =====
-- Handshake packets: what a packet with a built message is read as.
use neth.Base.{
  ℕ, ◌≤◌, ◌<◌, ◌^◌, ◌≡◌, refl, sym, ap, subst, ◌∙◌, arith, List, drop, length, ok, nat_key,
  >>=-eq-ok, or_err, or_err-eq-ok, ok_injective,
}
use neth.Crypto.{Hashes}
use neth.Cert.{Certificate, Library, pem, parse, verify}
use neth.Header.{Header, header_len, version, type_handshake, parse as parse_header}
use neth.Header.Laws.{parse-packet, length-packet}
use neth.Handshake.{
  HandshakeMessage, HandshakeDetails, Protobuf, ProtobufRoundTrips, build_responder_message,
  parse_handshake_message, parse_details, marshal_details_failed,
}
use neth.Handshake.Laws.{verify_hmac-build_responder_message}
use neth.Manager.{marshal_failed}
use neth.Manager.Packets.{Envelope, marshal_handshake_packet}
use neth.Manager.Stages.{open_envelope}

-- The header of a handshake packet.
abbrev pub handshake_header : ℕ → ℕ → Header
handshake_header index subtype = record {
  version = version;
  type = type_handshake;
  sub_type = subtype;
  remote_index = index;
  message_counter = 0;
}

module _ (hashes : Hashes) (lib : Library) (proto : Protobuf)
    (trips : ProtobufRoundTrips proto) where
  -- A packet that was marshalled has its header and its message.
  pub marshalled :
      (msg : HandshakeMessage) (index subtype : ℕ) (bytes : List ℕ)
      → index < 2 ^ 32
      → subtype < 256
      → marshal_handshake_packet proto msg index subtype ≡ ok bytes
      → (parse_header bytes ≡ ok (handshake_header index subtype))
        × (parse_handshake_message proto (drop header_len bytes) ≡ ok msg)
        × (header_len ≤ length bytes)
  unfolding marshal_handshake_packet parse_handshake_message
  marshalled msg index subtype bytes small small' h =
      let (body, there, same) = >>=-eq-ok (or_err (proto.marshal_message msg) marshal_failed) _ h in
      let back =
        trips.message msg body (or_err-eq-ok (proto.marshal_message msg) marshal_failed there) in
      let hdr = handshake_header index subtype in
      let (parsed, dropped, _) =
        parse-packet hdr body
          (record {
            version_fits = omega arith;
            type_fits = omega arith;
            sub_type_fits = small';
            index_fits = small;
            counter_fits = omega arith;
          })
          refl (omega arith) in
      subst
        (λ (b : List ℕ).
          (parse_header b ≡ ok hdr)
          × (parse_handshake_message proto (drop header_len b) ≡ ok msg)
          × (header_len ≤ length b))
        (ok_injective same)
        (
          parsed,
          rw (dropped, parse_handshake_message) (rw back refl),
          omega (arith, length-packet hdr body),
        )

  -- What the details of a built message say.
  abbrev pub details_of : Certificate → ℕ → ℕ → ℕ → HandshakeDetails
  details_of cert i r now = record {
    cert = pem lib cert;
    initiator_index = i;
    responder_index = r;
    time = now;
  }

  pub payload_of :
      (cert : Certificate) (payload : List ℕ) (i r now : ℕ) (msg : HandshakeMessage)
      → build_responder_message hashes lib proto cert payload i r now ≡ ok msg
      → msg.noise_payload ≡ payload
  unfolding build_responder_message
  payload_of cert payload i r now msg h =
      let (details, _, same) =
        >>=-eq-ok (or_err (proto.marshal_details (details_of cert i r now)) marshal_details_failed)
          _ h in
      ap (λ (m : HandshakeMessage). m.noise_payload) (sym (ok_injective same))

  open_envelope-parses :
      (pool : List Certificate) (now : ℕ) (pkt : List ℕ) (e : Envelope)
      → open_envelope hashes lib proto pool now pkt ≡ ok e
      → (parse_handshake_message proto (drop header_len pkt) ≡ ok e.message)
        × (parse_details proto e.message ≡ ok e.details)
  unfolding open_envelope
  open_envelope-parses pool now pkt e h = ground (arith, h)

  -- What is opened of a packet with a built message.
  pub opened :
      (cert : Certificate) (payload : List ℕ) (i r now index subtype later : ℕ)
      (msg : HandshakeMessage) (bytes : List ℕ) (pool : List Certificate) (e : Envelope)
      → build_responder_message hashes lib proto cert payload i r now ≡ ok msg
      → marshal_handshake_packet proto msg index subtype ≡ ok bytes
      → index < 2 ^ 32
      → subtype < 256
      → open_envelope hashes lib proto pool later bytes ≡ ok e
      → (e.details ≡ details_of cert i r now) × (e.message.noise_payload ≡ payload)
  opened cert payload i r now index subtype later msg bytes pool e built packed small small' h =
      let (_, readable, _) = marshalled msg index subtype bytes small small' packed in
      let (_, detailed) =
        verify_hmac-build_responder_message hashes lib proto trips cert payload i r now msg built in
      let (is_msg, is_details) = open_envelope-parses pool later bytes e h in
      let same : e.message ≡ msg = ok_injective (sym is_msg ∙ readable) in
      (
        ok_injective (sym is_details ∙ ap (parse_details proto) same ∙ detailed),
        ap (λ (m : HandshakeMessage). m.noise_payload) same
            ∙ payload_of cert payload i r now msg built,
      )

  -- A packet with a built message opens when its certificate parses and verifies.
  pub open_envelope-built :
      (cert : Certificate) (payload : List ℕ) (i r now index subtype later : ℕ)
      (msg : HandshakeMessage) (bytes : List ℕ) (pool : List Certificate)
      → build_responder_message hashes lib proto cert payload i r now ≡ ok msg
      → marshal_handshake_packet proto msg index subtype ≡ ok bytes
      → index < 2 ^ 32
      → subtype < 256
      → parse lib (pem lib cert) ≡ ok cert
      → verify lib cert pool later ≡ ok tt
      → open_envelope hashes lib proto pool later bytes
        ≡ ok (record { message = msg; details = details_of cert i r now; sender = cert })
  unfolding open_envelope
  open_envelope-built cert payload i r now index subtype later msg bytes pool built packed small
        small' parsed verified =
      let (_, readable, _) = marshalled msg index subtype bytes small small' packed in
      let (authentic, detailed) =
        verify_hmac-build_responder_message hashes lib proto trips cert payload i r now msg built in
      rw (open_envelope, readable) (rw detailed (rw parsed (rw verified (rw authentic refl))))
