-- ===== src/Handshake/Laws.antt =====
-- handshake/handshake.go: the pre-shared key of two peers, and built messages.
use neth.Base.{
  ℕ, zero, suc, ◌+◌, ◌/◌, ◌≤◌, ◌≡◌, refl, subst, ◌∙◌, bit_xor, arith, List, length, length-set,
  length-replicate, get_or, replicate, ok, >>=-eq-ok, ok_injective, or_err, or_err-eq-ok, bytes_key,
  =?_refl,
}
use neth.Bits.Step.{bit_xor_step}
use neth.Crypto.{Hashes}
use neth.Cert.{Certificate, Library, pem, fingerprint}
use neth.Handshake.{
  HandshakeMessage, HandshakeDetails, Protobuf, ProtobufRoundTrips, marshal_details_failed,
  xor_bytes, derive_pre_shared_key, mac_of, verify_hmac, build_responder_message, parse_details,
}

-- By the recursion on digits, on fuel that both numbers fit.
xor_comm_below : (n a b : ℕ) → a ≤ n → b ≤ n → bit_xor a b ≡ bit_xor b a
xor_comm_below zero zero zero p q = refl
xor_comm_below zero (suc a) b p q = absurd (omega arith)
xor_comm_below zero zero (suc b) p q = absurd (omega arith)
xor_comm_below (suc n) a b p q = omega (
  arith,
  bit_xor_step a b,
  bit_xor_step b a,
  xor_comm_below n (a / 2) (b / 2) (omega arith) (omega arith),
)

pub bit_xor_comm : (a b : ℕ) → bit_xor a b ≡ bit_xor b a
bit_xor_comm a b = xor_comm_below (a + b) a b (omega arith) (omega arith)

xor_bytes_comm : (n : ℕ) (lf rf psk : List ℕ) → xor_bytes n lf rf psk ≡ xor_bytes n rf lf psk
unfolding xor_bytes
xor_bytes_comm zero lf rf psk = refl
xor_bytes_comm (suc n) lf rf psk =
    rw (xor_bytes_comm n lf rf psk, bit_xor_comm (get_or lf n 0) (get_or rf n 0)) refl

length-xor_bytes : (n : ℕ) (lf rf psk : List ℕ) → length (xor_bytes n lf rf psk) ≡ length psk
unfolding xor_bytes
length-xor_bytes zero lf rf psk = refl
length-xor_bytes (suc n) lf rf psk =
    length-set (xor_bytes n lf rf psk) n (bit_xor (get_or lf n 0) (get_or rf n 0))
    ∙ length-xor_bytes n lf rf psk

module _ (hashes : Hashes) where
  -- Both peers derive the same pre-shared key from their two certificates, and it has 32 bytes.
  pub derive_pre_shared_key_comm :
      (local remote : Certificate)
      → (derive_pre_shared_key hashes local remote ≡ derive_pre_shared_key hashes remote local)
        × (length (derive_pre_shared_key hashes local remote) ≡ 32)
  unfolding derive_pre_shared_key
  derive_pre_shared_key_comm local remote =
      let lf = fingerprint hashes local in
      let rf = fingerprint hashes remote in
      (
        xor_bytes_comm 32 lf rf (replicate 32 0),
        length-xor_bytes 32 lf rf (replicate 32 0) ∙ length-replicate {A = ℕ} 32 0,
      )

  module _ (lib : Library) (proto : Protobuf) (trips : ProtobufRoundTrips proto) where
    -- A message that `BuildResponderMessage` gives passes `VerifyHMAC` under the certificate it was
    -- built with, and its details parse to that certificate in PEM form, the two indices and the time.
    pub verify_hmac-build_responder_message :
        (cert : Certificate) (payload : List ℕ) (initiator responder now : ℕ)
        (msg : HandshakeMessage)
        → build_responder_message hashes lib proto cert payload initiator responder now ≡ ok msg
        → (verify_hmac hashes msg cert ≡ ok tt)
          × (parse_details proto msg
              ≡ ok (record {
                cert = pem lib cert;
                initiator_index = initiator;
                responder_index = responder;
                time = now;
              }))
    unfolding build_responder_message verify_hmac parse_details
    verify_hmac-build_responder_message cert payload initiator responder now msg h =
        let wanted : HandshakeDetails = record {
          cert = pem lib cert;
          initiator_index = initiator;
          responder_index = responder;
          time = now;
        } in
        let (details, there, same) =
          >>=-eq-ok (or_err (proto.marshal_details wanted) marshal_details_failed) _ h in
        let marshalled = or_err-eq-ok (proto.marshal_details wanted) marshal_details_failed there in
        let back = trips.details wanted details marshalled in
        let mac = mac_of hashes cert details payload in
        let built : HandshakeMessage = record {
          details = details;
          noise_payload = payload;
          hmac = mac;
        } in
        let is_msg : built ≡ msg = ok_injective same in
        (
          subst (λ m. verify_hmac hashes m cert ≡ ok tt) is_msg
              (rw (verify_hmac, =?_refl mac) refl),
          subst (λ m. parse_details proto m ≡ ok wanted) is_msg (rw (parse_details, back) refl),
        )
