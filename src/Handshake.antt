-- ===== src/Handshake.antt =====
-- handshake/handshake.go: the pre-shared key of two certificates, and the handshake messages.
-- protobuf is a parameter; the hash and the HMAC come from `Hashes`.
pub mod Laws
use neth.Base.{
  ℕ, zero, suc, bit_xor, ◌≡◌, List, [], ◌∷◌, ◌++◌, Option, none, some, set, get_or, replicate,
  bytes_key, ◌=?◌, Result, ok, err, ◌>>=◌, guard, or_err,
}
use neth.Crypto.{Hashes}
use neth.Cert.{Certificate, Library, pem, fingerprint}

-- nethpb.HandshakeMessage
pub record HandshakeMessage : Type 0 where
  pub details : List ℕ
  pub noise_payload : List ℕ
  pub hmac : List ℕ

-- nethpb.HandshakeDetails
pub record HandshakeDetails : Type 0 where
  pub cert : List ℕ
  pub initiator_index : ℕ
  pub responder_index : ℕ
  pub time : ℕ

-- proto.Marshal and proto.Unmarshal of the two messages.
pub record Protobuf : Type 0 where
  pub marshal_details : HandshakeDetails → Option (List ℕ)
  pub unmarshal_details : List ℕ → Option HandshakeDetails
  pub marshal_message : HandshakeMessage → Option (List ℕ)
  pub unmarshal_message : List ℕ → Option HandshakeMessage

-- What is marshalled is unmarshalled.
pub record ProtobufRoundTrips (proto : Protobuf) : Type 0 where
  pub details :
      (d : HandshakeDetails) (raw : List ℕ)
      → proto.marshal_details d ≡ some raw
      → proto.unmarshal_details raw ≡ some d
  pub message :
      (m : HandshakeMessage) (raw : List ℕ)
      → proto.marshal_message m ≡ some raw
      → proto.unmarshal_message raw ≡ some m

pub data MessageError : Type 0 where
  marshal_details_failed parse_message_failed parse_details_failed hmac_failed : MessageError

-- `for i := range psk { psk[i] = lf[i] ^ rf[i] }`, from the first `n` bytes on down.
pub xor_bytes : ℕ → List ℕ → List ℕ → List ℕ → List ℕ
xor_bytes zero lf rf psk = psk
xor_bytes (suc i) lf rf psk =
    set (xor_bytes i lf rf psk) i (bit_xor (get_or lf i 0) (get_or rf i 0))

module _ (hashes : Hashes) where
  -- DerivePreSharedKey
  pub derive_pre_shared_key : Certificate → Certificate → List ℕ
  derive_pre_shared_key local remote =
      xor_bytes 32 (fingerprint hashes local) (fingerprint hashes remote) (replicate 32 0)

  -- The HMAC of details and payload under a certificate's fingerprint.
  unfoldable pub mac_of : Certificate → List ℕ → List ℕ → List ℕ
  mac_of cert details noise_payload =
      hashes.mac (fingerprint hashes cert) (details ++ noise_payload)

  -- VerifyHMAC
  unfoldable pub verify_hmac : HandshakeMessage → Certificate → Result MessageError (Unit {0})
  verify_hmac msg sender =
      guard (mac_of sender msg.details msg.noise_payload =? msg.hmac) hmac_failed

  module _ (lib : Library) (proto : Protobuf) where
    -- BuildResponderMessage, at a time.
    unfoldable pub build_responder_message :
        Certificate → List ℕ → ℕ → ℕ → ℕ → Result MessageError HandshakeMessage
    build_responder_message cert payload initiator_index responder_index now = do
      details ←
          or_err
            (proto.marshal_details (record {
              cert = pem lib cert;
              initiator_index = initiator_index;
              responder_index = responder_index;
              time = now;
            }))
            marshal_details_failed
      ok (record { details = details; noise_payload = payload; hmac = mac_of cert details payload })

    -- BuildInitiatorMessage, at a time.
    unfoldable pub build_initiator_message :
        Certificate → List ℕ → ℕ → ℕ → Result MessageError HandshakeMessage
    build_initiator_message cert payload local_index now = do
      details ←
          or_err
            (proto.marshal_details (record {
              cert = pem lib cert;
              initiator_index = local_index;
              responder_index = 0;
              time = now;
            }))
            marshal_details_failed
      ok (record { details = details; noise_payload = payload; hmac = mac_of cert details payload })

module _ (proto : Protobuf) where
  -- ParseHandshakeMessage
  unfoldable pub parse_handshake_message : List ℕ → Result MessageError HandshakeMessage
  parse_handshake_message raw = or_err (proto.unmarshal_message raw) parse_message_failed

  -- ParseDetails
  unfoldable pub parse_details : HandshakeMessage → Result MessageError HandshakeDetails
  parse_details msg = or_err (proto.unmarshal_details msg.details) parse_details_failed
