-- ===== src/Examples/Certificates.antt =====
-- Certificates and handshake messages at concrete inputs.
use neth.Base.{ℕ, ◌≡◌, ◌≢◌, refl, arith, List, [], ◌∷◌, some, length, replicate, ok, bytes_key}
use neth.Base.Text.{text}
use neth.Net.{ip4, Prefix, no_prefix}
use neth.Header.{put_big_endian}
use neth.Cert.{
  Certificate, Extension, sign_extensions, encode_vpn_ip, encode_groups, encode_curve25519_key,
  addr_bytes, bits_of, read_extensions, parse, pem, parse_der, verify, verify_ca, oid_vpn_ip,
  oid_groups, oid_curve25519_key,
}
use neth.Cert.Laws.{read_extensions-sign_extensions, verify-verify_ca, parse-pem}
use neth.Handshake.{
  HandshakeMessage, derive_pre_shared_key, build_responder_message, verify_hmac, parse_details,
  mac_of,
}
use neth.Handshake.Laws.{derive_pre_shared_key_comm, verify_hmac-build_responder_message}
use neth.Examples.Instances.{
  plain_library, plain_library-RoundTrips, plain_protobuf, plain_protobuf-RoundTrips, length_hashes,
  node_x509,
}

abbrev pub node : Certificate
node = record {
  raw = 1 ∷ 2 ∷ 3 ∷ [];
  x509 = node_x509;
  vpn_ip = no_prefix;
  groups = [];
  x25519_public_key = [];
}

abbrev peer : Certificate
peer = record node { raw = 9 ∷ [] }

abbrev key : List ℕ
key = replicate 32 5

-- 10.0.0.1/24
abbrev vpn_ip : Prefix
vpn_ip = record { addr = ip4 167772161; bits = some 24 }

abbrev signed : List Extension
signed =
    record { id = oid_vpn_ip; value = 0 ∷ 24 ∷ 10 ∷ 0 ∷ 0 ∷ 1 ∷ [] }
    ∷ record { id = oid_curve25519_key; value = key }
    ∷ record { id = oid_groups; value = text "web" }
    ∷ []

web_signed : sign_extensions plain_library vpn_ip (text "web" ∷ []) key ≡ ok signed
unfolding sign_extensions encode_vpn_ip encode_groups encode_curve25519_key addr_bytes bits_of
    put_big_endian
web_signed = refl

read_extensions-sign_extensions_example :
    read_extensions plain_library node signed
    ≡ ok (record node { vpn_ip = vpn_ip; groups = text "web" ∷ []; x25519_public_key = key })
read_extensions-sign_extensions_example =
    read_extensions-sign_extensions plain_library plain_library-RoundTrips vpn_ip (text "web" ∷ [])
      key signed node (omega arith, omega arith) web_signed

parse-pem_example :
    parse plain_library (pem plain_library node) ≡ parse_der plain_library (node.raw)
parse-pem_example = parse-pem plain_library plain_library-RoundTrips node

node_verifies : verify plain_library node [] 0 ≡ ok tt
unfolding verify
node_verifies = refl

verify-verify_ca_example : verify_ca plain_library node 7 ≢ ok tt
verify-verify_ca_example = verify-verify_ca plain_library node [] 0 7 node_verifies

derive_pre_shared_key_comm_example :
    (derive_pre_shared_key length_hashes node peer ≡ derive_pre_shared_key length_hashes peer node)
    × (length (derive_pre_shared_key length_hashes node peer) ≡ 32)
derive_pre_shared_key_comm_example = derive_pre_shared_key_comm length_hashes node peer

abbrev reply_details : List ℕ
reply_details = 4 ∷ 8 ∷ 77 ∷ pem plain_library node

abbrev reply : HandshakeMessage
reply = record {
  details = reply_details;
  noise_payload = 6 ∷ [];
  hmac = mac_of length_hashes node reply_details (6 ∷ []);
}

reply_built :
    build_responder_message length_hashes plain_library plain_protobuf node (6 ∷ []) 4 8 77
    ≡ ok reply
unfolding build_responder_message
reply_built = refl

verify_hmac-build_responder_message_example :
    (verify_hmac length_hashes reply node ≡ ok tt)
    × (parse_details plain_protobuf reply
        ≡ ok (record {
          cert = pem plain_library node;
          initiator_index = 4;
          responder_index = 8;
          time = 77;
        }))
verify_hmac-build_responder_message_example =
    verify_hmac-build_responder_message length_hashes plain_library plain_protobuf
      plain_protobuf-RoundTrips node (6 ∷ []) 4 8 77 reply reply_built
