-- ===== src/Examples/Instances.antt =====
-- Concrete functions for the libraries that the models take as parameters. They keep the laws that
-- the interfaces ask for, and are no cryptography.
use neth.Base.{
  ℕ, zero, suc, ◌%◌, ◌≡◌, refl, subst, ◌∙◌, arith, true, false, List, [], ◌∷◌, ◌++◌, Option, none,
  some, length, take, drop, get_or, replicate, length-replicate, take-append_exact,
  drop-append_exact, if◌then◌else◌, ◌==◌,
}
use neth.Base.Int.{ℤ, pos, negsuc}
use neth.Base.Text.{Text}
use neth.Net.{Addr, ip4}
use neth.Crypto.{Aead, Hashes}
use neth.Cert as Certs
use neth.Cert.{VpnIpValue, X509, RoundTrips, ed25519_key}
use neth.Handshake.{HandshakeMessage, HandshakeDetails, Protobuf, ProtobufRoundTrips}
use neth.LightHouse as Lights
use neth.LightHouse.{LightHouseMessage, no_body}
use neth.LightHouse.Laws.{to_16, PrintsIps}
use neth.Noise.{Noise}

-- The key is written in front of the plaintext.
abbrev seal_with : ℕ → List ℕ → List ℕ → List ℕ → List ℕ
seal_with key nonce plaintext extra = key ∷ plaintext

abbrev unseal_with : ℕ → List ℕ → List ℕ → List ℕ → Option (List ℕ)
unseal_with key nonce [] extra = none
unseal_with key nonce (k ∷ plaintext) extra = if k == key then some plaintext else none

pub unseal-seal_with :
    (key : ℕ) (nonce plaintext extra : List ℕ)
    → unseal_with key nonce (seal_with key nonce plaintext extra) extra ≡ some plaintext
unseal-seal_with key nonce plaintext extra = ground arith

abbrev pub plain_aead : Aead
plain_aead = record {
  Cipher = ℕ;
  seal = seal_with;
  unseal = unseal_with;
  unseal-seal = unseal-seal_with;
}

abbrev digest_of : List ℕ → List ℕ
digest_of s = replicate 32 (length s % 256)

pub length-digest_of : (s : List ℕ) → length (digest_of s) ≡ 32
length-digest_of s = length-replicate {A = ℕ} 32 (length s % 256)

abbrev pub length_hashes : Hashes
length_hashes = record {
  sha256 = digest_of;
  mac = λ key body. key ++ body;
  length-sha256 = length-digest_of;
}

-- A node certificate, and one of a CA.
abbrev pub node_x509 : X509
node_x509 = record {
  is_ca = false;
  common_name = [];
  extensions = [];
  public_key = ed25519_key [];
  not_before = pos 0;
  not_after = pos 1000;
  key_usage = 1;
}

abbrev marshal_value : VpnIpValue → Option (List ℕ)
marshal_value v = elim (v.prefix) [ pos b ↦ some (0 ∷ b ∷ v.ip) | negsuc b ↦ some (1 ∷ b ∷ v.ip) ]

abbrev unmarshal_value : List ℕ → Option VpnIpValue
unmarshal_value (zero ∷ b ∷ ip) = some (record { ip = ip; prefix = pos b })
unmarshal_value (suc zero ∷ b ∷ ip) = some (record { ip = ip; prefix = negsuc b })
unmarshal_value _ = none

marshal_value-back :
    (ip : List ℕ) (p : ℤ) (der : List ℕ)
    → marshal_value (record { ip = ip; prefix = p }) ≡ some der
    → unmarshal_value der ≡ some (record { ip = ip; prefix = p })
marshal_value-back ip (pos b) der h = cc
marshal_value-back ip (negsuc b) der h = cc

-- Only a list of one text is marshalled.
abbrev marshal_text : List Text → Option (List ℕ)
marshal_text (s ∷ []) = some s
marshal_text _ = none

marshal_text-back :
    (v : List Text) (der : List ℕ) → marshal_text v ≡ some der → some (der ∷ []) ≡ some v
marshal_text-back [] der h = cc
marshal_text-back (s ∷ []) der h = cc
marshal_text-back (s ∷ t ∷ v) der h = cc

abbrev encode_pem : Text → List ℕ → List ℕ
encode_pem kind body = length kind ∷ (kind ++ body)

abbrev decode_pem : List ℕ → Option (Text × List ℕ)
decode_pem [] = none
decode_pem (n ∷ rest) = some (take n rest, drop n rest)

decode-encode_pem :
    (kind : Text) (body : List ℕ) → decode_pem (encode_pem kind body) ≡ some (kind, body)
decode-encode_pem kind body =
    λ i. some (take-append_exact kind body i, drop-append_exact kind body i)

abbrev pub plain_library : Certs.Library
plain_library = record {
  parse_certificate = λ der. some node_x509;
  verifies = λ x pool now. true;
  pem_decode = decode_pem;
  pem_encode = encode_pem;
  marshal_vpn_ip = marshal_value;
  unmarshal_vpn_ip = unmarshal_value;
  marshal_strings = marshal_text;
  unmarshal_strings = λ der. some (der ∷ []);
  marshal_octets = λ v. some v;
  unmarshal_octets = λ der. some der;
}

pub plain_library-RoundTrips : RoundTrips plain_library
plain_library-RoundTrips = record {
  pem = decode-encode_pem;
  vpn_ip = λ v der h. marshal_value-back v.ip v.prefix der h;
  strings = marshal_text-back;
  octets = λ v der h. cc;
}

abbrev marshal_message : HandshakeMessage → Option (List ℕ)
marshal_message m =
    some (length m.details ∷ (m.details ++ (length m.noise_payload ∷ (m.noise_payload ++ m.hmac))))

abbrev unmarshal_payload : List ℕ → List ℕ → Option HandshakeMessage
unmarshal_payload details [] = none
unmarshal_payload details (n ∷ rest) =
    some (record { details = details; noise_payload = take n rest; hmac = drop n rest })

abbrev unmarshal_message : List ℕ → Option HandshakeMessage
unmarshal_message [] = none
unmarshal_message (n ∷ rest) = unmarshal_payload (take n rest) (drop n rest)

abbrev marshal_details : HandshakeDetails → Option (List ℕ)
marshal_details d = some (d.initiator_index ∷ d.responder_index ∷ d.time ∷ d.cert)

abbrev unmarshal_details : List ℕ → Option HandshakeDetails
unmarshal_details (i ∷ r ∷ t ∷ cert) =
    some (record { cert = cert; initiator_index = i; responder_index = r; time = t })
unmarshal_details _ = none

abbrev pub plain_protobuf : Protobuf
plain_protobuf = record {
  marshal_details = marshal_details;
  unmarshal_details = unmarshal_details;
  marshal_message = marshal_message;
  unmarshal_message = unmarshal_message;
}

unmarshal-marshal_message :
    (details payload hmac : List ℕ)
    → unmarshal_message (length details ∷ (details ++ (length payload ∷ (payload ++ hmac))))
      ≡ some (record { details = details; noise_payload = payload; hmac = hmac })
unmarshal-marshal_message details payload hmac =
    let rest = length payload ∷ (payload ++ hmac) in
    (λ i. unmarshal_payload (take-append_exact details rest i) (drop-append_exact details rest i))
    ∙ (λ i. some (record {
      details = details;
      noise_payload = take-append_exact payload hmac i;
      hmac = drop-append_exact payload hmac i;
    }))

pub plain_protobuf-RoundTrips : ProtobufRoundTrips plain_protobuf
plain_protobuf-RoundTrips = record {
  details = λ d raw h. cc;
  message = λ m raw h.
      subst (λ o. elim o [ none ↦ Unit | some r ↦ unmarshal_message r ≡ some m ]) h
        (unmarshal-marshal_message m.details m.noise_payload m.hmac);
}

-- A text of one number is an IPv4 address.
abbrev parse_number : Text → Option Addr
parse_number (n ∷ []) = some (ip4 n)
parse_number _ = none

abbrev number_of : Addr → Text
number_of (ip4 n) = n ∷ []
number_of _ = []

abbrev pub plain_lights : Lights.Library
plain_lights = record {
  marshal = λ msg. some [];
  unmarshal = λ raw. some no_body;
  parse_addr = parse_number;
  addr_string = number_of;
  parse_ip = λ t. some (to_16 t);
  ip_string = λ ip. ip;
}

pub plain_lights-PrintsIps : PrintsIps plain_lights
plain_lights-PrintsIps ip is = refl

-- A state counts the messages.
abbrev pub counting_noise : Noise ℕ
counting_noise = record {
  State = ℕ;
  CipherState = ℕ;
  Block = ℕ;
  new_handshake_state = λ config. some 0;
  write_message = λ s. some (suc s, s ∷ [], some (7, 8));
  read_message = λ s msg. some (suc s, some (7, 8));
  unsafe_key = λ cs. cs ∷ [];
  new_cipher = λ key. some (get_or key 0 0);
  new_gcm = λ block. some block;
}
