-- ===== src/Manager/Packets.antt =====
-- handshake_manager.go: randomIndex, marshalHandshakePacket and ciphersFromStates, and what the stages
-- of a handshake give.
use neth.Base.{
  ℕ, ◌+◌, ◌*◌, Bool, List, get_or, Option, none, some, if◌then◌else◌, Result, ok, err, ◌>>=◌,
  or_err,
}
use neth.Net.{Addr, UdpAddr, addr_key}
use neth.Cert.{Certificate}
use neth.Header.{version, type_handshake, packet}
use neth.Handshake.{HandshakeMessage, HandshakeDetails, Protobuf}
use neth.HostMap.{HostInfo}
use neth.Noise.{Noise, cipher_from_state}
use neth.Replay.{new_window}
use neth.Manager.{HandshakeError, random_failed, marshal_failed, no_cipher_states, cipher_failed}

-- randomIndex, of the bytes that crypto/rand gives.
unfoldable pub random_index : Option (List ℕ) → Result HandshakeError ℕ
random_index none = err random_failed
random_index (some b) =
    ok (get_or b 0 0 + 256 * (get_or b 1 0 + 256 * (get_or b 2 0 + 256 * get_or b 3 0)))

module _ (proto : Protobuf) where
  -- marshalHandshakePacket
  unfoldable pub marshal_handshake_packet :
      HandshakeMessage → ℕ → ℕ → Result HandshakeError (List ℕ)
  marshal_handshake_packet msg remote_index subtype = do
    body ← or_err (proto.marshal_message msg) marshal_failed
    ok (
        packet
          (record {
            version = version;
            type = type_handshake;
            sub_type = subtype;
            remote_index = remote_index;
            message_counter = 0;
          })
          body)

module _ {Cipher : Type 0} (noise : Noise Cipher) where
  -- ciphersFromStates: the send cipher and the receive cipher. The states are nil before the end
  -- of the handshake, where the source would stop on a nil pointer.
  unfoldable pub ciphers_from_states :
      Option (noise.CipherState × noise.CipherState)
      → Bool
      → Result HandshakeError (Cipher × Cipher)
  ciphers_from_states none is_initiator = err no_cipher_states
  ciphers_from_states (some (cs1, cs2)) is_initiator = do
    c1 ← or_err (cipher_from_state noise cs1) cipher_failed
    c2 ← or_err (cipher_from_state noise cs2) cipher_failed
    ok (if is_initiator then (c1, c2) else (c2, c1))

-- What the callback `onComplete` is called with.
pub record Completed (Cipher : Type 0) : Type 0 where
  pub host : HostInfo Cipher Certificate
  pub packets : List (List ℕ)

-- The `&HostInfo{…}` of the two stages.
abbrev pub new_host :
    {Cipher : Type 0}
    → Addr
    → UdpAddr
    → ℕ
    → ℕ
    → Cipher × Cipher
    → Certificate
    → HostInfo Cipher Certificate
new_host vpn_ip remote index remote_index ciphers cert = record {
  vpn_ip = vpn_ip;
  remote = remote;
  index = index;
  remote_index = remote_index;
  send_cipher = ciphers.0;
  recv_cipher = ciphers.1;
  counter = 0;
  cert = some cert;
  replay = new_window;
}

-- A reply that HandleStage0 sends, and the session that it completes with afterwards.
pub record Reply (CipherState : Type 0) : Type 0 where
  pub bytes : List ℕ
  pub states : Option (CipherState × CipherState)
  pub sender : Certificate
  pub local_index : ℕ
  pub initiator_index : ℕ

-- The parsed parts of a handshake packet.
pub record Envelope : Type 0 where
  pub message : HandshakeMessage
  pub details : HandshakeDetails
  pub sender : Certificate
