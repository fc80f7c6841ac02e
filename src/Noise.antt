-- ===== src/Noise.antt =====
-- handshake/noise.go and the keys of noiseutil/aead.go: states of the Noise handshake IKpsk0.
-- flynn/noise and Go's AES-GCM are the parameter `Noise`.
use neth.Base.{ℕ, Bool, true, false, List, [], Option, none, some}

-- noise.DHKey
pub record DhKey : Type 0 where
  pub private_key : List ℕ
  pub public_key : List ℕ

-- The fields of noise.Config that the program sets; the suite and the pattern IK are fixed.
pub record NoiseConfig : Type 0 where
  pub initiator : Bool
  pub static_keypair : DhKey
  pub peer_static : List ℕ
  pub preshared_key : List ℕ
  pub preshared_key_placement : ℕ

-- A message written or read gives the next state and, at the end of the handshake, two ciphers.
pub record Noise (Cipher : Type 0) : Type 1 where
  pub State : Type 0
  pub CipherState : Type 0
  pub Block : Type 0
  pub new_handshake_state : NoiseConfig → Option State
  pub write_message : State → Option (State × List ℕ × Option (CipherState × CipherState))
  pub read_message : State → List ℕ → Option (State × Option (CipherState × CipherState))
  pub unsafe_key : CipherState → List ℕ
  pub new_cipher : List ℕ → Option Block
  pub new_gcm : Block → Option Cipher

module _ {Cipher : Type 0} (noise : Noise Cipher) where
  -- NewInitiatorState
  unfoldable pub new_initiator_state : DhKey → List ℕ → List ℕ → Option (noise.State)
  new_initiator_state local_static remote_static psk = noise.new_handshake_state (record {
    initiator = true;
    static_keypair = local_static;
    peer_static = remote_static;
    preshared_key = psk;
    preshared_key_placement = 0;
  })

  -- NewResponderState
  unfoldable pub new_responder_state : DhKey → List ℕ → Option (noise.State)
  new_responder_state local_static psk = noise.new_handshake_state (record {
    initiator = false;
    static_keypair = local_static;
    peer_static = [];
    preshared_key = psk;
    preshared_key_placement = 0;
  })

  -- CipherFromState
  unfoldable pub cipher_from_state : noise.CipherState → Option Cipher
  cipher_from_state cs = elim (noise.new_cipher (noise.unsafe_key cs)) [
    | none ↦ none
    | some block ↦ noise.new_gcm block
  ]
