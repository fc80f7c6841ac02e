-- ===== src/Manager.antt =====
-- handshake_manager.go: the outbound handshakes in progress.
-- Both maps of the manager point to the same `pendingHandshake`, which changes in place: handshakes
-- stand in a store, and the maps hold references into it. The mutex makes each method one step.
pub mod Pending
pub mod Packets
pub mod Stages
pub mod Retry
pub mod Invariant
pub mod Laws
pub mod Expiry
pub mod Sessions
pub mod GivesUp
pub mod Runs
pub mod Messages
pub mod Answers
pub mod Mirror
use neth.Base.{
  ℕ, suc, ◌+◌, ◌≤◌, ◌≡◌, List, [], ◌∷◌, ◌++◌, Option, none, some, leb, length, drop, if◌then◌else◌,
  nat_key,
}
use neth.Base.Assoc.{Assoc, lookup, insert, delete}
use neth.Base.Pointers.{deref}
use neth.Net.{Addr, UdpAddr, addr_key}
use neth.Cert.{Certificate, CertError}
use neth.Header.{HeaderError}
use neth.Handshake.{MessageError}
use neth.Noise.{DhKey}

abbrev pub max_pending_packets : ℕ
max_pending_packets = 50

-- pendingHandshake, with the Noise library's type of states.
pub record PendingHandshake (State : Type 0) : Type 0 where
  pub state : State
  pub local_index : ℕ
  pub remote_vpn_ip : Addr
  pub remote_addr : UdpAddr
  pub pending_packets : List (List ℕ)
  pub attempts : ℕ
  pub next_retry : ℕ
  pub stage0msg : List ℕ

-- The manager without its connection and callback, which each method's result stands for.
pub record HandshakeManager (State : Type 0) : Type 0 where
  pub local_cert : Certificate
  pub local_key : DhKey
  pub ca_pool : List Certificate
  pub handshakes : Assoc ℕ (PendingHandshake State)
  pub next_ref : ℕ
  pub pending : Assoc Addr ℕ
  pub index_map : Assoc ℕ ℕ

pub data HandshakeError : Type 0 where
  random_failed initiator_state_failed responder_state_failed : HandshakeError
  noise_write_failed noise_read_failed marshal_failed send_failed : HandshakeError
  message_failed : MessageError → HandshakeError
  packet_too_short : ℕ → HandshakeError
  header_failed : HeaderError → HandshakeError
  cert_parse_failed cert_verify_failed : CertError → HandshakeError
  unknown_remote_index : ℕ → HandshakeError
  no_cipher_states cipher_failed : HandshakeError

-- The slice operations of QueuePacket: the oldest packet is dropped from a full queue.
pub enqueue : List (List ℕ) → List ℕ → List (List ℕ)
enqueue packets pkt =
    (if leb max_pending_packets (length packets) then drop 1 packets else packets) ++ pkt ∷ []

module _ {State : Type 0} where
  -- NewHandshakeManager
  unfoldable pub new_handshake_manager :
      Certificate → DhKey → List Certificate → HandshakeManager State
  new_handshake_manager local_cert local_key ca_pool = record {
    local_cert = local_cert;
    local_key = local_key;
    ca_pool = ca_pool;
    handshakes = [];
    next_ref = 0;
    pending = [];
    index_map = [];
  }

  -- m.pending[remoteVpnIP], with its pointer.
  pub find_pending : Addr → HandshakeManager State → Option (ℕ × PendingHandshake State)
  find_pending ip m = deref m.handshakes (lookup ip m.pending)

  -- m.indexMap[idx], with its pointer.
  unfoldable pub find_index : ℕ → HandshakeManager State → Option (ℕ × PendingHandshake State)
  find_index idx m = deref m.handshakes (lookup idx m.index_map)

  -- The two map writes at the end of StartHandshake.
  unfoldable pub enter :
      Addr → PendingHandshake State → HandshakeManager State → HandshakeManager State
  enter ip ph m = record m {
    handshakes = insert m.next_ref ph m.handshakes;
    next_ref = suc m.next_ref;
    pending = insert ip m.next_ref m.pending;
    index_map = insert ph.local_index m.next_ref m.index_map;
  }

  -- The deletes of both maps.
  unfoldable pub leave : Addr → ℕ → HandshakeManager State → HandshakeManager State
  leave ip idx m = record m { pending = delete ip m.pending; index_map = delete idx m.index_map }

  -- A write through a pointer to a pending handshake.
  pub write_pending : ℕ → PendingHandshake State → HandshakeManager State → HandshakeManager State
  write_pending r ph m = record m { handshakes = insert r ph m.handshakes }

  -- QueuePacket
  pub queue_packet : Addr → List ℕ → HandshakeManager State → HandshakeManager State
  queue_packet ip pkt m = elim (find_pending ip m) [
    | none ↦ m
    | some (r, ph) ↦
        write_pending r (record ph { pending_packets = enqueue ph.pending_packets pkt }) m
  ]
