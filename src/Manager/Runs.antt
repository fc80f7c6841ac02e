-- ===== src/Manager/Runs.antt =====
-- handshake_manager.go: sequences of the manager's methods.
use neth.Base.{ℕ, refl, Bool, nat_key, ◌≡◌, ◌≤◌, ◌∙◌, ap, List, [], ◌∷◌, ◌++◌, length, Option, some}
use neth.Base.Assoc.{lookup-insert_self}
use neth.Base.Pointers.{deref}
use neth.Net.{Addr, UdpAddr, addr_key}
use neth.Crypto.{Hashes}
use neth.Cert.{Certificate, Library}
use neth.Handshake.{Protobuf}
use neth.Noise.{Noise, DhKey}
use neth.Punchy.{Datagram}
use neth.Manager.{
  PendingHandshake, HandshakeManager, new_handshake_manager, find_pending, find_index,
  write_pending, enqueue, queue_packet, max_pending_packets,
}
use neth.Manager.Invariant.{IsManager, new_handshake_manager-IsManager}
use neth.Manager.Pending.{newest, enqueue-newest}
use neth.Manager.Laws.{
  queue_packet-IsManager, start_handshake-IsManager, handle_stage1-IsManager, found_by_index,
}
use neth.Manager.Expiry.{retry_pending-IsManager}
use neth.Manager.Retry.{retry_pending}
use neth.Manager.Stages.{start_handshake, handle_stage1}

-- The calls of the methods that change the manager.
pub data Call : Type 0 where
  call_start : ℕ → Option (List ℕ) → Addr → UdpAddr → Certificate → Call
  call_stage1 : ℕ → List ℕ → Call
  call_queue : Addr → List ℕ → Call
  call_retry : ℕ → Call

module _ (hashes : Hashes) (lib : Library) (proto : Protobuf) where
  module _ {Cipher : Type 0} (noise : Noise Cipher) (can_write : Datagram → Bool) where
    pub step : Call → HandshakeManager (noise.State) → HandshakeManager (noise.State)
    step (call_start now random ip addr cert) m =
        (start_handshake hashes lib proto noise can_write now random ip addr cert m).0
    step (call_stage1 now pkt) m = (handle_stage1 hashes lib proto noise can_write now pkt m).0
    step (call_queue ip pkt) m = queue_packet ip pkt m
    step (call_retry now) m = (retry_pending now m).0

    pub run : List Call → HandshakeManager (noise.State) → HandshakeManager (noise.State)
    run [] m = m
    run (c ∷ cs) m = run cs (step c m)

    step-IsManager :
        (c : Call) (m : HandshakeManager (noise.State)) → IsManager m → IsManager (step c m)
    unfolding step
    step-IsManager (call_start now random ip addr cert) m is =
        start_handshake-IsManager hashes lib proto noise can_write now random ip addr cert m is
    step-IsManager (call_stage1 now pkt) m is =
        handle_stage1-IsManager hashes lib proto noise can_write now pkt m is
    step-IsManager (call_queue ip pkt) m is = queue_packet-IsManager ip pkt m is
    step-IsManager (call_retry now) m is = retry_pending-IsManager now m is

    run-keeps :
        (cs : List Call) (m : HandshakeManager (noise.State)) → IsManager m → IsManager (run cs m)
    unfolding run
    run-keeps [] m is = is
    run-keeps (c ∷ cs) m is = run-keeps cs (step c m) (step-IsManager c m is)

    -- However the manager's methods are called on a new manager, both maps refer to pending handshakes
    -- under their own keys, and every handshake that an index leads to is pending under its VPN IP.
    pub run-IsManager :
        (cert : Certificate) (key : DhKey) (pool : List Certificate) (cs : List Call)
        → IsManager (run cs (new_handshake_manager cert key pool))
    run-IsManager cert key pool cs =
        run-keeps cs (new_handshake_manager cert key pool)
          (new_handshake_manager-IsManager cert key pool)

module _ {State : Type 0} where
  -- A packet queued for a peer whose queue holds at most 50 packets is found through the peer's index
  -- too, since both maps share the handshake: the queue then holds the newest 50 of the old packets
  -- and the new one, in order, and nothing else of the handshake changes.
  pub find_index-queue_packet :
      (pkt : List ℕ) (idx r : ℕ) (ph : PendingHandshake State) (m : HandshakeManager State)
      → IsManager m
      → find_index idx m ≡ some (r, ph)
      → length ph.pending_packets ≤ max_pending_packets
      → find_index idx (queue_packet ph.remote_vpn_ip pkt m)
        ≡ some (r, record ph { pending_packets = newest (ph.pending_packets ++ pkt ∷ []) })
  unfolding queue_packet find_index find_pending write_pending
  find_index-queue_packet pkt idx r ph m is found few =
      let (here, stands, keyed) = found_by_index idx m r ph is found in
      let pend = is.indexed idx r ph here stands in
      let longer : PendingHandshake State = record ph {
        pending_packets = enqueue ph.pending_packets pkt;
      } in
      let pending : find_pending ph.remote_vpn_ip m ≡ some (r, ph) =
        rw (find_pending, pend) (rw (deref, stands) refl) in
      rw (queue_packet, pending)
        (rw (find_index, here) (rw (deref, lookup-insert_self r longer m.handshakes) refl))
      ∙ ap (λ (q : List (List ℕ)). some (r, record ph { pending_packets = q }))
          (enqueue-newest ph.pending_packets pkt few)
