-- ===== src/Manager/Laws.antt =====
-- handshake_manager.go: the methods of the manager, its invariant and completed handshakes.
use neth.Base.{
  ℕ, ◌≡◌, refl, sym, subst, arith, Option, none, some, Bool, Bool-cases, Option-cases, inl, inr,
  ltb, leb, nat_key, List, [], length, ok, Result-cases, if-if_cases,
}
use neth.Base.Assoc.{lookup}
use neth.Net.{Addr, UdpAddr, addr_key}
use neth.Crypto.{Hashes}
use neth.Cert.{Certificate, Library}
use neth.Header.{header_len, parse as parse_header}
use neth.Handshake.{Protobuf}
use neth.Noise.{Noise}
use neth.Punchy.{Datagram}
use neth.Manager.{
  PendingHandshake, HandshakeManager, find_pending, find_index, enter, leave, enqueue, queue_packet,
}
use neth.Manager.Invariant.{IsManager, enter-IsManager, leave-IsManager, write_pending-IsManager}
use neth.Manager.Retry.{retried, retry_one, max_handshake_attempts}
use neth.Manager.Stages.{new_pending, start_handshake, answer_stage1, handle_stage1}

module _ {State : Type 0} where
  pub found_by_ip :
      (ip : Addr) (m : HandshakeManager State) (r : ℕ) (ph : PendingHandshake State)
      → IsManager m
      → find_pending ip m ≡ some (r, ph)
      → (lookup ip m.pending ≡ some r) × (lookup r m.handshakes ≡ some ph) × (ph.remote_vpn_ip ≡ ip)
  unfolding find_pending
  found_by_ip ip m r ph is found = elim (Option-cases (lookup ip m.pending)) [
    | inl missing ↦ absurd (ground (arith, missing, found))
    | inr (q, here) ↦
        let (was, stands, keyed, _) = is.by_ip ip q here in
        ground (arith, here, stands, keyed, found)
  ]

  pub found_by_index :
      (idx : ℕ) (m : HandshakeManager State) (r : ℕ) (ph : PendingHandshake State)
      → IsManager m
      → find_index idx m ≡ some (r, ph)
      → (lookup idx m.index_map ≡ some r)
        × (lookup r m.handshakes ≡ some ph)
        × (ph.local_index ≡ idx)
  unfolding find_index
  found_by_index idx m r ph is found = elim (Option-cases (lookup idx m.index_map)) [
    | inl missing ↦ absurd (ground (arith, missing, found))
    | inr (q, here) ↦
        let (was, stands, keyed, _) = is.by_idx idx q here in
        ground (arith, here, stands, keyed, found)
  ]

  pub queue_packet-IsManager :
      (ip : Addr) (pkt : List ℕ) (m : HandshakeManager State)
      → IsManager m
      → IsManager (queue_packet ip pkt m)
  unfolding queue_packet
  queue_packet-IsManager ip pkt m is = elim (Option-cases (find_pending ip m)) [
    | inl missing ↦ rw (queue_packet, missing) is
    | inr ((r, ph), found) ↦
        let (_, stands, _) = found_by_ip ip m r ph is found in
        rw (queue_packet, found)
          (write_pending-IsManager r ph
            (record ph { pending_packets = enqueue ph.pending_packets pkt }) m stands refl refl is)
  ]

  leave_found :
      (idx r : ℕ) (ph : PendingHandshake State) (m : HandshakeManager State)
      → IsManager m
      → find_index idx m ≡ some (r, ph)
      → IsManager (leave ph.remote_vpn_ip idx m)
  leave_found idx r ph m is found =
      let (here, stands, keyed) = found_by_index idx m r ph is found in
      subst (λ i. IsManager (leave ph.remote_vpn_ip i m)) keyed
        (leave-IsManager r ph m (is.indexed idx r ph here stands) stands is)

  pub retry_one-IsManager :
      (now : ℕ) (ip : Addr) (r : ℕ) (ph : PendingHandshake State) (m : HandshakeManager State)
      → IsManager m
      → lookup r m.handshakes ≡ some ph
      → lookup ip m.pending ≡ some r
      → IsManager (retry_one now ip r ph m).0
  unfolding retry_one retried
  retry_one-IsManager now ip r ph m is stands here =
      let (was, was_there, keyed, _) = is.by_ip ip r here in
      let ip_same : ph.remote_vpn_ip ≡ ip = ground (arith, stands, was_there, keyed) in
      let at_ip : lookup ph.remote_vpn_ip m.pending ≡ some r =
        subst (λ a. lookup a m.pending ≡ some r) (sym ip_same) here in
      if-if_cases (λ (p : HandshakeManager State × List Datagram). IsManager p.0)
        (ltb now ph.next_retry) (leb max_handshake_attempts ph.attempts) _ _ _ (λ _. is)
        (λ _ _.
          subst (λ a. IsManager (leave a ph.local_index m)) ip_same
            (leave-IsManager r ph m at_ip stands is))
        (λ _ _. write_pending-IsManager r ph (retried now ph) m stands refl refl is)

module _ (hashes : Hashes) (lib : Library) (proto : Protobuf) where
  module _ {Cipher : Type 0} (noise : Noise Cipher) (can_write : Datagram → Bool) where
    new_pending-fields :
        (now : ℕ) (random : Option (List ℕ)) (ip : Addr) (addr : UdpAddr) (cert : Certificate)
        (m : HandshakeManager (noise.State)) (ph : PendingHandshake (noise.State))
        → new_pending hashes lib proto noise can_write now random ip addr cert m ≡ ok ph
        → (ph.remote_vpn_ip ≡ ip) × (ph.pending_packets ≡ []) × (ph.attempts ≡ 1)
    unfolding new_pending
    new_pending-fields now random ip addr cert m ph h = ground (arith, h)

    pub start_handshake-IsManager :
        (now : ℕ) (random : Option (List ℕ)) (ip : Addr) (addr : UdpAddr) (cert : Certificate)
        (m : HandshakeManager (noise.State))
        → IsManager m
        → IsManager (start_handshake hashes lib proto noise can_write now random ip addr cert m).0
    unfolding start_handshake
    start_handshake-IsManager now random ip addr cert m is =
        elim (Option-cases (lookup ip m.pending)) [
          | inr (r, there) ↦ rw (start_handshake, there) is
          | inl free ↦
              elim (Result-cases
                (new_pending hashes lib proto noise can_write now random ip addr cert m)) [
                  | inl (e, failed) ↦ rw (start_handshake, free, failed) is
                  | inr (ph, made) ↦
                      let fields = new_pending-fields now random ip addr cert m ph made in
                      let free_ip : lookup ph.remote_vpn_ip m.pending ≡ none =
                        subst (λ a. lookup a m.pending ≡ none) (sym (fields.0)) free in
                      rw (start_handshake, free, made)
                        (subst (λ a. IsManager (enter a ph m)) (fields.0)
                          (enter-IsManager ph m free_ip is))
                ]
        ]

    answer_stage1-IsManager :
        (now : ℕ) (pkt : List ℕ) (idx : ℕ) (m : HandshakeManager (noise.State))
        → IsManager m
        → IsManager (answer_stage1 hashes lib proto noise can_write now pkt idx m).0
    unfolding answer_stage1
    answer_stage1-IsManager now pkt idx m is = elim (Option-cases (find_index idx m)) [
      | inl missing ↦ rw (answer_stage1, missing) is
      | inr ((r, ph), found) ↦ rw (answer_stage1, found) (leave_found idx r ph m is found)
    ]

    pub handle_stage1-IsManager :
        (now : ℕ) (pkt : List ℕ) (m : HandshakeManager (noise.State))
        → IsManager m
        → IsManager (handle_stage1 hashes lib proto noise can_write now pkt m).0
    unfolding handle_stage1
    handle_stage1-IsManager now pkt m is = elim (Bool-cases (ltb (length pkt) header_len)) [
      | inl short ↦ rw (handle_stage1, short) is
      | inr long ↦ elim (Result-cases (parse_header pkt)) [
        | inl (e, failed) ↦ rw (handle_stage1, long, failed) is
        | inr (h, parsed) ↦
            rw (handle_stage1, long, parsed) (answer_stage1-IsManager now pkt h.remote_index m is)
      ]
    ]
