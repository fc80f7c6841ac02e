-- ===== src/Manager/Pending.antt =====
-- handshake_manager.go: the queue of a pending handshake.
use neth.Base.{
  ℕ, suc, ◌-◌, ◌≤◌, ◌<◌, ◌≡◌, refl, sym, ap, ◌∙◌, arith, Bool-cases, inl, inr, List, [], ◌∷◌, ◌++◌,
  length, length-append, drop, ltb, ltb→lt,
}
use neth.Manager.{max_pending_packets, enqueue}

-- Packets queued one after another.
pub enqueue_each : List (List ℕ) → List (List ℕ) → List (List ℕ)
enqueue_each queue [] = queue
enqueue_each queue (pkt ∷ pkts) = enqueue_each (enqueue queue pkt) pkts

append_one :
    (queue : List (List ℕ)) (pkt : List ℕ) (pkts : List (List ℕ))
    → (queue ++ pkt ∷ []) ++ pkts ≡ queue ++ pkt ∷ pkts
append_one [] pkt pkts = refl
append_one (x ∷ queue) pkt pkts = ap (◌∷◌ x) (append_one queue pkt pkts)

append_nil : (queue : List (List ℕ)) → queue ++ [] ≡ queue
append_nil [] = refl
append_nil (x ∷ queue) = ap (◌∷◌ x) (append_nil queue)

-- The newest packets of a sequence, as many as the queue holds.
abbrev pub newest : List (List ℕ) → List (List ℕ)
newest pkts = drop (length pkts - max_pending_packets) pkts

newest_short : (pkts : List (List ℕ)) → length pkts ≤ max_pending_packets → newest pkts ≡ pkts
newest_short pkts h =
    let none_over : length pkts - max_pending_packets ≡ 0 = omega arith in
    ap (λ n. drop n pkts) none_over

newest_cons :
    (x : List ℕ) (pkts : List (List ℕ))
    → max_pending_packets ≤ length pkts
    → newest (x ∷ pkts) ≡ newest pkts
newest_cons x pkts h =
    let one_more : suc (length pkts) - max_pending_packets
        ≡ suc (length pkts - max_pending_packets) =
      omega arith in
    ap (λ n. drop n (x ∷ pkts)) one_more

enqueue_full :
    (x : List ℕ) (queue : List (List ℕ)) (pkt : List ℕ)
    → length (x ∷ queue) ≡ max_pending_packets
    → enqueue (x ∷ queue) pkt ≡ queue ++ pkt ∷ []
unfolding enqueue
enqueue_full x queue pkt full = ground (arith, full)

enqueue_free :
    (queue : List (List ℕ)) (pkt : List ℕ)
    → length queue < max_pending_packets
    → enqueue queue pkt ≡ queue ++ pkt ∷ []
unfolding enqueue
enqueue_free queue pkt free = ground (arith, free)

-- A queue of at most 50 packets to which packets are added holds the newest 50 of all, in order.
pub enqueue_each-newest :
    (queue pkts : List (List ℕ))
    → length queue ≤ max_pending_packets
    → enqueue_each queue pkts ≡ newest (queue ++ pkts)
unfolding enqueue_each
enqueue_each-newest queue [] h =
    sym (newest_short (queue ++ []) (rw (append_nil queue) h) ∙ append_nil queue)
enqueue_each-newest [] (pkt ∷ pkts) h =
    rw (enqueue_free [] pkt (omega arith)) (enqueue_each-newest (pkt ∷ []) pkts (omega arith))
enqueue_each-newest (x ∷ queue) (pkt ∷ pkts) h =
    elim (Bool-cases (ltb (length (x ∷ queue)) max_pending_packets)) [
      | inl free ↦ rw (enqueue_free (x ∷ queue) pkt (ltb→lt _ _ free)) (
          enqueue_each-newest ((x ∷ queue) ++ pkt ∷ []) pkts
            (rw (length-append (x ∷ queue) (pkt ∷ [])) (ground arith))
          ∙ ap newest (append_one (x ∷ queue) pkt pkts))
      | inr full ↦
          let many : max_pending_packets ≤ length (queue ++ pkt ∷ pkts) =
            rw (length-append queue (pkt ∷ pkts)) (ground arith) in
          rw (enqueue_full x queue pkt (ground arith)) (
            enqueue_each-newest (queue ++ pkt ∷ []) pkts
              (rw (length-append queue (pkt ∷ [])) (omega arith))
            ∙ ap newest (append_one queue pkt pkts)
            ∙ sym (newest_cons x (queue ++ pkt ∷ pkts) many))
    ]

pub enqueue-newest :
    (queue : List (List ℕ)) (pkt : List ℕ)
    → length queue ≤ max_pending_packets
    → enqueue queue pkt ≡ newest (queue ++ pkt ∷ [])
unfolding enqueue_each
enqueue-newest queue pkt h = enqueue_each-newest queue (pkt ∷ []) h
