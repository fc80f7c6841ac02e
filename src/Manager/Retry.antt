-- ===== src/Manager/Retry.antt =====
-- handshake_manager.go: `retryPending`, which sends again with a growing delay and gives up.
-- A failed write is only logged. Go visits a map in any order; the model visits the list.
use neth.Base.{
  ℕ, suc, ◌+◌, ◌*◌, ◌^◌, min, List, [], ◌∷◌, ◌++◌, none, some, ltb, leb, if◌then◌else◌, nat_key,
}
use neth.Base.Assoc.{Assoc, lookup}
use neth.Net.{Addr}
use neth.Punchy.{Datagram}
use neth.Manager.{PendingHandshake, HandshakeManager, leave, write_pending}
use neth.Manager.Stages.{retry_base}

abbrev pub max_handshake_attempts : ℕ
max_handshake_attempts = 10

-- `30 * time.Second`, in nanoseconds.
abbrev pub retry_max : ℕ
retry_max = 30 * 1000000000

-- `retryBase * time.Duration(1<<min(ph.attempts, 6))`, at most `retryMax`.
unfoldable pub retry_delay : ℕ → ℕ
retry_delay attempts =
    let delay = retry_base * 2 ^ min attempts 6 in if ltb retry_max delay then retry_max else delay

module _ {State : Type 0} where
  -- The writes to a handshake that is tried again.
  unfoldable pub retried : ℕ → PendingHandshake State → PendingHandshake State
  retried now ph = record ph {
    attempts = suc ph.attempts;
    next_retry = now + retry_delay (suc ph.attempts);
  }

  -- The loop body, for one entry of `m.pending`.
  unfoldable pub retry_one :
      ℕ
      → Addr
      → ℕ
      → PendingHandshake State
      → HandshakeManager State
      → HandshakeManager State × List Datagram
  retry_one now vpn_ip r ph m =
      if ltb now ph.next_retry
      then (m, [])
      else if leb max_handshake_attempts ph.attempts
      then (leave vpn_ip ph.local_index m, [])
      else (write_pending r (retried now ph) m, (ph.stage0msg, ph.remote_addr) ∷ [])

  unfoldable pub retry_each :
      ℕ → Assoc Addr ℕ → HandshakeManager State → HandshakeManager State × List Datagram
  retry_each now [] m = (m, [])
  retry_each now ((vpn_ip, r) ∷ entries) m = elim (lookup r m.handshakes) [
    | none ↦ retry_each now entries m
    | some ph ↦
        let (next, sent) = retry_one now vpn_ip r ph m in
        let (last, more) = retry_each now entries next in (last, sent ++ more)
  ]

  -- retryPending
  unfoldable pub retry_pending : ℕ → HandshakeManager State → HandshakeManager State × List Datagram
  retry_pending now m = retry_each now m.pending m
