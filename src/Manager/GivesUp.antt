-- ===== src/Manager/GivesUp.antt =====
-- handshake_manager.go: a handshake that is not answered, over the ticks of Run.
use Prim.Native.Nat.pow
use neth.Base.{◌-◌, ℕ, zero, suc, ◌+◌, ◌≤◌, ◌≡◌, replicate, some, nat_key, List, [], ◌∷◌, ◌++◌}
use neth.Base.Assoc.{lookup}
use neth.Net.{Addr, addr_key}
use neth.Punchy.{Datagram}
use neth.Manager.{PendingHandshake, HandshakeManager}
use neth.Manager.Retry.{retry_delay, retry_pending}

-- The ticks of a ticker: each comes after the one before, by at most the gap.
abbrev pub Steady : ℕ → ℕ → List ℕ → Type 0
Steady prev gap [] = Unit
Steady prev gap (now ∷ ticks) = (prev ≤ now) × ((now ≤ prev + gap) × Steady now gap ticks)

-- The last tick, or the one before the first.
abbrev pub last_tick : ℕ → List ℕ → ℕ
last_tick prev [] = prev
last_tick prev (now ∷ ticks) = last_tick now ticks

-- The delays that are still to come when that many attempts are left.
delays_left : ℕ → ℕ
delays_left zero = 0
delays_left (suc left) = retry_delay (10 - left) + delays_left left

-- How late the last of them can be, when each tick is late by less than the gap.
late_by : ℕ → ℕ → ℕ
late_by gap zero = gap
late_by gap (suc left) = gap + late_by gap left

module _ {State : Type 0} where
  -- The ticks of `Run`, one after another.
  pub retries : List ℕ → HandshakeManager State → HandshakeManager State × List Datagram
  retries [] m = (m, [])
  retries (now ∷ ticks) m =
      let (next, sent) = retry_pending now m in
      let (last, more) = retries ticks next in (last, sent ++ more)

  -- One handshake is pending, and nothing else.
  abbrev pub Alone : Addr → ℕ → PendingHandshake State → HandshakeManager State → Type 0
  Alone ip r ph m = (m.pending ≡ (ip, r) ∷ []) × (lookup r m.handshakes ≡ some ph)

  -- A message to one address, as many times as attempts are left.
  abbrev pub resent : ℕ → PendingHandshake State → List Datagram
  resent left ph = replicate left (ph.stage0msg, ph.remote_addr)

  -- The handshake is pending up to some tick, which comes in the given bounds and drops it; it stays
  -- dropped, and the ticks have sent the given datagrams.
  pub record GivesUp (ticks : List ℕ) (ip : Addr) (r : ℕ) (m : HandshakeManager State)
      (earliest latest : ℕ) (sent : List Datagram) : Type 0 where
    pub before : List ℕ
    pub drop_time : ℕ
    pub after : List ℕ
    pub is_split : ticks ≡ before ++ drop_time ∷ after
    pub still_pending : (retries before m).0.pending ≡ (ip, r) ∷ []
    pub not_before : earliest ≤ drop_time
    pub not_after : drop_time ≤ latest
    pub is_dropped : (retries (before ++ drop_time ∷ []) m).0.pending ≡ []
    pub stays_dropped : (retries ticks m).0.pending ≡ []
    pub has_sent : (retries ticks m).1 ≡ sent
