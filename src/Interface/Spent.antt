-- ===== src/Interface/Spent.antt =====
-- A session object and a counter that it has accepted, through every operation of the interface.
use neth.Base.{
  ℕ, ◌<◌, ◌≡◌, ◌⊎◌, inl, inr, sym, subst, arith, some, ◌==◌, nat_key, Bool-cases, ==_iff,
}
use neth.Base.Assoc.{lookup, lookup-insert}
use neth.Net.{Addr, addr_key}
use neth.Replay.{ReplayWindow, check_replay}
use neth.Replay.Shift.{IsWindow}
use neth.Replay.Check.{check_replay-IsWindow}
use neth.Replay.History.{Spent, check_replay-Spent}
use neth.HostMap.{HostInfo, HostMap, add, remove, write_host}

-- A window is left alone, or a counter is checked against it.
abbrev pub Follows : ReplayWindow → ReplayWindow → Type 0
Follows old new = (new ≡ old) ⊎ ((d : ℕ) × (new ≡ (check_replay old d).0))

kept_window :
    (c : ℕ) (old new : ReplayWindow)
    → Follows old new
    → IsWindow old.window
    → Spent old c
    → IsWindow new.window × Spent new c
kept_window c old new (inl same) window spent = (
  subst (λ (x : ReplayWindow). IsWindow x.window) (sym same) window,
  subst (λ (x : ReplayWindow). Spent x c) (sym same) spent,
)
kept_window c old new (inr (d, next)) window spent = (
  subst (λ (x : ReplayWindow). IsWindow x.window) (sym next) (check_replay-IsWindow old d window),
  subst (λ (x : ReplayWindow). Spent x c) (sym next) (check_replay-Spent old c d window spent),
)

module _ {Cipher Cert : Type 0} (r c : ℕ) where
  -- The object `r` has accepted the counter `c`, or is past it.
  pub record IsSpent (m : HostMap Cipher Cert) : Type 0 where
    pub older : r < m.next_ref
    pub host : HostInfo Cipher Cert
    pub is_there : lookup r m.hosts ≡ some host
    pub is_window : IsWindow host.replay.window
    pub is_spent : Spent host.replay c

  pub add-IsSpent :
      (h : HostInfo Cipher Cert) (m : HostMap Cipher Cert) → IsSpent m → IsSpent (add h m)
  unfolding add
  add-IsSpent h m s = record {
    older = omega (arith, s.older);
    host = s.host;
    is_there = ground (arith, lookup-insert m.next_ref r h m.hosts, s.older, s.is_there);
    is_window = s.is_window;
    is_spent = s.is_spent;
  }

  pub remove-IsSpent : (ip : Addr) (m : HostMap Cipher Cert) → IsSpent m → IsSpent (remove ip m)
  unfolding remove
  remove-IsSpent ip m s = record {
    older = s.older;
    host = s.host;
    is_there = s.is_there;
    is_window = s.is_window;
    is_spent = s.is_spent;
  }

  -- A write to another object.
  pub write_other-IsSpent :
      (q : ℕ) (h : HostInfo Cipher Cert) (m : HostMap Cipher Cert)
      → r < q
      → IsSpent m
      → IsSpent (write_host q h m)
  unfolding write_host
  write_other-IsSpent q h m differ s = record {
    older = s.older;
    host = s.host;
    is_there = ground (arith, lookup-insert q r h m.hosts, differ, s.is_there);
    is_window = s.is_window;
    is_spent = s.is_spent;
  }

  -- A write that leaves an object's window alone, or checks a counter against it.
  pub write_host-IsSpent :
      (q : ℕ) (old h : HostInfo Cipher Cert) (m : HostMap Cipher Cert)
      → lookup q m.hosts ≡ some old
      → Follows old.replay h.replay
      → IsSpent m
      → IsSpent (write_host q h m)
  unfolding write_host
  write_host-IsSpent q old h m found kept s = elim (Bool-cases (q == r)) [
    | inr miss ↦ record {
      older = s.older;
      host = s.host;
      is_there = ground (arith, lookup-insert q r h m.hosts, s.is_there);
      is_window = s.is_window;
      is_spent = s.is_spent;
    }
    | inl hit ↦
        let here : q ≡ r = (==_iff q r).0 hit in
        let same : old ≡ s.host = cc in
        let (window, spent) =
          kept_window c old.replay h.replay kept
            (subst (λ (x : HostInfo Cipher Cert). IsWindow x.replay.window) (sym same) s.is_window)
            (subst (λ (x : HostInfo Cipher Cert). Spent x.replay c) (sym same) s.is_spent) in
        record {
          older = s.older;
          host = h;
          is_there = ground (arith, lookup-insert q r h m.hosts);
          is_window = window;
          is_spent = spent;
        }
  ]
