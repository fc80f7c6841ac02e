-- ===== src/Manager/Expiry.antt =====
-- handshake_manager.go: the ticks of Run.
use neth.Base.{
  ℕ, ◌≡◌, refl, ◌∙◌, arith, some, false, Option-cases, inl, inr, nat_key, [], ◌∷◌, =?_refl,
}
use neth.Base.Assoc.{Assoc, lookup, lookup-delete, Distinct}
use neth.Net.{Addr, addr_key, same_addr, same_addr_iff}
use neth.Manager.{PendingHandshake, HandshakeManager, leave, write_pending}
use neth.Manager.Invariant.{IsManager}
use neth.Manager.Laws.{retry_one-IsManager}
use neth.Manager.Retry.{retry_one, retry_each, retry_pending}

module _ {State : Type 0} where
  -- The step for one peer leaves the other peers' entries.
  pending-retry_one :
      (now : ℕ) (ip : Addr) (r : ℕ) (ph : PendingHandshake State) (m : HandshakeManager State)
      (j : Addr)
      → same_addr ip j ≡ false
      → lookup j (retry_one now ip r ph m).0.pending ≡ lookup j m.pending
  unfolding retry_one leave write_pending
  pending-retry_one now ip r ph m j other = ground (arith, other, lookup-delete ip j m.pending)

  retry_each-IsManager :
      (now : ℕ) (entries : Assoc Addr ℕ) (m : HandshakeManager State)
      → Distinct entries
      → ((j : Addr) (q : ℕ) → lookup j entries ≡ some q → lookup j m.pending ≡ some q)
      → IsManager m
      → IsManager (retry_each now entries m).0
  unfolding retry_each lookup
  retry_each-IsManager now [] m d within is = is
  retry_each-IsManager now ((ip, r) ∷ entries) m d within is =
      let rest_within : (j : Addr) (q : ℕ) → lookup j entries ≡ some q → same_addr ip j ≡ false =
        λ j q e. ground (arith, e, d.0, same_addr_iff ip j) in
      elim (Option-cases (lookup r m.handshakes)) [
        | inl missing ↦
            rw (retry_each, missing)
              (retry_each-IsManager now entries m d.1
                (λ j q e. within j q (rw (rest_within j q e) e)) is)
        | inr (ph, stands) ↦
            let next = (retry_one now ip r ph m).0 in
            rw (retry_each, stands)
              (retry_each-IsManager now entries next d.1
                (λ j q e.
                  pending-retry_one now ip r ph m j (rest_within j q e)
                  ∙ within j q (rw (rest_within j q e) e))
                (retry_one-IsManager now ip r ph m is stands (within ip r (rw (=?_refl ip) refl))))
      ]

  pub retry_pending-IsManager :
      (now : ℕ) (m : HandshakeManager State) → IsManager m → IsManager (retry_pending now m).0
  unfolding retry_pending
  retry_pending-IsManager now m is =
      retry_each-IsManager now m.pending m is.distinct (λ j q e. e) is
