-- ===== src/Manager/Invariant.antt =====
-- The manager's invariant: both maps refer to the handshakes with their key, and what the index map
-- refers to is pending.
use neth.Base.{
  ℕ, ◌≡◌, ap, subst, ◌∙◌, arith, none, some, false, Bool-cases, inl, inr, ◌==◌, ==_iff, nat_key,
  List,
}
use neth.Base.Assoc.{
  lookup, insert, lookup-insert, lookup-insert_self, lookup-delete, Distinct, Distinct-insert,
  Distinct-delete,
}
use neth.Base.Pointers.{Points, Points-add, Points-delete, Points-write}
use neth.Net.{Addr, addr_key, same_addr, same_addr_iff}
use neth.Cert.{Certificate}
use neth.Noise.{DhKey}
use neth.Manager.{
  PendingHandshake, HandshakeManager, new_handshake_manager, enter, leave, write_pending,
}

module _ {State : Type 0} where
  abbrev pub ip_of : PendingHandshake State → Addr
  ip_of ph = ph.remote_vpn_ip

  abbrev pub index_of : PendingHandshake State → ℕ
  index_of ph = ph.local_index

  -- What an index leads to is pending under its VPN IP.
  abbrev pub Indexed : HandshakeManager State → Type 0
  Indexed m =
      (idx r : ℕ) (ph : PendingHandshake State)
      → lookup idx m.index_map ≡ some r
      → lookup r m.handshakes ≡ some ph
      → lookup (ph.remote_vpn_ip) m.pending ≡ some r

  pub record IsManager (m : HandshakeManager State) : Type 0 where
    pub by_ip :
        Points (λ (ph : PendingHandshake State). ph.remote_vpn_ip) m.handshakes m.next_ref m.pending
    pub by_idx :
        Points (λ (ph : PendingHandshake State). ph.local_index) m.handshakes m.next_ref m.index_map
    pub indexed : Indexed m
    pub distinct : Distinct m.pending

  pub new_handshake_manager-IsManager :
      (cert : Certificate) (key : DhKey) (pool : List Certificate)
      → IsManager (new_handshake_manager cert key pool)
  unfolding new_handshake_manager lookup
  new_handshake_manager-IsManager cert key pool = record {
    by_ip = λ ip r e. cc;
    by_idx = λ idx r e. cc;
    indexed = λ idx r ph e f. cc;
    distinct = tt;
  }

  enter-Indexed :
      (ph : PendingHandshake State) (m : HandshakeManager State)
      → lookup ph.remote_vpn_ip m.pending ≡ none
      → IsManager m
      → Indexed (enter ph.remote_vpn_ip ph m)
  unfolding enter
  enter-Indexed ph m free is idx r qh e f = elim (Bool-cases (ph.local_index == idx)) [
    | inl hit ↦
        let here : m.next_ref ≡ r =
          ground (arith, lookup-insert ph.local_index idx m.next_ref m.index_map) in
        let it : ph ≡ qh = ground (arith, lookup-insert m.next_ref r ph m.handshakes) in
        subst
          (λ (x : PendingHandshake State).
            lookup x.remote_vpn_ip (insert ph.remote_vpn_ip m.next_ref m.pending) ≡ some r)
          it (lookup-insert_self ph.remote_vpn_ip m.next_ref m.pending ∙ ap some here)
    | inr miss ↦
        let old : lookup idx m.index_map ≡ some r =
          ground (arith, lookup-insert ph.local_index idx m.next_ref m.index_map) in
        let (was, stands, keyed, lt) = is.by_idx idx r old in
        let kept : lookup r m.handshakes ≡ some qh =
          ground (arith, lookup-insert m.next_ref r ph m.handshakes) in
        let there = is.indexed idx r qh old kept in
        ground (
          arith,
          lookup-insert ph.remote_vpn_ip qh.remote_vpn_ip m.next_ref m.pending,
          same_addr_iff ph.remote_vpn_ip qh.remote_vpn_ip,
        )
  ]

  pub enter-IsManager :
      (ph : PendingHandshake State) (m : HandshakeManager State)
      → lookup ph.remote_vpn_ip m.pending ≡ none
      → IsManager m
      → IsManager (enter ph.remote_vpn_ip ph m)
  unfolding enter
  enter-IsManager ph m free is = record {
    by_ip = Points-add ip_of ph m.handshakes m.next_ref m.pending is.by_ip;
    by_idx = Points-add index_of ph m.handshakes m.next_ref m.index_map is.by_idx;
    indexed = enter-Indexed ph m free is;
    distinct = Distinct-insert ph.remote_vpn_ip m.next_ref m.pending is.distinct;
  }

  leave-Indexed :
      (r : ℕ) (ph : PendingHandshake State) (m : HandshakeManager State)
      → lookup ph.remote_vpn_ip m.pending ≡ some r
      → lookup r m.handshakes ≡ some ph
      → IsManager m
      → Indexed (leave ph.remote_vpn_ip ph.local_index m)
  unfolding leave
  leave-Indexed r ph m at_ip stands is idx q qh e f =
      let old : lookup idx m.index_map ≡ some q =
        ground (arith, lookup-delete ph.local_index idx m.index_map) in
      let other : (ph.local_index == idx) ≡ false =
        ground (arith, lookup-delete ph.local_index idx m.index_map) in
      let there = is.indexed idx q qh old f in
      let (was, was_there, keyed, lt) = is.by_idx idx q old in
      elim (Bool-cases (same_addr ph.remote_vpn_ip qh.remote_vpn_ip)) [
        | inl hit ↦
            let ip : ph.remote_vpn_ip ≡ qh.remote_vpn_ip = (same_addr_iff _ _).0 hit in
            let at_qh : lookup qh.remote_vpn_ip m.pending ≡ some r =
              subst (λ a. lookup a m.pending ≡ some r) ip at_ip in
            let ref : r ≡ q = ground (arith, at_qh, there) in
            let was_ph : lookup q m.handshakes ≡ some ph =
              subst (λ x. lookup x m.handshakes ≡ some ph) ref stands in
            let it : ph ≡ was = ground (arith, was_ph, was_there) in
            let idx_same : ph.local_index ≡ idx = cc in absurd (ground (arith, other, idx_same))
        | inr miss ↦ rw (lookup-delete ph.remote_vpn_ip qh.remote_vpn_ip m.pending, miss) there
      ]

  pub leave-IsManager :
      (r : ℕ) (ph : PendingHandshake State) (m : HandshakeManager State)
      → lookup ph.remote_vpn_ip m.pending ≡ some r
      → lookup r m.handshakes ≡ some ph
      → IsManager m
      → IsManager (leave ph.remote_vpn_ip ph.local_index m)
  unfolding leave
  leave-IsManager r ph m at_ip stands is = record {
    by_ip = Points-delete ip_of m.handshakes m.next_ref m.pending ph.remote_vpn_ip is.by_ip;
    by_idx = Points-delete index_of m.handshakes m.next_ref m.index_map ph.local_index is.by_idx;
    indexed = leave-Indexed r ph m at_ip stands is;
    distinct = Distinct-delete ph.remote_vpn_ip m.pending is.distinct;
  }

  write_pending-Indexed :
      (r : ℕ) (old ph : PendingHandshake State) (m : HandshakeManager State)
      → lookup r m.handshakes ≡ some old
      → ph.remote_vpn_ip ≡ old.remote_vpn_ip
      → IsManager m
      → Indexed (write_pending r ph m)
  unfolding write_pending
  write_pending-Indexed r old ph m found ip is idx q qh e f = elim (Bool-cases (r == q)) [
    | inl hit ↦
        let ref : r ≡ q = (==_iff r q).0 hit in
        let it : ph ≡ qh = ground (arith, lookup-insert r q ph m.handshakes) in
        let was : lookup q m.handshakes ≡ some old =
          subst (λ x. lookup x m.handshakes ≡ some old) ref found in
        let same_ip : old.remote_vpn_ip ≡ qh.remote_vpn_ip = cc in
        subst (λ a. lookup a m.pending ≡ some q) same_ip (is.indexed idx q old e was)
    | inr miss ↦ is.indexed idx q qh e (ground (arith, lookup-insert r q ph m.handshakes))
  ]

  pub write_pending-IsManager :
      (r : ℕ) (old ph : PendingHandshake State) (m : HandshakeManager State)
      → lookup r m.handshakes ≡ some old
      → ph.remote_vpn_ip ≡ old.remote_vpn_ip
      → ph.local_index ≡ old.local_index
      → IsManager m
      → IsManager (write_pending r ph m)
  unfolding write_pending
  write_pending-IsManager r old ph m found ip idx is = record {
    by_ip = Points-write ip_of r old ph m.handshakes m.next_ref m.pending found ip is.by_ip;
    by_idx = Points-write index_of r old ph m.handshakes m.next_ref m.index_map found idx is.by_idx;
    indexed = write_pending-Indexed r old ph m found ip is;
    distinct = is.distinct;
  }
