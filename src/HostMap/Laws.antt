-- ===== src/HostMap/Laws.antt =====
-- hostmap.go: the registry's invariant, and its lookups after `Add` and `Remove`.
use neth.Base.{
  ℕ, ◌≡◌, ◌≢◌, sym, ap, ◌∙◌, arith, Option, none, some, Option-cases, inl, inr, if◌then◌else◌, ◌==◌,
  nat_key, =?_refl,
}
use neth.Base.Assoc.{lookup, delete, lookup-delete}
use neth.Net.{Addr, addr_key, same_addr, same_addr_iff}
use neth.HostMap.{
  HostInfo, HostMap, new_host_map, add, get_by_vpn_ip, get_by_index, remove, write_host,
}
use neth.Base.Pointers.{Points, Points-add, Points-delete, Points-write, deref-add}

module _ {Aead Cert : Type 0} where
  abbrev vpn_ip_of : HostInfo Aead Cert → Addr
  vpn_ip_of h = h.vpn_ip

  abbrev index_of : HostInfo Aead Cert → ℕ
  index_of h = h.index

  -- Both maps refer to hosts of the store, each under the key that the host has.
  pub record IsHostMap (m : HostMap Aead Cert) : Type 0 where
    pub by_ip : Points (λ (h : HostInfo Aead Cert). h.vpn_ip) m.hosts m.next_ref m.by_vpn_ip
    pub by_idx : Points (λ (h : HostInfo Aead Cert). h.index) m.hosts m.next_ref m.by_index

  pub new_host_map-IsHostMap : IsHostMap new_host_map
  unfolding new_host_map lookup
  new_host_map-IsHostMap = record { by_ip = λ ip r e. cc; by_idx = λ idx r e. cc }

  pub add-IsHostMap :
      (h : HostInfo Aead Cert) (m : HostMap Aead Cert) → IsHostMap m → IsHostMap (add h m)
  unfolding add
  add-IsHostMap h m is = record {
    by_ip = Points-add vpn_ip_of h m.hosts m.next_ref m.by_vpn_ip is.by_ip;
    by_idx = Points-add index_of h m.hosts m.next_ref m.by_index is.by_idx;
  }

  Points-remove :
      (m : HostMap Aead Cert) (o : Option (ℕ × HostInfo Aead Cert))
      → IsHostMap m
      → Points index_of m.hosts m.next_ref
          (elim o [ none ↦ m.by_index | some (r, h) ↦ delete h.index m.by_index ])
  Points-remove m none is = is.by_idx
  Points-remove m (some (r, h)) is =
      Points-delete index_of m.hosts m.next_ref m.by_index h.index is.by_idx

  pub remove-IsHostMap : (ip : Addr) (m : HostMap Aead Cert) → IsHostMap m → IsHostMap (remove ip m)
  unfolding remove
  remove-IsHostMap ip m is = record {
    by_ip = Points-delete vpn_ip_of m.hosts m.next_ref m.by_vpn_ip ip is.by_ip;
    by_idx = Points-remove m (get_by_vpn_ip ip m) is;
  }

  pub write_host-IsHostMap :
      (r : ℕ) (old h : HostInfo Aead Cert) (m : HostMap Aead Cert)
      → lookup r m.hosts ≡ some old
      → h.vpn_ip ≡ old.vpn_ip
      → h.index ≡ old.index
      → IsHostMap m
      → IsHostMap (write_host r h m)
  unfolding write_host
  write_host-IsHostMap r old h m found ip idx is = record {
    by_ip = Points-write vpn_ip_of r old h m.hosts m.next_ref m.by_vpn_ip found ip is.by_ip;
    by_idx = Points-write index_of r old h m.hosts m.next_ref m.by_index found idx is.by_idx;
  }

  -- After `Add` in a consistent registry, the new host is found under its VPN IP and its index,
  -- and every lookup under another key gives what it gave before.
  pub get-add :
      (h : HostInfo Aead Cert) (m : HostMap Aead Cert) (ip : Addr) (idx : ℕ)
      → IsHostMap m
      → (get_by_vpn_ip ip (add h m)
          ≡ (if same_addr h.vpn_ip ip then some (m.next_ref, h) else get_by_vpn_ip ip m))
        × (get_by_index idx (add h m)
            ≡ (if h.index == idx then some (m.next_ref, h) else get_by_index idx m))
  unfolding add get_by_vpn_ip get_by_index
  get-add h m ip idx is = (
    deref-add vpn_ip_of h m.hosts m.next_ref m.by_vpn_ip ip is.by_ip,
    deref-add index_of h m.hosts m.next_ref m.by_index idx is.by_idx,
  )

  get_by_vpn_ip-remove :
      (ip jp : Addr) (m : HostMap Aead Cert)
      → get_by_vpn_ip jp (remove ip m) ≡ (if same_addr ip jp then none else get_by_vpn_ip jp m)
  unfolding remove get_by_vpn_ip
  get_by_vpn_ip-remove ip jp m = ground (arith, lookup-delete ip jp m.by_vpn_ip)

  get_by_index-remove :
      (ip : Addr) (r : ℕ) (h : HostInfo Aead Cert) (m : HostMap Aead Cert) (idx : ℕ)
      → get_by_vpn_ip ip m ≡ some (r, h)
      → get_by_index idx (remove ip m) ≡ (if h.index == idx then none else get_by_index idx m)
  unfolding remove get_by_index
  get_by_index-remove ip r h m idx found =
      rw (found, remove) (ground (arith, lookup-delete h.index idx m.by_index))

  get_by_index-remove-none :
      (ip : Addr) (m : HostMap Aead Cert) (idx : ℕ)
      → get_by_vpn_ip ip m ≡ none
      → get_by_index idx (remove ip m) ≡ get_by_index idx m
  unfolding remove get_by_index
  get_by_index-remove-none ip m idx missing = rw (missing, remove)

  -- After `Remove` of a VPN IP that has a host, the VPN IP leads nowhere, and so does the index of
  -- that host; every other lookup gives what it gave before.
  pub get-remove :
      (ip jp : Addr) (r : ℕ) (h : HostInfo Aead Cert) (m : HostMap Aead Cert) (idx : ℕ)
      → get_by_vpn_ip ip m ≡ some (r, h)
      → (get_by_vpn_ip jp (remove ip m) ≡ (if same_addr ip jp then none else get_by_vpn_ip jp m))
        × (get_by_index idx (remove ip m) ≡ (if h.index == idx then none else get_by_index idx m))
  get-remove ip jp r h m idx found =
      (get_by_vpn_ip-remove ip jp m, get_by_index-remove ip r h m idx found)

  -- In a consistent registry, adding a second session for a VPN IP under another index leaves the
  -- first session reachable by its index, and `Remove` of the VPN IP leaves it there too.
  pub get_by_index-remove-add :
      (first second : HostInfo Aead Cert) (m : HostMap Aead Cert)
      → IsHostMap m
      → first.vpn_ip ≡ second.vpn_ip
      → first.index ≢ second.index
      → get_by_index first.index (remove second.vpn_ip (add second (add first m)))
        ≡ some (m.next_ref, first)
  get_by_index-remove-add first second m is same other =
      let one = add first m in
      let one_is = add-IsHostMap first m is in
      let added = get-add second one second.vpn_ip first.index one_is in
      let before = get-add first m first.vpn_ip first.index is in
      get_by_index-remove second.vpn_ip one.next_ref second (add second one) first.index
        (added.0 ∙ rw (=?_refl second.vpn_ip))
      ∙ ground (arith, added.1, before.1)

  -- Each host that an index leads to is the one that its VPN IP leads to.
  abbrev pub Coherent : HostMap Aead Cert → Type 0
  Coherent m =
      (idx r : ℕ) (h : HostInfo Aead Cert)
      → get_by_index idx m ≡ some (r, h)
      → get_by_vpn_ip h.vpn_ip m ≡ some (r, h)

  -- `Add` keeps the two maps coherent if the VPN IP has no session yet.
  pub add-Coherent :
      (h : HostInfo Aead Cert) (m : HostMap Aead Cert)
      → IsHostMap m
      → get_by_vpn_ip h.vpn_ip m ≡ none
      → Coherent m
      → Coherent (add h m)
  add-Coherent h m is free co idx r g found =
      let added = get-add h m g.vpn_ip idx is in
      ground (arith, added.0, added.1, same_addr_iff h.vpn_ip g.vpn_ip, co idx r g)

  index_of-get :
      (m : HostMap Aead Cert) (idx r : ℕ) (h : HostInfo Aead Cert)
      → IsHostMap m
      → get_by_index idx m ≡ some (r, h)
      → h.index ≡ idx
  unfolding get_by_index
  index_of-get m idx r h is found = elim (Option-cases (lookup idx m.by_index)) [
    | inl missing ↦ ground arith
    | inr (q, here) ↦
        let (old, stands, keyed, _) = is.by_idx idx q here in ground (arith, stands, keyed)
  ]

  -- In a consistent and coherent registry, after `Remove` no index leads to a host with the VPN IP.
  pub remove-ends_sessions :
      (ip : Addr) (m : HostMap Aead Cert) (idx r : ℕ) (h : HostInfo Aead Cert)
      → IsHostMap m
      → Coherent m
      → get_by_index idx (remove ip m) ≡ some (r, h)
      → h.vpn_ip ≢ ip
  remove-ends_sessions ip m idx r h is co found same = elim (Option-cases (get_by_vpn_ip ip m)) [
    | inl missing ↦
        let before = sym (get_by_index-remove-none ip m idx missing) ∙ found in
        ground (arith, co idx r h before, ap (λ (a : Addr). get_by_vpn_ip a m) same)
    | inr ((q, old), here) ↦
        let after = get_by_index-remove ip q old m idx here in
        ground (
          arith,
          after,
          co idx r h,
          index_of-get m idx r h is,
          ap (λ (a : Addr). get_by_vpn_ip a m) same,
        )
  ]
