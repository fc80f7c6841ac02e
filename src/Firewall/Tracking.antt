-- ===== src/Firewall/Tracking.antt =====
-- firewall/conntrack.go: the table of connections with the time each was last tracked.
-- Times and timeouts are numbers of nanoseconds; the clock's reading is an argument.
use neth.Base.{
  ℕ, ◌+◌, ◌≡◌, ◌↔◌, Bool, true, false, not, ◌&&◌, ◌||◌, [], Option, none, some, if◌then◌else◌, ◌==◌,
  ltb, leb, Key, arith, Option-cases, inl, inr, ◌∙◌,
}
use neth.Base.Assoc.{
  Assoc, lookup, insert, retain, Distinct, lookup-insert, lookup-retain, Distinct-insert,
  Distinct-retain,
}
use neth.Net.{Addr, no_addr, addr_key, same_addr, same_addr_iff}
use neth.Firewall.Rules.{proto_tcp, proto_udp}

pub record ConnKey : Type 0 where
  pub src_ip : Addr
  pub dst_ip : Addr
  pub src_port : ℕ
  pub dst_port : ℕ
  pub proto : ℕ

abbrev pub same_conn : ConnKey → ConnKey → Bool
same_conn a b =
    same_addr a.src_ip b.src_ip
    && (same_addr a.dst_ip b.dst_ip
        && (a.src_port == b.src_port && (a.dst_port == b.dst_port && a.proto == b.proto)))

pub same_conn_iff : (a b : ConnKey) → (same_conn a b ≡ true) ↔ (a ≡ b)
same_conn_iff a b = ground (arith, same_addr_iff a.src_ip b.src_ip, same_addr_iff a.dst_ip b.dst_ip)

instance abbrev pub conn_key : Key ConnKey
conn_key = record { same = same_conn; same_iff = same_conn_iff }

unfoldable pub reversed : ConnKey → ConnKey
reversed k = record {
  src_ip = k.dst_ip;
  dst_ip = k.src_ip;
  src_port = k.dst_port;
  dst_port = k.src_port;
  proto = k.proto;
}

-- The key under which the firewall tracks a packet, in both directions: the source is unknown.
abbrev pub packet_key : Addr → ℕ → ℕ → ConnKey
packet_key ip port proto = record {
  src_ip = no_addr;
  dst_ip = ip;
  src_port = 0;
  dst_port = port;
  proto = proto;
}

-- The map `seen`.
abbrev pub Conntrack : Type 0
Conntrack = Assoc ConnKey ℕ

abbrev pub new_conntrack : Conntrack
new_conntrack = []

unfoldable pub track : ℕ → ConnKey → Conntrack → Conntrack
track now k ct = insert k now ct

abbrev pub is_some {ℓ} : {A : Type ℓ} → Option A → Bool
is_some none = false
is_some (some a) = true

unfoldable pub is_established : ConnKey → Conntrack → Bool
is_established k ct = is_some (lookup k ct) || is_some (lookup (reversed k) ct)

-- The timeout of a protocol.
abbrev pub ttl_of : ℕ → ℕ → ℕ → ℕ → ℕ
ttl_of tcp_timeout udp_timeout default_timeout proto =
    if proto == proto_tcp
    then tcp_timeout
    else if proto == proto_udp
    then udp_timeout
    else default_timeout

-- Expire: `now.Sub(last) >= ttl` deletes the entry.
unfoldable pub expire : ℕ → ℕ → ℕ → ℕ → Conntrack → Conntrack
expire tcp_timeout udp_timeout default_timeout now ct =
    retain (λ k last. not (leb (last + ttl_of tcp_timeout udp_timeout default_timeout k.proto) now))
      ct

-- An entry survives exactly if its protocol's timeout has not passed since its time.
pub lookup-expire :
    (tcp udp other now : ℕ) (k : ConnKey) (ct : Conntrack)
    → Distinct ct
    → lookup k (expire tcp udp other now ct) ≡ elim (lookup k ct) [
      | none ↦ none
      | some last ↦ (if ltb now (last + ttl_of tcp udp other k.proto) then some last else none)
    ]
unfolding expire
lookup-expire tcp udp other now k ct d =
    lookup-retain (λ k last. not (leb (last + ttl_of tcp udp other k.proto) now)) k ct d
    ∙ ground arith

pub lookup-track :
    (now : ℕ) (k j : ConnKey) (ct : Conntrack)
    → lookup j (track now k ct) ≡ (if same_conn k j then some now else lookup j ct)
unfolding track
lookup-track now k j ct = lookup-insert k j now ct

-- Every tracked key has no source: that is how the firewall makes them.
pub record IsConntrack (ct : Conntrack) : Type 0 where
  pub distinct : Distinct ct
  pub no_source :
      (k : ConnKey) {t : ℕ} → lookup k ct ≡ some t → (k.src_ip ≡ no_addr) × (k.src_port ≡ 0)

pub new_conntrack-IsConntrack : IsConntrack new_conntrack
unfolding lookup
new_conntrack-IsConntrack = record { distinct = tt; no_source = λ k e. cc }

pub track-IsConntrack :
    (now : ℕ) (k : ConnKey) (ct : Conntrack)
    → k.src_ip ≡ no_addr
    → k.src_port ≡ 0
    → IsConntrack ct
    → IsConntrack (track now k ct)
track-IsConntrack now k ct ip port is = record {
  distinct = unfold track in Distinct-insert k now ct is.distinct;
  no_source =
      λ j {t} e. ground (arith, lookup-track now k j ct, same_conn_iff k j, is.no_source j {t = t});
}

pub expire-IsConntrack :
    (tcp udp other now : ℕ) (ct : Conntrack)
    → IsConntrack ct
    → IsConntrack (expire tcp udp other now ct)
expire-IsConntrack tcp udp other now ct is = record {
  distinct = unfold expire in Distinct-retain _ ct is.distinct;
  no_source = λ k {t} e.
      ground (arith, lookup-expire tcp udp other now k ct is.distinct, is.no_source k {t = t});
}

-- With no source in any key the reverse direction adds nothing.
pub is_established_lem :
    (ip : Addr) (port proto : ℕ) (ct : Conntrack)
    → IsConntrack ct
    → is_established (packet_key ip port proto) ct ≡ is_some (lookup (packet_key ip port proto) ct)
unfolding is_established reversed
is_established_lem ip port proto ct is =
    let back : ConnKey = reversed (packet_key ip port proto) in
    elim (Option-cases (lookup back ct)) [
      | inl none_back ↦ ground (arith, none_back)
      | inr (t, some_back) ↦
          let (ip_none, port_none) = is.no_source back {t = t} some_back in
          rw (ip_none, port_none) (ground arith)
    ]
