-- ===== src/Firewall/Verdict.antt =====
-- firewall/firewall.go: what AllowInbound and AllowOutbound decide, and what they leave behind.
use mathlib.Core.List.{Mem, mem-cons, not-mem-nil, mem-cons_self, mem-cons_of_mem}
use mathlib.Core.Logic.Or
use neth.Base.{
  ℕ, ◌≡◌, ◌≢◌, ◌⊎◌, inl, inr, refl, sym, ◌∙◌, subst, Bool, true, false, List, [], ◌∷◌, none, some,
  if◌then◌else◌, arith, Bool-cases, Option-cases,
}
use neth.Base.Assoc.{lookup}
use neth.Base.Text.{Text}
use neth.Net.{Addr, no_addr, contains}
use neth.Firewall.Rules.{Rule, proto_any}
use neth.Firewall.Tracking.{
  Conntrack, ConnKey, IsConntrack, conn_key, same_conn, track, is_established, is_established_lem,
  lookup-track, same_conn_iff, packet_key,
}
use neth.Firewall.{Firewall, matches, allow_inbound, allow_outbound}
use neth.Firewall.Laws.{allow_lem, matching, matches_iff}

-- The connection of a packet, as the table names it: the peer's address, the port and the protocol.
abbrev pub conn_of : Addr → ℕ → ℕ → ConnKey
conn_of ip port proto = record {
  src_ip = no_addr;
  dst_ip = ip;
  src_port = 0;
  dst_port = port;
  proto = proto;
}

-- A rule of the list accepts the packet: each field is a wildcard or fits.
abbrev pub Accepted : List Rule → Addr → List Text → ℕ → ℕ → Type 0
Accepted rules ip groups port proto =
    (r : Rule) × Mem r rules
    × ((r.proto ≡ proto_any) ⊎ (r.proto ≡ proto))
    × ((r.port_any ≡ true) ⊎ (r.port ≡ port))
    × ((r.group_any ≡ true) ⊎ Mem r.group groups)
    × ((r.cid_any ≡ true) ⊎ (contains r.cidr ip ≡ true))

-- The table has gained a connection at a time, or has it with a new time, and nothing else.
abbrev pub Entered : ConnKey → ℕ → Conntrack → Conntrack → Type 0
Entered k now old new =
    (j : ConnKey)
    → ((j ≡ k) × (lookup j new ≡ some now)) ⊎ ((j ≢ k) × (lookup j new ≡ lookup j old))

-- The three outcomes of a call: the connection is in the table, a rule accepts it, or none does.
abbrev pub Decided : List Rule → ℕ → Addr → List Text → ℕ → ℕ → Firewall → Firewall × Bool → Type 0
Decided rules now ip groups port proto f result =
    let k = conn_of ip port proto in
    ((t : ℕ) × (lookup k f.ct ≡ some t) × (result ≡ (f, true)))
    ⊎ (((lookup k f.ct ≡ none)
          × Accepted rules ip groups port proto
          × (result.1 ≡ true)
          × Entered k now f.ct result.0.ct
          × (result.0.inbound ≡ f.inbound)
          × (result.0.outbound ≡ f.outbound))
        ⊎ ((lookup k f.ct ≡ none)
            × (¬ Accepted rules ip groups port proto)
            × (result ≡ (f, false))))

matching-Accepted :
    (rules : List Rule) (ip : Addr) (groups : List Text) (port proto : ℕ)
    → matching rules ip groups port proto ≡ true
    → Accepted rules ip groups port proto
matching-Accepted [] ip groups port proto h = cc
matching-Accepted (r ∷ rules) ip groups port proto h =
    elim (Bool-cases (matches r ip groups port proto)) [
      | inl here ↦
          let (same_proto, same_port, same_group, same_cid) =
            (matches_iff r ip groups port proto).0 here in
          (r, mem-cons_self, same_proto, same_port, same_group, same_cid)
      | inr there ↦
          let (s, m, same_proto, same_port, same_group, same_cid) =
            matching-Accepted rules ip groups port proto (ground (arith, there, h)) in
          (s, mem-cons_of_mem r m, same_proto, same_port, same_group, same_cid)
    ]

Bool-set : IsSet Bool
Bool-set = hlevel

Accepted-matching :
    (rules : List Rule) (ip : Addr) (groups : List Text) (port proto : ℕ)
    → Accepted rules ip groups port proto
    → matching rules ip groups port proto ≡ true
Accepted-matching [] ip groups port proto (s, m, p, q, g, c) = absurd (not-mem-nil m)
Accepted-matching (r ∷ rules) ip groups port proto (s, m, p, q, g, c) =
    Or.elim (Bool-set _ _) (mem-cons.0 m)
      (λ here.
        let first : matches r ip groups port proto ≡ true =
          subst (λ (x : Rule). matches x ip groups port proto ≡ true) here
            ((matches_iff s ip groups port proto).1 (p, q, g, c)) in
        ground (arith, first))
      (λ there.
        let rest = Accepted-matching rules ip groups port proto (s, there, p, q, g, c) in
        ground (arith, rest))

entered : (k : ConnKey) (now : ℕ) (ct : Conntrack) → Entered k now ct (track now k ct)
entered k now ct j = elim (Bool-cases (same_conn k j)) [
  | inl same ↦
      inl (sym ((same_conn_iff k j).0 same), lookup-track now k j ct ∙ ground (arith, same))
  | inr other ↦ inr (
    λ e. absurd (ground (arith, other, (same_conn_iff k j).1 (sym e))),
    lookup-track now k j ct ∙ ground (arith, other),
  )
]

-- Both calls, given the list of rules that each consults.
decided :
    (rules : List Rule) (now : ℕ) (ip : Addr) (groups : List Text) (port proto : ℕ) (f : Firewall)
    → IsConntrack f.ct
    → Decided rules now ip groups port proto f (
        if is_established (packet_key ip port proto) f.ct
        then (f, true)
        else if matching rules ip groups port proto
        then (record f { ct = track now (packet_key ip port proto) f.ct }, true)
        else (f, false))
decided rules now ip groups port proto f is =
    let k = packet_key ip port proto in
    let known = is_established_lem ip port proto f.ct is in
    elim (Option-cases (lookup k f.ct)) [
      | inr (t, there) ↦ inl (t, there, ground (arith, known, there))
      | inl missing ↦
          let unknown : is_established k f.ct ≡ false = known ∙ ground (arith, missing) in
          elim (Bool-cases (matching rules ip groups port proto)) [
            | inl accepted ↦ inr (
                inl (
                  missing,
                  matching-Accepted rules ip groups port proto accepted,
                  rw (unknown, accepted) refl,
                  rw (unknown, accepted) (entered k now f.ct),
                  rw (unknown, accepted) refl,
                  rw (unknown, accepted) refl,
                ))
            | inr refused ↦ inr (
                inr (
                  missing,
                  λ a. let accepted = Accepted-matching rules ip groups port proto a in cc,
                  rw (unknown, refused) refl,
                ))
          ]
    ]

-- Both directions decide by the table first and then by their own rules. A packet whose connection
-- is in the table passes and changes nothing. Otherwise it passes exactly if a rule of that
-- direction accepts its protocol, port, groups and address: the connection is then in the table
-- with the time of the call, and nothing else changes. A packet that is refused changes nothing.
-- The table holds connections without a source, as the firewall makes them.
pub allow_decides :
    (now : ℕ) (ip : Addr) (groups : List Text) (port proto : ℕ) (f : Firewall)
    → IsConntrack f.ct
    → Decided f.inbound now ip groups port proto f (allow_inbound now ip groups port proto f)
      × Decided f.outbound now ip groups port proto f (allow_outbound now ip groups port proto f)
allow_decides now ip groups port proto f is =
    let (inwards, outwards) = allow_lem now ip groups port proto f in
    (
      subst (Decided f.inbound now ip groups port proto f) (sym inwards)
          (decided f.inbound now ip groups port proto f is),
      subst (Decided f.outbound now ip groups port proto f) (sym outwards)
          (decided f.outbound now ip groups port proto f is),
    )
