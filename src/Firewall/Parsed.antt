-- ===== src/Firewall/Parsed.antt =====
-- What a rule of the configuration means once ParseRule has compiled it.
use mathlib.Core.List.{Mem}
use neth.Base.{
  ℕ, ◌≡◌, ◌↔◌, ◌⊎◌, inl, inr, refl, sym, subst, ◌∙◌, Bool, true, false, List, Option, some,
  bytes_key, same_bytes_iff, arith, Bool-cases, Option-cases, ok, >>=-eq-ok, ok_injective,
}
use neth.Base.Text.{Text, text, to_lower, trim_space, parse_uint16}
use neth.Net.{Addr, Prefix, contains, masked, contains-masked}
use neth.Firewall.{matches}
use neth.Firewall.Rules.{
  FirewallRule, Rule, is_any, proto_any, proto_icmp, proto_tcp, proto_udp, parse_proto, parse_port,
  parse_group, parse_cidr, parse_rule,
}
use neth.Firewall.Laws.{matches_iff}

-- The numbers of the three names of protocols.
abbrev pub Names : Text → ℕ → Type 0
Names word proto =
    ((word ≡ text "tcp") × (proto_tcp ≡ proto))
    ⊎ (((word ≡ text "udp") × (proto_udp ≡ proto)) ⊎ ((word ≡ text "icmp") × (proto_icmp ≡ proto)))

parse_proto_iff :
    (s : Text) (q proto : ℕ)
    → parse_proto s ≡ ok q
    → ((q ≡ proto_any) ⊎ (q ≡ proto))
      ↔ ((is_any (to_lower (trim_space s)) ≡ true) ⊎ Names (to_lower (trim_space s)) proto)
unfolding parse_proto
parse_proto_iff s q proto h = (
  ground (
    arith,
    h,
    same_bytes_iff (to_lower (trim_space s)) (text "tcp"),
    same_bytes_iff (to_lower (trim_space s)) (text "udp"),
    same_bytes_iff (to_lower (trim_space s)) (text "icmp"),
  ),
  ground (
    arith,
    h,
    same_bytes_iff (to_lower (trim_space s)) (text "tcp"),
    same_bytes_iff (to_lower (trim_space s)) (text "udp"),
    same_bytes_iff (to_lower (trim_space s)) (text "icmp"),
  ),
)

parse_port_iff :
    (s : Text) (p : Bool × ℕ) (port : ℕ)
    → parse_port s ≡ ok p
    → ((p.0 ≡ true) ⊎ (p.1 ≡ port))
      ↔ ((is_any (to_lower (trim_space s)) ≡ true) ⊎ (parse_uint16 s ≡ some port))
unfolding parse_port
parse_port_iff s p port h = (ground (arith, h), ground (arith, h))

parse_group_iff :
    (s : Text) (groups : List Text)
    → (((parse_group s).0 ≡ true) ⊎ Mem (parse_group s).1 groups)
      ↔ ((is_any (trim_space s) ≡ true) ⊎ Mem s groups)
unfolding parse_group
parse_group_iff s groups = elim (Bool-cases (is_any (trim_space s))) [
  | inl any ↦ rw (parse_group, any) (λ _. inl refl, λ _. inl refl)
  | inr named ↦ rw (parse_group, named) (λ h. h, λ h. h)
]

module _ (parse_prefix : Text → Option Prefix) where
  parse_cidr_iff :
      (s : Text) (c : Bool × Prefix) (ip : Addr)
      → parse_cidr parse_prefix s ≡ ok c
      → ((c.0 ≡ true) ⊎ (contains c.1 ip ≡ true)) ↔ (
          (is_any (to_lower (trim_space s)) ≡ true)
          ⊎ ((p : Prefix) × (parse_prefix s ≡ some p) × (contains p ip ≡ true)))
  unfolding parse_cidr
  parse_cidr_iff s c ip h = elim (Bool-cases (is_any (to_lower (trim_space s)))) [
    | inl any ↦ (λ _. inl any, λ _. inl (ground (arith, h, any)))
    | inr named ↦ elim (Option-cases (parse_prefix s)) [
      | inl bad ↦ absurd (ground (arith, h, named, bad))
      | inr (p, good) ↦
          let same : c ≡ (false, masked p) = ground (arith, h, named, good) in
          subst
            (λ (x : Bool × Prefix). ((x.0 ≡ true) ⊎ (contains x.1 ip ≡ true)) ↔ (
              (is_any (to_lower (trim_space s)) ≡ true)
              ⊎ ((q : Prefix) × (parse_prefix s ≡ some q) × (contains q ip ≡ true))))
            (sym same)
            (
              λ h1. inr (p, good, sym (contains-masked p ip) ∙ ground (arith, h1)),
              λ h2. inr (contains-masked p ip ∙ read_as p good named h2),
            )
    ]
  ]
    where
      read_as :
          (p : Prefix)
          → parse_prefix s ≡ some p
          → is_any (to_lower (trim_space s)) ≡ false
          → (is_any (to_lower (trim_space s)) ≡ true)
            ⊎ ((q : Prefix) × (parse_prefix s ≡ some q) × (contains q ip ≡ true))
          → contains p ip ≡ true
      read_as p good named (inl any) = cc
      read_as p good named (inr (q, read, inside)) =
          let same : q ≡ p = cc in subst (λ (x : Prefix). contains x ip ≡ true) same inside

  -- A rule of the configuration that `ParseRule` accepts matches exactly the packets that pass each of
  -- its four tests: the protocol is a wildcard or the name of the packet's; the port is a wildcard or
  -- the number of the packet's; the group is a wildcard or one of the peer's; and the CIDR is a
  -- wildcard or a prefix that contains the peer's address, whatever its host bits are. A wildcard is
  -- empty or `any`, with any spaces around it and, but for the group, in any case.
  pub matches-parse_rule :
      (r : FirewallRule) (rule : Rule) (ip : Addr) (groups : List Text) (port proto : ℕ)
      → parse_rule parse_prefix r ≡ ok rule
      → (matches rule ip groups port proto ≡ true)
        ↔ ((is_any (to_lower (trim_space r.proto)) ≡ true)
            ⊎ Names (to_lower (trim_space r.proto)) proto)
          × ((is_any (to_lower (trim_space r.port)) ≡ true) ⊎ (parse_uint16 r.port ≡ some port))
          × ((is_any (trim_space r.group) ≡ true) ⊎ Mem r.group groups)
          × ((is_any (to_lower (trim_space r.cidr)) ≡ true)
              ⊎ ((p : Prefix) × (parse_prefix r.cidr ≡ some p) × (contains p ip ≡ true)))
  unfolding parse_rule
  matches-parse_rule r rule ip groups port proto h =
      let (q, named, h1) = >>=-eq-ok (parse_proto r.proto) _ h in
      let (p, numbered, h2) = >>=-eq-ok (parse_port r.port) _ h1 in
      let (c, prefixed, h3) = >>=-eq-ok (parse_cidr parse_prefix r.cidr) _ h2 in
      let (proto_to, proto_from) = parse_proto_iff r.proto q proto named in
      let (port_to, port_from) = parse_port_iff r.port p port numbered in
      let (group_to, group_from) = parse_group_iff r.group groups in
      let (cidr_to, cidr_from) = parse_cidr_iff r.cidr c ip prefixed in
      subst
        (λ (x : Rule).
          (matches x ip groups port proto ≡ true)
          ↔ ((is_any (to_lower (trim_space r.proto)) ≡ true)
              ⊎ Names (to_lower (trim_space r.proto)) proto)
            × ((is_any (to_lower (trim_space r.port)) ≡ true) ⊎ (parse_uint16 r.port ≡ some port))
            × ((is_any (trim_space r.group) ≡ true) ⊎ Mem r.group groups)
            × ((is_any (to_lower (trim_space r.cidr)) ≡ true)
                ⊎ ((p : Prefix) × (parse_prefix r.cidr ≡ some p) × (contains p ip ≡ true))))
        (ok_injective h3)
        (let (matches_to, matches_from) = matches_iff _ ip groups port proto in
          (
            λ m. let (a, b, d, e) = matches_to m in (proto_to a, port_to b, group_to d, cidr_to e),
            λ m.
                let (a, b, d, e) = m in
                matches_from (proto_from a, port_from b, group_from d, cidr_from e),
          ))
