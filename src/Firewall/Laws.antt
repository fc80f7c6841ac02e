-- ===== src/Firewall/Laws.antt =====
-- What the rules decide, and what each call does to the table.
use mathlib.Core.List.{Mem, mem-cons, not-mem-nil, mem-cons_self, mem-cons_of_mem}
use mathlib.Core.Logic.Or
use neth.Base.{
  ℕ, ◌≡◌, ◌↔◌, ◌⊎◌, inl, inr, refl, sym, ◌∙◌, Bool, true, false, List, [], ◌∷◌, if◌then◌else◌, any,
  ◌=?◌, bytes_key, same_bytes_iff, arith, Bool-cases, if-if_cases,
}
use neth.Base.Text.{Text}
use neth.Net.{Addr, contains}
use neth.Firewall.Rules.{Rule, proto_any}
use neth.Firewall.Tracking.{
  Conntrack, IsConntrack, packet_key, track, is_established, track-IsConntrack, is_established_lem,
  lookup-track, same_conn_iff,
}
use neth.Firewall.{Firewall, matches, first_match, allow_inbound, allow_outbound}

Bool-set : IsSet Bool
Bool-set = hlevel

-- The search through the packet's groups is membership.
any-Mem :
    (group : Text) (groups : List Text) → any (λ g. g =? group) groups ≡ true → Mem group groups
any-Mem group [] h = cc
any-Mem group (g ∷ groups) h = elim (Bool-cases (g =? group)) [
  | inl here ↦ rw (sym ((same_bytes_iff g group).0 here)) mem-cons_self
  | inr there ↦ mem-cons_of_mem g (any-Mem group groups (ground arith))
]

Mem-any :
    (group : Text) (groups : List Text) → Mem group groups → any (λ g. g =? group) groups ≡ true
Mem-any group [] m = absurd (not-mem-nil m)
Mem-any group (g ∷ groups) m =
    Or.elim (Bool-set _ _) (mem-cons.0 m) (λ here. ground (arith, same_bytes_iff g group))
      (λ there. ground (arith, Mem-any group groups there))

-- A rule matches exactly the packets that pass each of its four tests, where a wildcard passes all.
pub matches_iff :
    (r : Rule) (ip : Addr) (groups : List Text) (port proto : ℕ)
    → (matches r ip groups port proto ≡ true)
      ↔ ((r.proto ≡ proto_any) ⊎ (r.proto ≡ proto))
        × ((r.port_any ≡ true) ⊎ (r.port ≡ port))
        × ((r.group_any ≡ true) ⊎ Mem r.group groups)
        × ((r.cid_any ≡ true) ⊎ (contains r.cidr ip ≡ true))
unfolding matches
matches_iff r ip groups port proto =
    (λ h. ground (arith, any-Mem r.group groups), λ h. ground (arith, Mem-any r.group groups))

first_match_lem :
    (rules : List Rule) (now : ℕ) (ip : Addr) (groups : List Text) (port proto : ℕ) (ct : Conntrack)
    → first_match rules now ip groups port proto ct ≡ (
        if any (λ r. matches r ip groups port proto) rules
        then (track now (packet_key ip port proto) ct, true)
        else (ct, false))
unfolding first_match
first_match_lem [] now ip groups port proto ct = refl
first_match_lem (r ∷ rules) now ip groups port proto ct =
    ground (arith, first_match_lem rules now ip groups port proto ct)

abbrev pub matching : List Rule → Addr → List Text → ℕ → ℕ → Bool
matching rules ip groups port proto = any (λ r. matches r ip groups port proto) rules

-- Both directions pass a packet whose key is tracked, by either direction, and leave the table
-- alone; another packet passes exactly if a rule of that direction matches it, and is then
-- tracked with the time of the call; a packet that is refused changes nothing.
pub allow_lem :
    (now : ℕ) (ip : Addr) (groups : List Text) (port proto : ℕ) (f : Firewall)
    → (allow_inbound now ip groups port proto f ≡ (
        if is_established (packet_key ip port proto) f.ct
        then (f, true)
        else if matching f.inbound ip groups port proto
        then (record f { ct = track now (packet_key ip port proto) f.ct }, true)
        else (f, false)))
      × (allow_outbound now ip groups port proto f ≡ (
          if is_established (packet_key ip port proto) f.ct
          then (f, true)
          else if matching f.outbound ip groups port proto
          then (record f { ct = track now (packet_key ip port proto) f.ct }, true)
          else (f, false)))
unfolding allow_inbound allow_outbound
allow_lem now ip groups port proto f = (
  ground (arith, first_match_lem f.inbound now ip groups port proto f.ct),
  ground (arith, first_match_lem f.outbound now ip groups port proto f.ct),
)

-- To prove something of the result of a call in either direction: its three branches.
module _ {ℓ} (P : Firewall × Bool → Type ℓ) (now : ℕ) (ip : Addr) (groups : List Text)
    (port proto : ℕ) (f : Firewall)
    (old : is_established (packet_key ip port proto) f.ct ≡ true → P (f, true))
    (opened : is_established (packet_key ip port proto) f.ct ≡ false
      → (matching f.inbound ip groups port proto ≡ true)
        ⊎ (matching f.outbound ip groups port proto ≡ true)
      → P (record f { ct = track now (packet_key ip port proto) f.ct }, true))
    (refused : is_established (packet_key ip port proto) f.ct ≡ false → P (f, false)) where
  pub allow_inbound_cases : P (allow_inbound now ip groups port proto f)
  allow_inbound_cases = rw ((allow_lem now ip groups port proto f).0) (
      if-if_cases P _ (matching f.inbound ip groups port proto) _ _ _ old (λ e m. opened e (inl m))
        (λ e _. refused e))

  pub allow_outbound_cases : P (allow_outbound now ip groups port proto f)
  allow_outbound_cases = rw ((allow_lem now ip groups port proto f).1) (
      if-if_cases P _ (matching f.outbound ip groups port proto) _ _ _ old (λ e m. opened e (inr m))
        (λ e _. refused e))

pub allow-IsConntrack :
    (now : ℕ) (ip : Addr) (groups : List Text) (port proto : ℕ) (f : Firewall)
    → IsConntrack f.ct
    → IsConntrack (allow_inbound now ip groups port proto f).0.ct
      × IsConntrack (allow_outbound now ip groups port proto f).0.ct
allow-IsConntrack now ip groups port proto f is =
    let tracked = track-IsConntrack now (packet_key ip port proto) f.ct refl refl is in
    (
      allow_inbound_cases (λ r. IsConntrack r.0.ct) now ip groups port proto f (λ _. is)
          (λ _ _. tracked) (λ _. is),
      allow_outbound_cases (λ r. IsConntrack r.0.ct) now ip groups port proto f (λ _. is)
          (λ _ _. tracked) (λ _. is),
    )

is_established-track :
    (now : ℕ) (ip : Addr) (port proto : ℕ) (ct : Conntrack)
    → IsConntrack ct
    → is_established (packet_key ip port proto) (track now (packet_key ip port proto) ct) ≡ true
is_established-track now ip port proto ct is =
    let k = packet_key ip port proto in
    is_established_lem ip port proto _ (track-IsConntrack now k ct refl refl is)
    ∙ ground (arith, lookup-track now k k ct, same_conn_iff k k)

established_passes :
    (now : ℕ) (ip : Addr) (groups : List Text) (port proto : ℕ) (f : Firewall)
    → is_established (packet_key ip port proto) f.ct ≡ true
    → allow_inbound now ip groups port proto f ≡ (f, true)
established_passes now ip groups port proto f open_key =
    (allow_lem now ip groups port proto f).0 ∙ rw open_key

-- A packet that the outbound rules let through opens its key inbound: the same address, port and
-- protocol are then let in, whatever the inbound rules say.
pub allow_inbound-allow_outbound :
    (now later : ℕ) (ip : Addr) (groups other_groups : List Text) (port proto : ℕ) (f : Firewall)
    → IsConntrack f.ct
    → (allow_outbound now ip groups port proto f).1 ≡ true
    → let opened = (allow_outbound now ip groups port proto f).0 in
      allow_inbound later ip other_groups port proto opened ≡ (opened, true)
allow_inbound-allow_outbound now later ip groups other_groups port proto f is =
    allow_outbound_cases
      (λ r. r.1 ≡ true → allow_inbound later ip other_groups port proto r.0 ≡ (r.0, true)) now ip
      groups port proto f (λ old _. established_passes later ip other_groups port proto f old)
      (λ _ _ _.
        established_passes later ip other_groups port proto _
          (is_established-track now ip port proto f.ct is))
      (λ _ passed. cc)
