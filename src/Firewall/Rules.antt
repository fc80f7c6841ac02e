-- ===== src/Firewall/Rules.antt =====
-- firewall/rule.go and the `FirewallRule` of config/config.go.
use neth.Base.{
  ℕ, ◌≡◌, refl, ◌==◌, Bool, true, false, ◌||◌, [], Option, none, some, if◌then◌else◌, ◌=?◌,
  bytes_key, Result, ok, err, ◌>>=◌,
}
use neth.Base.Text.{Text, text, to_lower, trim_space, parse_uint16}
use neth.Base.Decimal.{itoa}
use neth.Net.{Prefix, no_prefix, masked}

-- Proto is a byte; the source names four of its values.
abbrev pub proto_any : ℕ
proto_any = 0

abbrev pub proto_icmp : ℕ
proto_icmp = 1

abbrev pub proto_tcp : ℕ
proto_tcp = 6

abbrev pub proto_udp : ℕ
proto_udp = 17

-- Proto.String
unfoldable pub proto_string : ℕ → Text
proto_string p =
    if p == proto_any
    then text "any"
    else if p == proto_icmp
    then text "icmp"
    else if p == proto_tcp
    then text "tcp"
    else if p == proto_udp
    then text "udp"
    else itoa p

-- A rule as the configuration has it.
pub record FirewallRule : Type 0 where
  pub port : Text
  pub proto : Text
  pub group : Text
  pub cidr : Text

-- A compiled rule. Where a flag is set the field beside it is ignored.
pub record Rule : Type 0 where
  pub port : ℕ
  pub port_any : Bool
  pub proto : ℕ
  pub group : Text
  pub group_any : Bool
  pub cidr : Prefix
  pub cid_any : Bool

pub data RuleError : Type 0 where
  unknown_protocol : Text → RuleError
  invalid_port : Text → RuleError
  invalid_cidr : Text → RuleError

-- The two words for a wildcard.
unfoldable pub is_any : Text → Bool
is_any s = s =? [] || s =? text "any"

unfoldable pub parse_proto : Text → Result RuleError ℕ
unfolding is_any
parse_proto s =
    let word = to_lower (trim_space s) in
    if is_any word
    then ok proto_any
    else if word =? text "tcp"
    then ok proto_tcp
    else if word =? text "udp"
    then ok proto_udp
    else if word =? text "icmp"
    then ok proto_icmp
    else err (unknown_protocol s)

-- The flag and the port; the number is read from the text as it is written, not trimmed.
unfoldable pub parse_port : Text → Result RuleError (Bool × ℕ)
unfolding is_any
parse_port s =
    if is_any (to_lower (trim_space s))
    then ok (true, 0)
    else elim (parse_uint16 s) [ none ↦ err (invalid_port s) | some p ↦ ok (false, p) ]

-- The flag and the group, as it is written.
unfoldable pub parse_group : Text → Bool × Text
unfolding is_any
parse_group s = if is_any (trim_space s) then (true, []) else (false, s)

-- `parse_prefix` is netip.ParsePrefix.
module _ (parse_prefix : Text → Option Prefix) where
  unfoldable pub parse_cidr : Text → Result RuleError (Bool × Prefix)
  unfolding is_any
  parse_cidr s =
      if is_any (to_lower (trim_space s))
      then ok (true, no_prefix)
      else elim (parse_prefix s) [ none ↦ err (invalid_cidr s) | some p ↦ ok (false, masked p) ]

  -- ParseRule
  unfoldable pub parse_rule : FirewallRule → Result RuleError Rule
  parse_rule r = do
    proto ← parse_proto r.proto
    port ← parse_port r.port
    cidr ← parse_cidr r.cidr
    ok (record {
      port = port.1;
      port_any = port.0;
      proto = proto;
      group = (parse_group r.group).1;
      group_any = (parse_group r.group).0;
      cidr = cidr.1;
      cid_any = cidr.0;
    })

-- The names of the four protocols are read back.
pub parse_proto-proto_string :
    (parse_proto (proto_string proto_any) ≡ ok proto_any)
    × (parse_proto (proto_string proto_icmp) ≡ ok proto_icmp)
    × (parse_proto (proto_string proto_tcp) ≡ ok proto_tcp)
    × (parse_proto (proto_string proto_udp) ≡ ok proto_udp)
unfolding parse_proto proto_string to_lower trim_space
parse_proto-proto_string = (refl, refl, refl, refl)
