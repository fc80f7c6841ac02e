-- ===== src/Examples/Filter.antt =====
-- The firewall and the configuration at concrete inputs.
use mathlib.Core.List.{Mem}
use neth.Base.{
  ◌+◌, ◌≡◌, ◌↔◌, ◌⊎◌, refl, true, false, List, [], ◌∷◌, Option, some, ltb, ok, bytes_key,
}
use neth.Base.Assoc.{lookup, insert}
use neth.Base.Int.{pos}
use neth.Base.Text.{Text, text, to_lower, trim_space, parse_uint16}
use neth.Net.{ip4, Prefix, no_prefix, addr_key, contains, masked}
use neth.Config.{Config, set_defaults, validate, load}
use neth.Config.Laws.{IsValid, validate_iff, IsLoadedFrom, load_iff}
use neth.Firewall.{
  Firewall, new, matches, first_match, allow, allow_inbound, allow_outbound, expire_with,
}
use neth.Firewall.Rules.{
  FirewallRule, Rule, proto_tcp, is_any, parse_rule, parse_proto, parse_port, parse_group,
  parse_cidr,
}
use neth.Firewall.Tracking.{
  IsConntrack, packet_key, new_conntrack, track, track-IsConntrack, new_conntrack-IsConntrack,
  is_established, ttl_of, reversed, conn_key,
}
use neth.Firewall.Parsed.{Names, matches-parse_rule}
use neth.Firewall.Verdict.{Decided, allow_decides}
use neth.Firewall.Laws.{allow_inbound-allow_outbound}
use neth.Firewall.History.{Event, inbound, outbound, expiry, run, Unmatched, allow-run-new}
use neth.Firewall.Expiry.{is_established-expire_with-run}

-- HTTPS over TCP, for every peer.
abbrev https : Rule
https = record {
  port = 443;
  port_any = false;
  proto = proto_tcp;
  group = [];
  group_any = true;
  cidr = no_prefix;
  cid_any = true;
}

-- Every text is 10.0.0.1/8.
abbrev one_prefix : Text → Option Prefix
one_prefix s = some (record { addr = ip4 167772161; bits = some 8 })

abbrev configured : FirewallRule
configured = record {
  port = text "443";
  proto = text " TCP ";
  group = [];
  cidr = text "10.0.0.1/8";
}

abbrev compiled : Rule
compiled = record https {
  cidr = masked (record { addr = ip4 167772161; bits = some 8 });
  cid_any = false;
}

is_compiled : parse_rule one_prefix configured ≡ ok compiled
unfolding parse_rule parse_proto parse_port parse_group parse_cidr is_any to_lower trim_space
    parse_uint16
is_compiled = refl

matches-parse_rule_example :
    (matches compiled (ip4 167772162) [] 443 proto_tcp ≡ true)
    ↔ ((is_any (to_lower (trim_space (text " TCP "))) ≡ true)
        ⊎ Names (to_lower (trim_space (text " TCP "))) proto_tcp)
      × ((is_any (to_lower (trim_space (text "443"))) ≡ true)
          ⊎ (parse_uint16 (text "443") ≡ some 443))
      × ((is_any (trim_space []) ≡ true) ⊎ Mem {A = Text} [] [])
      × ((is_any (to_lower (trim_space (text "10.0.0.1/8"))) ≡ true)
          ⊎ ((p : Prefix) × (one_prefix (text "10.0.0.1/8") ≡ some p)
              × (contains p (ip4 167772162) ≡ true)))
matches-parse_rule_example =
    matches-parse_rule one_prefix configured compiled (ip4 167772162) [] 443 proto_tcp is_compiled

ssh-Unmatched : Unmatched (https ∷ []) [] (ip4 1) 22 proto_tcp
unfolding matches
ssh-Unmatched groups = (refl, refl)

abbrev traffic : List Event
traffic =
    inbound 5 (ip4 1) [] 443 proto_tcp ∷ expiry 9 9 9 20 ∷ outbound 30 (ip4 1) [] 443 proto_tcp ∷ []

allow-run-new_example :
    (allow_inbound 40 (ip4 1) [] 22 proto_tcp (run (new (https ∷ []) []) traffic)
      ≡ (run (new (https ∷ []) []) traffic, false))
    × (allow_outbound 40 (ip4 1) [] 22 proto_tcp (run (new (https ∷ []) []) traffic)
        ≡ (run (new (https ∷ []) []) traffic, false))
allow-run-new_example =
    allow-run-new (https ∷ []) [] (ip4 1) 22 proto_tcp traffic 40 [] ssh-Unmatched

-- A table with one connection, tracked at time 100.
abbrev one_conn : Firewall
one_conn = record {
  inbound = [];
  outbound = [];
  ct = track 100 (packet_key (ip4 1) 443 proto_tcp) new_conntrack;
}

one_conn-IsConntrack : IsConntrack (one_conn.ct)
one_conn-IsConntrack =
    track-IsConntrack 100 (packet_key (ip4 1) 443 proto_tcp) new_conntrack refl refl
      new_conntrack-IsConntrack

one_conn-tracked : lookup (packet_key (ip4 1) 443 proto_tcp) (one_conn.ct) ≡ some 100
unfolding track lookup insert
one_conn-tracked = refl

abbrev packets : List Event
packets = inbound 150 (ip4 1) [] 443 proto_tcp ∷ []

is_established-expire_with-run_example :
    is_established
      (packet_key (ip4 1) 443 proto_tcp)
      (expire_with 60 60 60 170 (run one_conn packets)).ct
    ≡ ltb 170 (100 + ttl_of 60 60 60 proto_tcp)
is_established-expire_with-run_example =
    is_established-expire_with-run 60 60 60 170 100 (ip4 1) 443 proto_tcp one_conn packets
      one_conn-IsConntrack one_conn-tracked tt

abbrev client : Firewall
client = new [] (https ∷ [])

client-IsConntrack : IsConntrack (client.ct)
unfolding new
client-IsConntrack = new_conntrack-IsConntrack

https_leaves : (allow_outbound 5 (ip4 1) [] 443 proto_tcp client).1 ≡ true
unfolding allow_outbound allow first_match matches new is_established reversed lookup
https_leaves = refl

allow_decides_example :
    Decided
      (client.inbound)
      5
      (ip4 1)
      []
      443
      proto_tcp
      client
      (allow_inbound 5 (ip4 1) [] 443 proto_tcp client)
    × Decided
        (client.outbound)
        5
        (ip4 1)
        []
        443
        proto_tcp
        client
        (allow_outbound 5 (ip4 1) [] 443 proto_tcp client)
allow_decides_example = allow_decides 5 (ip4 1) [] 443 proto_tcp client client-IsConntrack

allow_inbound-allow_outbound_example :
    allow_inbound 9 (ip4 1) [] 443 proto_tcp (allow_outbound 5 (ip4 1) [] 443 proto_tcp client).0
    ≡ ((allow_outbound 5 (ip4 1) [] 443 proto_tcp client).0, true)
allow_inbound-allow_outbound_example =
    allow_inbound-allow_outbound 5 9 (ip4 1) [] [] 443 proto_tcp client client-IsConntrack
      https_leaves

-- A configuration without its optional fields.
abbrev minimal : Config
minimal = record {
  pki = record {
    ca = text "ca.crt";
    cert = text "node.crt";
    key = text "node.key";
    peers_dir = [];
  };
  listen = record { host = []; port = pos 4242 };
  tun = record { dev = []; mtu = pos 0 };
  lighthouse = record { am_lighthouse = false; interval = pos 0; hosts = [] };
  static_host_map = [];
  punchy = record { punch = false; respond = false };
  firewall = record { inbound = []; outbound = [] };
  logging = record { level = []; format = [] };
}

validate_iff_example : (validate minimal ≡ []) ↔ IsValid minimal
validate_iff_example = validate_iff minimal

abbrev stored_file : Text → Option Text
stored_file path = some path

abbrev parsed_file : Text → Option Config
parsed_file content = some minimal

load_iff_example :
    (load stored_file parsed_file (text "neth.yml") ≡ ok (set_defaults minimal))
    ↔ IsLoadedFrom stored_file parsed_file (text "neth.yml") (set_defaults minimal)
load_iff_example = load_iff stored_file parsed_file (text "neth.yml") (set_defaults minimal)
