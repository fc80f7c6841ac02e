-- ===== src/Examples/Startup.antt =====
-- Signing certificates and starting a node at concrete inputs.
use neth.Base.{
  ℕ, if◌then◌else◌, ◌≡◌, ◌↔◌, inr, refl, arith, true, false, List, [], ◌∷◌, ◌++◌, none, some,
  replicate, ok, err, bytes_key,
}
use neth.Base.Assoc.{Assoc, lookup, insert}
use neth.Base.Int.{pos}
use neth.Base.Text.{Text, text, trim_space, trim_left, trim_right}
use neth.Net.{no_prefix, prefix_from}
use neth.Cert.{
  Certificate, parse, pem, pem_type_cert, parse_der, read_extensions, read_extension, decode_vpn_ip,
  decode_curve25519_key, addr_from_bytes, addr_bytes, bits_of, sign_extensions, encode_vpn_ip,
  encode_curve25519_key, verify_ca, verify,
}
use neth.Header.{put_big_endian, get_big_endian}
use neth.Cert.Keys.{
  clamp, pem_type_curve25519_key, generate_x25519_key_pair, parse_ed25519_private_key,
  marshal_x25519_private_key, parse_x25519_private_key,
}
use neth.Cert.Issue.{sign, new_serial, add_duration}
use neth.Config.{Config, PkiConfig}
use neth.Pki.{Pki, load_pki, load_and_parse_ca, load_and_parse_node_cert, load_and_verify_key}
use neth.Pki.Laws.{Holds}
use neth.Pki.Material.{IsMaterial, load_pki_iff}
use neth.Udp.{listen, set_reuse_port}
use neth.Tun.{set_if_mtu, request_failed, open_device, ioctl_ptr, configure}
use neth.Interface.Builders.{tun_failed, build_firewall, parse_rules}
use neth.Interface.Start.{System, new_interface}
use neth.Interface.Start.Resources.{GivesNew, new_interface-open, is_held}
use neth.Tun.Laws.{open_after}
use neth.Commands.Groups.{parse_groups, show_groups, parse_groups-show_groups}
use neth.Commands.Shell.{
  Shell, Draws, sign_defaults, read_file, write_file, check_ca_key, cert_summary,
}
use neth.Commands.NethCert.{cmd_sign, make_node, read_cert, issue, write_pair, write_key}
use neth.Commands.NethCert.Laws.{load_pki-cmd_sign}
use neth.Examples.Instances.{length_hashes, plain_lights}
use neth.Examples.Issuing.{
  files, files-KeepsFiles, curve, signatures, library, library-RoundTrips, issuer,
  issuer-IssuesChains, vpn_ip, node_key, issued_x509, ca_x509,
}

abbrev shell : Shell
shell = record {
  parse_ca = λ flags args. some flags;
  parse_sign = λ flags args. some (record flags {
    ca_crt = text "ca.crt";
    ca_key = text "ca.key";
    name = text "node";
    ip = text "10.0.0.1/24";
  });
  parse_verify = λ flags args. some flags;
  parse_print = λ flags args. some flags;
  parse_prefix = λ s. some vpn_ip;
  prefix_string = λ p. text "10.0.0.1/24";
  rfc3339 = λ t. text "1970";
}

abbrev draws : Draws
draws = record {
  now = 10;
  seed = some (3 ∷ []);
  rand_int = λ limit. some 77;
  key_bytes = some (replicate 32 9);
}

-- The files of the CA.
abbrev start : Assoc Text (List ℕ)
start =
    (text "ca.crt", library.pem_encode pem_type_cert (8 ∷ []))
    ∷ (text "ca.key", library.pem_encode (text "PRIVATE KEY") (1 ∷ []))
    ∷ []

abbrev node : Certificate
node = record {
  raw = 7 ∷ [];
  x509 = issued_x509;
  vpn_ip = vpn_ip;
  groups = [];
  x25519_public_key = node_key;
}

abbrev ca : Certificate
ca = record {
  raw = 8 ∷ [];
  x509 = ca_x509;
  vpn_ip = no_prefix;
  groups = [];
  x25519_public_key = [];
}

abbrev written : Assoc Text (List ℕ)
written =
    start
    ++ ((text "./node.crt", library.pem_encode pem_type_cert (7 ∷ []))
        ∷ (text "./node.key", library.pem_encode pem_type_curve25519_key node_key)
        ∷ [])

abbrev summary : List Text
summary =
    text "Node certificate : ./node.crt"
    ∷ text "Node private key : ./node.key"
    ∷ cert_summary shell length_hashes node

ran :
    cmd_sign files library shell length_hashes signatures issuer curve draws [] start
    ≡ (written, ok summary)
unfolding cmd_sign make_node read_cert read_file issue write_pair write_key write_file parse
    parse_der read_extensions read_extension decode_vpn_ip decode_curve25519_key addr_from_bytes
    get_big_endian prefix_from parse_ed25519_private_key check_ca_key generate_x25519_key_pair clamp
    parse_groups sign new_serial sign_extensions encode_vpn_ip encode_curve25519_key addr_bytes
    put_big_endian bits_of marshal_x25519_private_key lookup insert pem add_duration
ran = refl

-- The files hold what was signed.
ca_held : Holds library (files.read start) (text "ca.crt") ca
unfolding parse parse_der read_extensions lookup
ca_held = record {
  body = library.pem_encode pem_type_cert (8 ∷ []);
  is_read = refl;
  is_parsed = refl;
}

node_held : Holds library (files.read written) (text "./node.crt") node
unfolding parse parse_der read_extensions read_extension decode_vpn_ip decode_curve25519_key
    addr_from_bytes get_big_endian prefix_from lookup
node_held = record {
  body = library.pem_encode pem_type_cert (7 ∷ []);
  is_read = refl;
  is_parsed = refl;
}

ca_verifies : verify_ca library ca 20 ≡ ok tt
unfolding verify_ca
ca_verifies = refl

load_pki-cmd_sign_example :
    (key : List ℕ) × (load_pki library
        (files.read written)
        curve
        (record {
          ca = text "ca.crt";
          cert = text "./node.crt";
          key = text "./node.key";
          peers_dir = [];
        })
        20
        20
      ≡ ok (record { ca_certs = ca ∷ []; node_cert = node; curve25519_key = key }))
    × (node.vpn_ip ≡ vpn_ip)
    × (node.groups ≡ parse_groups [])
load_pki-cmd_sign_example =
    load_pki-cmd_sign files files-KeepsFiles library shell length_hashes signatures issuer curve
      draws library-RoundTrips issuer-IssuesChains []
      (record sign_defaults {
        ca_crt = text "ca.crt";
        ca_key = text "ca.key";
        name = text "node";
        ip = text "10.0.0.1/24";
      })
      vpn_ip ca node start written summary [] (3 ∷ []) 20 20 refl refl (omega arith, omega arith)
      ca_held ran node_held refl refl refl ca_verifies refl (λ h. cc) (inr refl) ca_verifies
      (omega arith, omega arith)

abbrev node_cfg : PkiConfig
node_cfg = record {
  ca = text "ca.crt";
  cert = text "./node.crt";
  key = text "./node.key";
  peers_dir = [];
}

abbrev loaded : Pki
loaded = record { ca_certs = ca ∷ []; node_cert = node; curve25519_key = node_key }

load_pki_iff_example :
    (load_pki library (files.read written) curve node_cfg 20 20 ≡ ok loaded)
    ↔ IsMaterial library (files.read written) curve node_cfg 20 20 loaded
load_pki_iff_example = load_pki_iff library (files.read written) curve node_cfg 20 20 loaded

two_groups_back :
    parse_groups (show_groups (text "web" ∷ text "db" ∷ [])) ≡ text "web" ∷ text "db" ∷ []
unfolding trim_space trim_left trim_right
two_groups_back =
    parse_groups-show_groups (text "web" ∷ text "db" ∷ [])
      ((λ h. cc, refl, omega arith), ((λ h. cc, refl, omega arith), tt))

-- A system that gives the descriptors 3, 4 and 5; the device cannot be configured.
abbrev system : System
system = record {
  read_file = λ path. lookup path written;
  read_dir = λ dir. none;
  join = λ dir base. dir ++ base;
  parse_prefix = λ s. some vpn_ip;
  prefix_string = λ p. text "10.0.0.1/24";
  resolve_udp_addr = λ s. none;
  interfaces = none;
  sockets = record {
    listen_packet = λ control addr. if control 3 then some (3, 4242) else none;
    raw_control = λ fd. true;
    setsockopt_int = λ fd level opt value. true;
  };
  kernel = record {
    open_clone = some 4;
    control_socket = some 5;
    ioctl = λ fd req r. elim req [ set_if_mtu ↦ none | _ ↦ some r ];
  };
}

abbrev config : Config
config = record {
  pki = node_cfg;
  listen = record { host = text "0.0.0.0"; port = pos 4242 };
  tun = record { dev = text "neth0"; mtu = pos 1300 };
  lighthouse = record { am_lighthouse = false; interval = pos 60; hosts = [] };
  static_host_map = [];
  punchy = record { punch = true; respond = false };
  firewall = record { inbound = []; outbound = [] };
  logging = record { level = text "info"; format = text "text" };
}

system-GivesNew : GivesNew system config
unfolding listen set_reuse_port
system-GivesNew = record {
  conn_fd = λ conn fd a b same. ground (arith, a, b, same);
  conn_sock = λ conn sock a b same. ground (arith, a, b, same);
  fd_sock = λ fd sock a b same. ground (arith, a, b, same);
}

new_interface-open_example :
    open_after 3
      (new_interface {Cipher = ℕ} {State = ℕ} library plain_lights curve system config 20 20).0
      false
    ≡ is_held 3
        (new_interface {Cipher = ℕ} {State = ℕ} library plain_lights curve system config 20 20).1
new_interface-open_example =
    new_interface-open ℕ ℕ library plain_lights curve system config 20 20 3 system-GivesNew

-- The kernel refuses the MTU.
mtu_refused :
    (new_interface {Cipher = ℕ} {State = ℕ} library plain_lights curve system config 20 20).1
    ≡ err (tun_failed (request_failed set_if_mtu))
unfolding new_interface load_pki load_and_parse_ca load_and_parse_node_cert load_and_verify_key
    parse parse_der read_extensions read_extension decode_vpn_ip decode_curve25519_key
    addr_from_bytes get_big_endian prefix_from lookup verify_ca verify parse_x25519_private_key
    build_firewall parse_rules open_device ioctl_ptr configure listen set_reuse_port
mtu_refused = refl
