-- ===== src/Interface/Start.antt =====
-- interface.go: NewInterface.
-- What it asks of the kernel is a list of calls, in order; the socket is a descriptor with its port.
pub mod Resources
use neth.Base.{
  ℕ, Bool, ◌||◌, List, [], ◌∷◌, Option, none, some, ◌=?◌, bytes_key, if◌then◌else◌, Result, ok, err,
  or_err, map_err,
}
use neth.Base.Int.{ℤ}
use neth.Base.Text.{Text}
use neth.Net.{Addr, UdpAddr, Prefix}
use neth.Cert as Certs
use neth.Cert.Keys.{Curve}
use neth.Config.{Config}
use neth.HostMap.{new_host_map}
use neth.LightHouse.{LightHouse, set_punchy}
use neth.LightHouse as Lights
use neth.Manager.{new_handshake_manager}
use neth.Noise.{DhKey}
use neth.Pki.{Pki, load_pki}
use neth.Punchy.{Punchy}
use neth.Firewall.{Firewall}
use neth.Udp.{Sockets, listen}
use neth.Tun.{
  Calls, Kernel, Device, TunError, ◌>>=◌, ◌>>◌, quiet, opened, opens, closing_on_error, open_device,
}
use neth.Interface.{Interface}
use neth.Interface.Builders.{
  StartError, pki_failed, listen_failed, tun_failed, build_firewall, build_light_house,
  load_peer_certs, DirEntry, NetInterface,
}

-- What NewInterface asks of Go's library and of the system.
pub record System : Type 0 where
  pub read_file : Text → Option (List ℕ)
  pub read_dir : Text → Option (List DirEntry)
  pub join : Text → Text → Text
  pub parse_prefix : Text → Option Prefix
  pub prefix_string : Prefix → Text
  pub resolve_udp_addr : Text → Option UdpAddr
  pub interfaces : Option (List NetInterface)
  pub sockets : Sockets
  pub kernel : Kernel

-- The Interface with the parts that do not change.
pub record Node (Cipher State : Type 0) : Type 0 where
  pub cfg : Config
  pub pki : Pki
  pub tun_dev : Device
  pub udp_conn : ℕ
  pub iface : Interface Cipher State

-- The same calls, with the error under another name.
abbrev pub wrap : {E F A : Type 0} → (E → F) → Calls E A → Calls F A
wrap f (calls, r) = (calls, map_err f r)

-- The socket's descriptor, and its port.
abbrev pub fd_of : Option (ℕ × ℕ) → Option ℕ
fd_of none = none
fd_of (some (fd, port)) = some fd

abbrev pub port_of : Option (ℕ × ℕ) → ℕ
port_of none = 0
port_of (some (fd, port)) = port

-- `conn.Close()` and `tunDev.Close()`, in this order, when a step fails.
abbrev pub closing_both : {E A : Type 0} → ℕ → Device → Result E A → Calls E A
closing_both conn dev r = closing_on_error dev.file (closing_on_error conn (quiet r))

module _ {Cipher State : Type 0} (lib : Certs.Library) (lights : Lights.Library)
    (curve : Curve) where
  -- The Interface before the peers' certificates are loaded.
  unfoldable pub wire_up : Config → Pki → Firewall → LightHouse → Interface Cipher State
  wire_up cfg pki fw lh =
      let p : Punchy = record { punch = cfg.punchy.punch; respond = cfg.punchy.respond } in
      let wanted = p.punch || p.respond in
      record {
        hostmap = new_host_map;
        handshake_mgr =
            new_handshake_manager pki.node_cert
              (record {
                private_key = pki.curve25519_key;
                public_key = pki.node_cert.x25519_public_key;
              })
              pki.ca_certs;
        fw = fw;
        lighthouse = if wanted then set_punchy p lh else lh;
        punchy = if wanted then some p else none;
        peer_certs = [];
      }

  module _ (sys : System) where
    unfoldable pub load_peers :
        Config → Interface Cipher State → Result StartError (Interface Cipher State)
    load_peers cfg i =
        if cfg.pki.peers_dir =? []
        then ok i
        else load_peer_certs lib sys.read_file sys.read_dir sys.join cfg.pki.peers_dir i

    -- NewInterface from the device on.
    unfoldable pub assemble :
        Config → Pki → Firewall → ℕ → ℕ → Device → Calls StartError (Node Cipher State)
    assemble cfg pki fw conn port dev = do
      lh ←
          closing_both conn dev
            (build_light_house lights sys.resolve_udp_addr sys.interfaces cfg port)
      iface ← closing_both conn dev (load_peers cfg (wire_up cfg pki fw lh))
      ([], ok (record { cfg = cfg; pki = pki; tun_dev = dev; udp_conn = conn; iface = iface }))

    -- NewInterface, with the clock's readings for the two certificates.
    unfoldable pub new_interface : Config → ℕ → ℕ → Calls StartError (Node Cipher State)
    new_interface cfg ca_time node_time = do
      pki ← quiet (map_err pki_failed (load_pki lib sys.read_file curve cfg.pki ca_time node_time))
      fw ← quiet (build_firewall sys.parse_prefix cfg.firewall)
      let socket = listen sys.sockets cfg.listen.host cfg.listen.port
      conn ← opened (fd_of socket) listen_failed
      dev ← closing_on_error conn (
          wrap tun_failed (
            open_device sys.kernel sys.parse_prefix cfg.tun.dev
              (sys.prefix_string pki.node_cert.vpn_ip) cfg.tun.mtu))
      assemble cfg pki fw conn (port_of socket) dev
