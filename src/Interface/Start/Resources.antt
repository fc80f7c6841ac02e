-- ===== src/Interface/Start/Resources.antt =====
-- NewInterface and the descriptors that it opens.
use neth.Base.{
  ℕ, ◌≡◌, ◌≢◌, refl, sym, ap, ◌∙◌, Bool, true, false, ◌||◌, [], some, ◌==◌, if◌then◌else◌, Result,
  ok, err, map_err, arith,
}
use neth.Cert as Certs
use neth.Cert.Keys.{Curve}
use neth.Config.{Config}
use neth.LightHouse.{LightHouse}
use neth.LightHouse as Lights
use neth.Pki.{Pki, load_pki}
use neth.Firewall.{Firewall}
use neth.Udp.{listen}
use neth.Tun.{Calls, Device, TunError, ◌>>=◌, quiet, opened, closing_on_error, open_device}
use neth.Tun.Laws.{
  open_after, is_file, bind-open, opened-err, opened-ok, closing-err, closing-ok, open_device-open,
}
use neth.Interface.Builders.{
  StartError, pki_failed, listen_failed, tun_failed, build_firewall, build_light_house,
}
use neth.Interface.Start.{
  System, Node, wrap, fd_of, port_of, closing_both, wire_up, load_peers, assemble, new_interface,
}

-- The kernel never gives a descriptor that is open already.
pub record GivesNew (sys : System) (cfg : Config) : Type 0 where
  pub conn_fd :
      (conn fd : ℕ)
      → fd_of (listen sys.sockets cfg.listen.host cfg.listen.port) ≡ some conn
      → sys.kernel.open_clone ≡ some fd
      → fd ≢ conn
  pub conn_sock :
      (conn sock : ℕ)
      → fd_of (listen sys.sockets cfg.listen.host cfg.listen.port) ≡ some conn
      → sys.kernel.control_socket ≡ some sock
      → sock ≢ conn
  pub fd_sock :
      (fd sock : ℕ)
      → sys.kernel.open_clone ≡ some fd
      → sys.kernel.control_socket ≡ some sock
      → fd ≢ sock

-- The descriptors that a running node holds: its socket and its device.
abbrev pub is_held : {Cipher State : Type 0} → ℕ → Result StartError (Node Cipher State) → Bool
is_held d (err e) = false
is_held d (ok node) = node.udp_conn == d || node.tun_dev.file == d

is_file-wrap :
    (d : ℕ) (f : TunError → StartError) (r : Result TunError Device)
    → is_file d (map_err f r) ≡ is_file d r
is_file-wrap d f (err e) = refl
is_file-wrap d f (ok dev) = refl

closing_both-err :
    {A : Type 0} (d conn : ℕ) (dev : Device) (r : Result StartError A) (e : StartError)
    → (closing_both conn dev r).1 ≡ err e
    → open_after d (closing_both conn dev r).0 (conn == d || dev.file == d) ≡ false
closing_both-err d conn dev (err f) e h = ground arith
closing_both-err d conn dev (ok a) e h = cc

closing_both-ok :
    {A : Type 0} (conn : ℕ) (dev : Device) (r : Result StartError A) (a : A)
    → (closing_both conn dev r).1 ≡ ok a
    → (closing_both conn dev r).0 ≡ []
closing_both-ok conn dev (err f) a h = cc
closing_both-ok conn dev (ok b) a h = refl

-- The descriptor of the socket, as a test.
is_conn : (conn d : ℕ) → (if conn == d then true else false) ≡ (conn == d)
is_conn conn d = ground arith

new_ne : (conn d fd : ℕ) → fd ≢ conn → (if conn == d then true else false) ≡ true → fd ≢ d
new_ne conn d fd differ before same = ground arith

-- When the device fails the socket is closed.
tun_failed-closes :
    (conn d : ℕ) (m : Calls StartError Device) (e : StartError)
    → (closing_on_error conn m).1 ≡ err e
    → (if conn == d then false else ((if conn == d then true else false) || is_file d m.1)) ≡ false
tun_failed-closes conn d (calls, err f) e h = ground arith
tun_failed-closes conn d (calls, ok dev) e h = cc

module _ (Cipher State : Type 0) (lib : Certs.Library) (lights : Lights.Library)
    (curve : Curve) where
  module _ (sys : System) where
    assemble-open :
        (cfg : Config) (pki : Pki) (fw : Firewall) (conn port : ℕ) (dev : Device) (d : ℕ)
        → open_after d
            (assemble {Cipher = Cipher} {State = State} lib lights curve sys cfg pki fw conn port
              dev).0
            (conn == d || dev.file == d)
          ≡ is_held d
              (assemble {Cipher = Cipher} {State = State} lib lights curve sys cfg pki fw conn port
                dev).1
    unfolding assemble
    assemble-open cfg pki fw conn port dev d =
        let lh_built = build_light_house lights sys.resolve_udp_addr sys.interfaces cfg port in
        bind-open d (conn == d || dev.file == d) (is_held d) (closing_both conn dev lh_built) _
          (λ e h. closing_both-err d conn dev lh_built e h)
          λ lh h.
            let peers =
              load_peers {Cipher = Cipher} {State = State} lib lights curve sys cfg
                (wire_up lib lights curve cfg pki fw lh) in
            rw (closing_both-ok conn dev lh_built lh h) (
              bind-open d (conn == d || dev.file == d) (is_held d) (closing_both conn dev peers) _
                (λ e h. closing_both-err d conn dev peers e h)
                (λ iface h. rw (closing_both-ok conn dev peers iface h) refl))

    -- Whether `NewInterface` succeeds or stops at any of its steps, afterwards a descriptor is open
    -- exactly when the new node holds it, as its UDP socket or as its TUN device; after an error
    -- none is. The kernel gives no descriptor that is open already.
    pub new_interface-open :
        (cfg : Config) (ca_time node_time d : ℕ)
        → GivesNew sys cfg
        → open_after d
            (new_interface {Cipher = Cipher} {State = State} lib lights curve sys cfg ca_time
              node_time).0
            false
          ≡ is_held d
              (new_interface {Cipher = Cipher} {State = State} lib lights curve sys cfg ca_time
                node_time).1
    unfolding new_interface
    new_interface-open cfg ca_time node_time d news =
        bind-open d false (is_held d)
          (quiet (map_err pki_failed (load_pki lib sys.read_file curve cfg.pki ca_time node_time)))
          _ (λ e h. refl)
          λ pki h.
            bind-open d false (is_held d) (quiet (build_firewall sys.parse_prefix cfg.firewall)) _
              (λ e h. refl)
              λ fw h.
                let socket = fd_of (listen sys.sockets cfg.listen.host cfg.listen.port) in
                bind-open d false (is_held d) (opened socket listen_failed) _
                  (λ e h. rw (opened-err socket listen_failed e h) refl)
                  (λ conn h.
                    let (there, calls) = opened-ok socket listen_failed conn h in
                    rw calls (with_device pki fw conn there))
      where
        with_device :
            (pki : Pki) (fw : Firewall) (conn : ℕ)
            → fd_of (listen sys.sockets cfg.listen.host cfg.listen.port) ≡ some conn
            → (let m =
                  closing_on_error conn (
                    wrap tun_failed (
                      open_device sys.kernel sys.parse_prefix cfg.tun.dev
                        (sys.prefix_string pki.node_cert.vpn_ip)
                        cfg.tun.mtu))
                  >>= λ dev.
                      assemble {Cipher = Cipher} {State = State} lib lights curve sys cfg pki fw
                        conn
                        (port_of (listen sys.sockets cfg.listen.host cfg.listen.port))
                        dev in
                open_after d m.0 (if conn == d then true else false) ≡ is_held d m.1)
        with_device pki fw conn there =
            let kernel = sys.kernel in
            let tun = wrap tun_failed (
              open_device kernel sys.parse_prefix cfg.tun.dev
                (sys.prefix_string pki.node_cert.vpn_ip) cfg.tun.mtu) in
            let before : Bool = if conn == d then true else false in
            let kept : open_after d tun.0 before ≡ (before || is_file d tun.1) =
              open_device-open kernel d before sys.parse_prefix cfg.tun.dev
                (sys.prefix_string pki.node_cert.vpn_ip) cfg.tun.mtu
                (λ fd c. new_ne conn d fd (news.conn_fd conn fd there c))
                (λ sock c. new_ne conn d sock (news.conn_sock conn sock there c)) news.fd_sock
              ∙ ap (λ b. before || b)
                  (sym (
                    is_file-wrap d tun_failed
                      (open_device kernel sys.parse_prefix cfg.tun.dev
                        (sys.prefix_string pki.node_cert.vpn_ip) cfg.tun.mtu).1)) in
            bind-open d before (is_held d) (closing_on_error conn tun) _
              (λ e h.
                closing-err d conn before tun e h ∙ rw kept (tun_failed-closes conn d tun e h))
              (λ dev h.
                let (same, good) = closing-ok d conn tun dev h in
                rw same (
                  rw kept (
                    rw good (
                      rw (is_conn conn d) (
                        assemble-open cfg pki fw conn
                          (port_of (listen sys.sockets cfg.listen.host cfg.listen.port)) dev d)))))
