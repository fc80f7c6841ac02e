-- ===== src/HostMap.antt =====
-- hostmap.go: `HostInfo` and the registry `HostMap`.
-- Both maps of the registry hold pointers to the same `HostInfo`, whose counter and window change
-- in place. So hosts stand in a store, and the maps hold references into it. The locks make each
-- method one step.
pub mod Laws
use neth.Base.{ℕ, suc, ◌+◌, ◌≡◌, List, [], ◌∷◌, Option, none, some, nat_key}
use neth.Base.Assoc.{Assoc, lookup, insert, delete}
use neth.Base.Pointers.{deref}
use neth.Net.{Addr, UdpAddr, addr_key}
use neth.Replay.{ReplayWindow, check_replay}

-- `Aead` and `Cert` are the types of ciphers and of certificates.
pub record HostInfo (Aead Cert : Type 0) : Type 0 where
  pub vpn_ip : Addr
  pub remote : UdpAddr
  pub index : ℕ
  pub remote_index : ℕ
  pub send_cipher : Aead
  pub recv_cipher : Aead
  pub counter : ℕ
  pub cert : Option Cert
  pub replay : ReplayWindow

-- The registry with its store; `next_ref` has not been handed out.
pub record HostMap (Aead Cert : Type 0) : Type 0 where
  pub hosts : Assoc ℕ (HostInfo Aead Cert)
  pub next_ref : ℕ
  pub by_vpn_ip : Assoc Addr ℕ
  pub by_index : Assoc ℕ ℕ

module _ {Aead Cert : Type 0} where
  -- NewHostMap
  unfoldable pub new_host_map : HostMap Aead Cert
  new_host_map = record { hosts = []; next_ref = 0; by_vpn_ip = []; by_index = [] }

  -- `&HostInfo{…}` and Add.
  unfoldable pub add : HostInfo Aead Cert → HostMap Aead Cert → HostMap Aead Cert
  add h m = record {
    hosts = insert m.next_ref h m.hosts;
    next_ref = suc m.next_ref;
    by_vpn_ip = insert h.vpn_ip m.next_ref m.by_vpn_ip;
    by_index = insert h.index m.next_ref m.by_index;
  }

  -- GetByVpnIP; `none` is nil.
  unfoldable pub get_by_vpn_ip : Addr → HostMap Aead Cert → Option (ℕ × HostInfo Aead Cert)
  get_by_vpn_ip ip m = deref m.hosts (lookup ip m.by_vpn_ip)

  -- GetByIndex
  unfoldable pub get_by_index : ℕ → HostMap Aead Cert → Option (ℕ × HostInfo Aead Cert)
  get_by_index idx m = deref m.hosts (lookup idx m.by_index)

  -- Remove
  unfoldable pub remove : Addr → HostMap Aead Cert → HostMap Aead Cert
  remove ip m = record m {
    by_vpn_ip = delete ip m.by_vpn_ip;
    by_index = elim (get_by_vpn_ip ip m) [
      | none ↦ m.by_index
      | some (r, h) ↦ delete h.index m.by_index
    ];
  }

  -- A write through a pointer to a host.
  unfoldable pub write_host : ℕ → HostInfo Aead Cert → HostMap Aead Cert → HostMap Aead Cert
  write_host r h m = record m { hosts = insert r h m.hosts }
