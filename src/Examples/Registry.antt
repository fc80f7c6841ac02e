-- ===== src/Examples/Registry.antt =====
-- The registry of sessions at concrete inputs.
use neth.Base.{ℕ, ◌+◌, ◌≡◌, ◌≢◌, refl, arith, [], ◌∷◌, none, some, if◌then◌else◌, ◌==◌, nat_key}
use neth.Base.Assoc.{lookup, insert, delete}
use neth.Net.{ip4, addr_key, same_addr}
use neth.HostMap.{HostInfo, HostMap, new_host_map, add, get_by_vpn_ip, get_by_index, remove}
use neth.HostMap.Laws.{
  IsHostMap, new_host_map-IsHostMap, add-IsHostMap, get-add, get-remove, get_by_index-remove-add,
  Coherent, add-Coherent, remove-ends_sessions,
}
use neth.Replay.{new_window}

abbrev Host : Type 0
Host = HostInfo ℕ ℕ

-- A session of a peer under an index.
abbrev session : ℕ → ℕ → Host
session ip index = record {
  vpn_ip = ip4 ip;
  remote = record { ip = 10 ∷ 0 ∷ 0 ∷ ip ∷ []; port = 4242 };
  index = index;
  remote_index = 100 + index;
  send_cipher = 1;
  recv_cipher = 2;
  counter = 0;
  cert = none;
  replay = new_window;
}

abbrev empty_map : HostMap ℕ ℕ
empty_map = new_host_map

empty_map-IsHostMap : IsHostMap empty_map
empty_map-IsHostMap = new_host_map-IsHostMap

abbrev one_host : HostMap ℕ ℕ
one_host = add (session 1 11) empty_map

one_host-IsHostMap : IsHostMap one_host
one_host-IsHostMap = add-IsHostMap (session 1 11) empty_map empty_map-IsHostMap

abbrev two_hosts : HostMap ℕ ℕ
two_hosts = add (session 2 22) one_host

two_hosts-IsHostMap : IsHostMap two_hosts
two_hosts-IsHostMap = add-IsHostMap (session 2 22) one_host one_host-IsHostMap

get-add_example :
    (get_by_vpn_ip (ip4 2) two_hosts ≡ (
      if same_addr (ip4 2) (ip4 2)
      then some (one_host.next_ref, session 2 22)
      else get_by_vpn_ip (ip4 2) one_host))
    × (get_by_index 11 two_hosts
        ≡ (if 22 == 11 then some (one_host.next_ref, session 2 22) else get_by_index 11 one_host))
get-add_example = get-add (session 2 22) one_host (ip4 2) 11 one_host-IsHostMap

first_found : get_by_vpn_ip (ip4 1) two_hosts ≡ some (0, session 1 11)
unfolding get_by_vpn_ip add new_host_map lookup insert
first_found = refl

get-remove_example :
    (get_by_vpn_ip (ip4 2) (remove (ip4 1) two_hosts)
      ≡ (if same_addr (ip4 1) (ip4 2) then none else get_by_vpn_ip (ip4 2) two_hosts))
    × (get_by_index 11 (remove (ip4 1) two_hosts)
        ≡ (if 11 == 11 then none else get_by_index 11 two_hosts))
get-remove_example = get-remove (ip4 1) (ip4 2) 0 (session 1 11) two_hosts 11 first_found

get_by_index-remove-add_example :
    get_by_index 11 (remove (ip4 1) (add (session 1 12) (add (session 1 11) empty_map)))
    ≡ some (0, session 1 11)
unfolding new_host_map
get_by_index-remove-add_example =
    get_by_index-remove-add (session 1 11) (session 1 12) empty_map empty_map-IsHostMap refl
      (λ h. omega arith)

empty_map-Coherent : Coherent empty_map
unfolding get_by_index new_host_map lookup
empty_map-Coherent idx r h found = cc

one_host-Coherent : Coherent one_host
unfolding get_by_vpn_ip new_host_map lookup
one_host-Coherent =
    add-Coherent (session 1 11) empty_map empty_map-IsHostMap refl empty_map-Coherent

two_hosts-Coherent : Coherent two_hosts
unfolding get_by_vpn_ip add new_host_map lookup insert
two_hosts-Coherent = add-Coherent (session 2 22) one_host one_host-IsHostMap refl one_host-Coherent

second_stays : get_by_index 22 (remove (ip4 1) two_hosts) ≡ some (1, session 2 22)
unfolding get_by_index get_by_vpn_ip remove add new_host_map lookup insert delete
second_stays = refl

remove-ends_sessions_example : ip4 2 ≢ ip4 1
remove-ends_sessions_example =
    remove-ends_sessions (ip4 1) two_hosts 22 1 (session 2 22) two_hosts-IsHostMap
      two_hosts-Coherent second_stays
