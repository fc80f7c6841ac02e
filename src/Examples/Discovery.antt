-- ===== src/Examples/Discovery.antt =====
-- The lighthouse at concrete inputs.
use neth.Base.{◌≡◌, ◌≢◌, inl, refl, arith, true, false, [], ◌∷◌, map, none, some, All}
use neth.Base.Assoc.{lookup, Distinct}
use neth.Net.{ip4, UdpAddr, addr_key, ip_equal}
use neth.LightHouse.{
  LightHouse, get_addrs, handle_message, reply_to_query, advertisement, vpn_ip_by_addr, first_with,
}
use neth.LightHouse.Laws.{
  IsUdpAddr, addr_to_16, has_addr, get_addrs-reply_to_query, get_addrs-advertisement,
  has_addr-vpn_ip_by_addr,
}
use neth.Examples.Instances.{plain_lights, plain_lights-PrintsIps}

abbrev pub home : UdpAddr
home = record { ip = 192 ∷ 168 ∷ 0 ∷ 7 ∷ []; port = 4242 }

home-IsUdpAddr : IsUdpAddr home
home-IsUdpAddr =
    ((inl refl, (omega arith, (omega arith, (omega arith, (omega arith, tt))))), omega arith)

-- A lighthouse that knows the peer 1, and a node that knows no one.
abbrev pub beacon : LightHouse
beacon = record {
  addr_store = (ip4 1, home ∷ []) ∷ [];
  lighthouses = [];
  am_lighthouse = true;
  my_addrs = [];
  punchy = none;
}

abbrev pub node : LightHouse
node = record {
  addr_store = [];
  lighthouses = ip4 9 ∷ [];
  am_lighthouse = false;
  my_addrs = home ∷ [];
  punchy = none;
}

one_is_not_two : ip4 1 ≢ ip4 2
one_is_not_two h = cc

beacon-home : All IsUdpAddr (get_addrs (ip4 1) beacon)
unfolding get_addrs lookup
beacon-home = (home-IsUdpAddr, tt)

get_addrs-reply_to_query_example :
    (get_addrs
        (ip4 1)
        (handle_message plain_lights
          (reply_to_query plain_lights (1 ∷ []) (ip4 1) beacon)
          (ip4 9)
          node).0
      ≡ map addr_to_16 (get_addrs (ip4 1) beacon))
    × (get_addrs
          (ip4 2)
          (handle_message plain_lights
            (reply_to_query plain_lights (1 ∷ []) (ip4 1) beacon)
            (ip4 9)
            node).0
        ≡ get_addrs (ip4 2) node)
get_addrs-reply_to_query_example =
    get_addrs-reply_to_query plain_lights plain_lights-PrintsIps (1 ∷ []) (ip4 1) (ip4 2) (ip4 9)
      beacon node refl beacon-home one_is_not_two

get_addrs-advertisement_example :
    (get_addrs
        (ip4 1)
        (handle_message plain_lights (advertisement plain_lights node) (ip4 1) beacon).0
      ≡ map addr_to_16 (node.my_addrs))
    × (get_addrs
          (ip4 2)
          (handle_message plain_lights (advertisement plain_lights node) (ip4 1) beacon).0
        ≡ get_addrs (ip4 2) beacon)
get_addrs-advertisement_example =
    get_addrs-advertisement plain_lights plain_lights-PrintsIps (ip4 1) (ip4 2) node beacon refl
      (home-IsUdpAddr, tt) one_is_not_two

beacon-Distinct : Distinct (beacon.addr_store)
unfolding lookup
beacon-Distinct = (refl, tt)

home_is_one : vpn_ip_by_addr home beacon ≡ some (ip4 1)
unfolding vpn_ip_by_addr first_with ip_equal
home_is_one = refl

has_addr-vpn_ip_by_addr_example : has_addr home (get_addrs (ip4 1) beacon) ≡ true
has_addr-vpn_ip_by_addr_example =
    has_addr-vpn_ip_by_addr home beacon (ip4 1) beacon-Distinct home_is_one
