-- ===== src/Router/Tests.antt =====
-- A table of three routes, and a router with it.
use computer_networking.Prelude.{ℕ, ◌≡◌, ◌≢◌, refl, [], ◌∷◌, Option, none, some, arith}
use computer_networking.Ethernet.{zero_address}
use computer_networking.Ipv4
use computer_networking.Ipv4.Tests.{header, datagram}
use computer_networking.Ipv4.{Ipv4Datagram}
use computer_networking.NetworkInterface
use computer_networking.NetworkInterface.{NetworkInterface}
use computer_networking.Router.{
  Route, Router, RoutingTable, Status, init, add_route, find_route, dst_route_prefix, routes_at,
  assign, forward, send_by, route,
}
use computer_networking.Router.Lookup.{IsTable, IsBest, find_route-IsBest}
use computer_networking.Router.Table.{add_route-IsTable}
use computer_networking.Router.Forward.{forward-live, route-expired}

-- A default route, 10.0.0.0/8 and 10.0.0.0/31.
abbrev build : Router → Router
build r =
    add_route 0x0a000000 31 none 2
      (add_route 0 0 (some 0x0a000001) 0 (add_route 0x0a000000 8 none 1 r))

abbrev interface_of : Option Route → Option ℕ
interface_of none = none
interface_of (some r) = some r.interface_num

longest : interface_of (find_route (build init).routing_table 0x0a000001) ≡ some 2
unfolding find_route add_route assign routes_at dst_route_prefix
longest = refl

shorter : interface_of (find_route (build init).routing_table 0x0a000002) ≡ some 1
unfolding find_route add_route assign routes_at dst_route_prefix
shorter = refl

default : interface_of (find_route (build init).routing_table 0x0b000002) ≡ some 0
unfolding find_route add_route assign routes_at dst_route_prefix
default = refl

abbrev table : RoutingTable
table = (add_route 0x0a000000 8 none 1 init).routing_table

table-IsTable : IsTable 33 table
table-IsTable = (add_route-IsTable 0x0a000000 8 none 1 init tt (omega arith) (omega arith, refl)).0

find_route-IsBest_example : IsBest table 0x0a000001 (find_route table 0x0a000001)
find_route-IsBest_example =
    find_route-IsBest 33 table 0x0a000001 table-IsTable (omega arith) (omega arith)

add_route-IsTable_example :
    IsTable 33 (add_route 0x0a000000 8 none 1 init).routing_table
    × (routes_at 8 (add_route 0x0a000000 8 none 1 init).routing_table 0x0a000000
        ≡ some (record { next_hop = none; interface_num = 1 }))
    × ((p : ℕ)
        → p ≢ 0x0a000000
        → routes_at 8 (add_route 0x0a000000 8 none 1 init).routing_table p
          ≡ routes_at 8 init.routing_table p)
    × ((k : ℕ)
        → k ≢ 8
        → routes_at k (add_route 0x0a000000 8 none 1 init).routing_table
          ≡ routes_at k init.routing_table)
add_route-IsTable_example =
    add_route-IsTable 0x0a000000 8 none 1 init tt (omega arith) (omega arith, refl)

abbrev router : Router
router = record { interfaces = NetworkInterface.init zero_address 0 ∷ []; routing_table = table }

forward-live_example :
    (c : ℕ) × (Ipv4.compute_checksum (record header { ttl = 63; cksum = c })
      ≡ some (record header { ttl = 63; cksum = c }))
    × (forward datagram router
        ≡ send_by
            (find_route table 0x0a000002)
            (record { header = record header { ttl = 63; cksum = c }; payload = datagram.payload })
            router)
forward-live_example = forward-live datagram router refl (omega arith)

abbrev expired : Ipv4Datagram
expired = record datagram { header = record header { ttl = 1 } }

abbrev empty_interface : NetworkInterface
empty_interface = NetworkInterface.init zero_address 0

route-expired_example :
    route (record {
      interfaces = record empty_interface { datagrams_received = expired ∷ datagram ∷ [] } ∷ [];
      routing_table = table;
    })
    ≡ record {
      router = record {
        interfaces = record empty_interface { datagrams_received = datagram ∷ [] } ∷ [];
        routing_table = table;
      };
      frames = [];
      status = Status.returned;
    }
route-expired_example = route-expired expired (datagram ∷ []) empty_interface [] table (omega arith)
