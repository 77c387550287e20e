-- ===== src/Router/Forward.antt =====
-- What `route` does with the datagrams that wait at the interfaces.
use computer_networking.Prelude.{
  ℕ, zero, ◌-◌, ◌≤◌, ◌<◌, false, some, List, [], ◌∷◌, leb, ◌≡◌, arith,
}
use computer_networking.Ipv4
use computer_networking.Ipv4.{Ipv4Datagram, Ipv4Header}
use computer_networking.Ipv4.Datagram.{compute_checksum_total}
use computer_networking.NetworkInterface.{NetworkInterface}
use computer_networking.Router.{
  RoutingTable, Router, Status, find_route, forward, send_by, drain, route_from, route, set_queue,
  then_do,
}

-- A datagram of version 4 whose ttl is more than 1 is handed to the route that is found for its
-- destination with its ttl one less, a checksum that computing it again confirms, and all else as it
-- was.
pub forward-live :
    (d : Ipv4Datagram) (r : Router)
    → d.header.ver ≡ 4
    → 1 < d.header.ttl
    → (c : ℕ) × (Ipv4.compute_checksum (record d.header { ttl = d.header.ttl - 1; cksum = c })
        ≡ some (record d.header { ttl = d.header.ttl - 1; cksum = c }))
      × (forward d r
          ≡ send_by
              (find_route r.routing_table d.header.dst)
              (record {
                header = record d.header { ttl = d.header.ttl - 1; cksum = c };
                payload = d.payload;
              })
              r)
unfolding forward
forward-live d r v t =
    let (c, e, b, again) = compute_checksum_total (record d.header { ttl = d.header.ttl - 1 }) v in
    (c, again, rw (late d.header.ttl t, e))
  where
    late : (ttl : ℕ) → 1 < ttl → leb ttl 1 ≡ false
    late ttl t = ground arith

forward-expired :
    (d : Ipv4Datagram) (r : Router)
    → d.header.ttl ≤ 1
    → forward d r ≡ record { router = r; frames = []; status = Status.returned }
unfolding forward
forward-expired d r t = ground arith

drain-expired :
    (i : ℕ) (d : Ipv4Datagram) (queue : List Ipv4Datagram) (r : Router)
    → d.header.ttl ≤ 1
    → drain i (d ∷ queue) r
      ≡ record { router = set_queue i queue r; frames = []; status = Status.returned }
unfolding drain then_do
drain-expired i d queue r t = rw (forward-expired d (set_queue i queue r) t)

-- Where the first datagram at the first interface has a ttl of at most 1, `route` drops it and
-- returns: nothing is transmitted, and every datagram behind it and at the other interfaces stays
-- where it is.
pub route-expired :
    (d : Ipv4Datagram) (queue : List Ipv4Datagram) (n : NetworkInterface)
    (others : List NetworkInterface) (table : RoutingTable)
    → d.header.ttl ≤ 1
    → route (record {
      interfaces = record n { datagrams_received = d ∷ queue } ∷ others;
      routing_table = table;
    })
      ≡ record {
        router = record {
          interfaces = record n { datagrams_received = queue } ∷ others;
          routing_table = table;
        };
        frames = [];
        status = Status.returned;
      }
unfolding route route_from set_queue then_do
route-expired d queue n others table t = rw (
    drain-expired zero d queue
      (record {
        interfaces = record n { datagrams_received = d ∷ queue } ∷ others;
        routing_table = table;
      })
      t)
