-- ===== src/Router.antt =====
-- src/router.hh and src/router.cc. The interfaces that the router shares with its owner are values in a
-- list, one for each index; the frames that they transmit are listed with the index. The debug output
-- is not modelled. `add_route` documents prefix lengths of up to 32; a shift by more than 31 bits,
-- which a greater one would lead to, is undefined in C++ and shifts everything out here.
mod Tests
pub mod Lookup
pub mod Table
pub mod Forward
use computer_networking.Prelude.{
  ℕ, zero, suc, ◌+◌, ◌-◌, ◌*◌, ◌/◌, ◌^◌, Bool, true, false, Option, none, some, List, [], ◌∷◌, ◌++◌,
  map, ltb, leb, ◌==◌, if◌then◌else◌, length, get_elem?, set, u8, sub_w,
}
use computer_networking.Maps.{Map, no_entries, insert, value_or}
use computer_networking.Ethernet.{EthernetFrame}
use computer_networking.Ipv4
use computer_networking.Ipv4.{Ipv4Datagram, Ipv4Header}
use computer_networking.NetworkInterface
use computer_networking.NetworkInterface.{NetworkInterface, Outcome}

-- `struct route_to_next_` and `class Router`. The table, a `std::map` by prefix length, is a list in
-- the order of its reverse iterators: from the longest prefix to the shortest.
pub record Route : Type 0 where
  pub next_hop : Option ℕ
  pub interface_num : ℕ

abbrev pub RoutingTable : Type 0
RoutingTable = List (ℕ × Map Route)

pub record Router : Type 0 where
  pub interfaces : List NetworkInterface
  pub routing_table : RoutingTable

abbrev pub init : Router
init = record { interfaces = []; routing_table = [] }

-- `Router::add_interface`, with the index that it returns.
unfoldable pub add_interface : NetworkInterface → Router → Router × ℕ
add_interface n r =
    let interfaces = r.interfaces ++ n ∷ [] in
    (record r { interfaces = interfaces }, length interfaces - 1)

-- The entry of a prefix length, and the assignment of one.
unfoldable pub routes_at : ℕ → RoutingTable → Map Route
routes_at len [] = no_entries
routes_at len ((l, m) ∷ rest) = let later = routes_at len rest in if l == len then m else later

unfoldable pub assign : ℕ → Map Route → RoutingTable → RoutingTable
assign len routes [] = (len, routes) ∷ []
assign len routes ((l, m) ∷ rest) =
    let later = assign len routes rest in
    if l == len
    then (len, routes) ∷ rest
    else (if ltb l len then (len, routes) ∷ (l, m) ∷ rest else (l, m) ∷ later)

-- `Router::add_route`.
unfoldable pub add_route : ℕ → ℕ → Option ℕ → ℕ → Router → Router
add_route route_prefix prefix_length next_hop interface_num r = record r {
  routing_table =
      assign prefix_length
        (insert route_prefix (record { next_hop = next_hop; interface_num = interface_num })
          (routes_at prefix_length r.routing_table))
        r.routing_table;
}

-- The key that `route` looks up among the routes of one prefix length.
abbrev pub default_prefix : ℕ → Option Route → ℕ
default_prefix dst none = 0
default_prefix dst (some _) = dst

unfoldable pub dst_route_prefix : ℕ → Map Route → ℕ → ℕ
dst_route_prefix len routes dst =
    if len == 0
    then default_prefix dst (routes dst)
    else dst / 2 ^ sub_w u8 32 len * 2 ^ sub_w u8 32 len

-- The loop over the table, up to its `break`.
abbrev pub first_route : Option Route → Option Route → Option Route
first_route none later = later
first_route (some route) later = some route

unfoldable pub find_route : RoutingTable → ℕ → Option Route
find_route [] dst = none
find_route ((len, routes) ∷ rest) dst =
    first_route (routes (dst_route_prefix len routes dst)) (find_route rest dst)

-- What `route` leaves, and how: it ran to its end, it returned early, or an exception ended it.
pub data Status : Type 0 where
  finished : Status
  returned : Status
  failed : Status

pub record Routed : Type 0 where
  pub router : Router
  pub frames : List (ℕ × EthernetFrame)
  pub status : Status

-- `this->interface( N )->send_datagram( ... )`; `interfaces_.at( N )` throws out of range.
abbrev pub status_of : Bool → Status
status_of true = Status.failed
status_of false = Status.finished

abbrev pub sent_by : ℕ → Outcome → Router → Routed
sent_by i o r = record {
  router = record r { interfaces = set r.interfaces i o.interface };
  frames = map (λ f. (i, f)) o.frames;
  status = status_of o.failed;
}

abbrev pub send_on : ℕ → Option NetworkInterface → Ipv4Datagram → ℕ → Router → Routed
send_on i none d next_hop r = record { router = r; frames = []; status = Status.failed }
send_on i (some n) d next_hop r = sent_by i (NetworkInterface.send_datagram d next_hop n) r

abbrev pub send_by : Option Route → Ipv4Datagram → Router → Routed
send_by none d r = record { router = r; frames = []; status = Status.finished }
send_by (some route) d r =
    send_on route.interface_num (get_elem? r.interfaces route.interface_num) d
      (value_or d.header.dst route.next_hop) r

-- One datagram: its lifetime is checked and counted down and its checksum computed, which may throw.
abbrev pub forward_header : Option Ipv4Header → Ipv4Datagram → Router → Routed
forward_header none d r = record { router = r; frames = []; status = Status.failed }
forward_header (some h) d r = send_by (find_route r.routing_table h.dst) (record d { header = h }) r

unfoldable pub forward : Ipv4Datagram → Router → Routed
forward d r =
    if leb d.header.ttl 1
    then record { router = r; frames = []; status = Status.returned }
    else forward_header (Ipv4.compute_checksum (record d.header { ttl = d.header.ttl - 1 })) d r

-- What follows a finished step.
abbrev pub after_status : Status → Routed → Routed → Routed
after_status Status.finished o o' = record {
  router = o'.router;
  frames = o.frames ++ o'.frames;
  status = o'.status;
}
after_status Status.returned o o' = o
after_status Status.failed o o' = o

unfoldable pub then_do : Routed → (Router → Routed) → Routed
then_do o f = after_status o.status o (f o.router)

-- The `while` loop over the queue of interface `i`: the second argument is that queue. Sending on an
-- interface leaves every queue as it is, so the queue after a datagram is the rest of the queue before.
abbrev pub with_queue :
    List Ipv4Datagram → Option NetworkInterface → ℕ → List NetworkInterface → List NetworkInterface
with_queue queue none i interfaces = interfaces
with_queue queue (some n) i interfaces = set interfaces i (record n { datagrams_received = queue })

unfoldable pub set_queue : ℕ → List Ipv4Datagram → Router → Router
set_queue i queue r = record r {
  interfaces = with_queue queue (get_elem? r.interfaces i) i r.interfaces;
}

unfoldable pub drain : ℕ → List Ipv4Datagram → Router → Routed
drain i [] r = record { router = r; frames = []; status = Status.finished }
drain i (d ∷ queue) r = then_do (forward d (set_queue i queue r)) (drain i queue)

-- The loop over the interfaces: `count` of them, from index `i`.
abbrev pub queue_of : Option NetworkInterface → List Ipv4Datagram
queue_of none = []
queue_of (some n) = n.datagrams_received

unfoldable pub route_from : ℕ → ℕ → Router → Routed
route_from zero i r = record { router = r; frames = []; status = Status.finished }
route_from (suc count) i r =
    then_do (drain i (queue_of (get_elem? r.interfaces i)) r) (route_from count (i + 1))

-- `void Router::route()`.
unfoldable pub route : Router → Routed
route r = route_from (length r.interfaces) 0 r
