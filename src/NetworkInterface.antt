-- ===== src/NetworkInterface.antt =====
-- src/network_interface.hh and src/network_interface.cc. The frames given to the output port are a list in
-- the outcome of each operation. The payload of a frame that arrives is owned, as that of the copies which `clone` of
-- util/helpers.hh makes of the frames given to a port. The name, the null check of the port and the debug output are not modelled.
mod Tests
pub mod Delivery
pub mod Flushed
pub mod Learning
pub mod Requests
pub mod Aging
use computer_networking.Prelude.{
  ℕ, ◌+◌, ◌-◌, Bool, true, false, not, ◌&&◌, ◌||◌, Option, none, some, List, [], ◌∷◌, ◌++◌, ltb,
  leb, ◌==◌, if◌then◌else◌, u64, add_w,
}
use computer_networking.Maps.{Map, no_entries, insert, erase, update_all, value_or}
use computer_networking.Parser
use computer_networking.Parser.{Parser}
use computer_networking.Serializer
use computer_networking.Helpers.{output, parsed}
use computer_networking.Serializer.{Serializer}
use computer_networking.Ethernet.{
  EthernetAddress, EthernetHeader, EthernetFrame, same_address, ethernet_broadcast, type_ipv4,
  type_arp,
}
use computer_networking.Arp
use computer_networking.Arp.{ArpMessage, opcode_request, opcode_reply}
use computer_networking.Ipv4
use computer_networking.Ipv4.{Ipv4Datagram}

-- `class NetworkInterface`.
pub record NetworkInterface : Type 0 where
  pub ethernet_address : EthernetAddress
  pub ip_address : ℕ
  pub datagrams_received : List Ipv4Datagram
  pub arp_cache : Map (EthernetAddress × ℕ)
  pub pending_arp_requests : Map (List Ipv4Datagram × ℕ)

-- Its constructor.
abbrev pub init : EthernetAddress → ℕ → NetworkInterface
init ethernet_address ip_address = record {
  ethernet_address = ethernet_address;
  ip_address = ip_address;
  datagrams_received = [];
  arp_cache = no_entries;
  pending_arp_requests = no_entries;
}

-- What an operation leaves: the interface, the frames transmitted, and whether it was left by an exception
-- (or by undefined behaviour of the parser). `then_do` is what follows unless it was.
pub record Outcome : Type 0 where
  pub interface : NetworkInterface
  pub frames : List EthernetFrame
  pub failed : Bool

abbrev pub done : NetworkInterface → Outcome
done n = record { interface = n; frames = []; failed = false }

abbrev pub fails : NetworkInterface → Outcome
fails n = record { interface = n; frames = []; failed = true }

unfoldable pub then_do : Outcome → (NetworkInterface → Outcome) → Outcome
then_do o f =
    let o' = f o.interface in
    if o.failed
    then o
    else record { interface = o'.interface; frames = o.frames ++ o'.frames; failed = o'.failed }

-- A frame of this interface with a payload, transmitted.
abbrev pub frame_to : NetworkInterface → EthernetAddress → ℕ → List (List ℕ) → EthernetFrame
frame_to n dst type payload = record {
  header = record { dst = dst; src = n.ethernet_address; type = type };
  payload = payload;
}

abbrev pub transmit : NetworkInterface → EthernetAddress → ℕ → Option (List (List ℕ)) → Outcome
transmit n dst type none = fails n
transmit n dst type (some payload) = record {
  interface = n;
  frames = frame_to n dst type payload ∷ [];
  failed = false;
}

abbrev pub arp_output : ArpMessage → Option (List (List ℕ))
arp_output m = output (Arp.serialize m Serializer.empty)

abbrev pub datagram_output : Ipv4Datagram → Option (List (List ℕ))
datagram_output d = output (Ipv4.serialize d Serializer.empty)

unfoldable pub transmit_datagram : EthernetAddress → Ipv4Datagram → NetworkInterface → Outcome
transmit_datagram dst d n = transmit n dst type_ipv4 (datagram_output d)

-- The messages that `send_datagram` and `recv_frame` fill in.
abbrev pub arp_request : NetworkInterface → ℕ → ArpMessage
arp_request n next_hop = record Arp.default_message {
  opcode = opcode_request;
  sender_ethernet_address = n.ethernet_address;
  sender_ip_address = n.ip_address;
  target_ip_address = next_hop;
}

abbrev pub arp_response : NetworkInterface → ArpMessage → ArpMessage
arp_response n arp = record Arp.default_message {
  opcode = opcode_reply;
  sender_ethernet_address = n.ethernet_address;
  sender_ip_address = n.ip_address;
  target_ip_address = arp.sender_ip_address;
  target_ethernet_address = arp.sender_ethernet_address;
}

-- `NetworkInterface::send_datagram`: with the Ethernet address known; otherwise the request, unless one is
-- pending, and the datagram appended to those that wait. `m[k]` makes an empty entry of age 0.
unfoldable pub request_address : ℕ → Option (List Ipv4Datagram × ℕ) → NetworkInterface → Outcome
request_address next_hop none n =
    transmit n ethernet_broadcast type_arp (arp_output (arp_request n next_hop))
request_address next_hop (some (queued, age)) n =
    if ltb 5000 age
    then transmit n ethernet_broadcast type_arp (arp_output (arp_request n next_hop))
    else done n

abbrev pub pending_at : ℕ → NetworkInterface → List Ipv4Datagram × ℕ
pending_at ip n = value_or ([], 0) (n.pending_arp_requests ip)

unfoldable pub enqueue : ℕ → Ipv4Datagram → NetworkInterface → Outcome
enqueue next_hop d n = done (record n {
  pending_arp_requests =
      insert next_hop ((pending_at next_hop n).0 ++ d ∷ [], (pending_at next_hop n).1)
        n.pending_arp_requests;
})

abbrev pub send_by : Ipv4Datagram → ℕ → Option (EthernetAddress × ℕ) → NetworkInterface → Outcome
send_by d next_hop (some (dst, ttl)) n = transmit_datagram dst d n
send_by d next_hop none n =
    then_do (request_address next_hop (n.pending_arp_requests next_hop) n) (enqueue next_hop d)

unfoldable pub send_datagram : Ipv4Datagram → ℕ → NetworkInterface → Outcome
send_datagram d next_hop n = send_by d next_hop (n.arp_cache next_hop) n

-- The loop over the datagrams that wait for an address.
unfoldable pub transmit_all : EthernetAddress → List Ipv4Datagram → NetworkInterface → Outcome
transmit_all dst [] n = done n
transmit_all dst (d ∷ ds) n = then_do (transmit_datagram dst d n) (transmit_all dst ds)

-- That loop at the sender's address, and the erasure that follows it. `m[k]` makes the entry first.
unfoldable pub flush_pending : ArpMessage → NetworkInterface → Outcome
flush_pending arp n =
    then_do
      (transmit_all arp.sender_ethernet_address (pending_at arp.sender_ip_address n).0 (record n {
        pending_arp_requests =
            insert arp.sender_ip_address (pending_at arp.sender_ip_address n)
              n.pending_arp_requests;
      }))
      (λ n'.
        done (record n' {
          pending_arp_requests = erase arp.sender_ip_address n'.pending_arp_requests;
        }))

-- `arp_cache_[...] = make_pair( ..., 30000 )`.
abbrev pub learn : ArpMessage → NetworkInterface → NetworkInterface
learn arp n = record n {
  arp_cache = insert arp.sender_ip_address (arp.sender_ethernet_address, 30000) n.arp_cache;
}

-- What a request or a reply for this interface's own address leads to.
unfoldable pub reply_to : ArpMessage → NetworkInterface → Outcome
reply_to arp n = transmit n arp.sender_ethernet_address type_arp (arp_output (arp_response n arp))

abbrev pub flush_found : ArpMessage → Option (List Ipv4Datagram × ℕ) → NetworkInterface → Outcome
flush_found arp none n = done n
flush_found arp (some _) n = flush_pending arp n

unfoldable pub answer : ArpMessage → NetworkInterface → Outcome
answer arp n =
    if (arp.opcode == opcode_request) && (arp.target_ip_address == n.ip_address)
    then reply_to arp n
    else (if (arp.opcode == opcode_reply) && (arp.target_ip_address == n.ip_address)
        then flush_found arp (n.pending_arp_requests arp.sender_ip_address) n
        else done n)

unfoldable pub recv_arp : ArpMessage → NetworkInterface → Outcome
recv_arp arp n = then_do (answer arp (learn arp n)) (flush_pending arp)

-- What `recv_frame` does with a parsed payload.
abbrev pub on_datagram : Option (Ipv4Datagram × Bool) → NetworkInterface → Outcome
on_datagram none n = fails n
on_datagram (some (d, false)) n = done n
on_datagram (some (d, true)) n =
    done (record n { datagrams_received = n.datagrams_received ++ d ∷ [] })

abbrev pub on_arp : Option (ArpMessage × Bool) → NetworkInterface → Outcome
on_arp none n = fails n
on_arp (some (arp, false)) n = done n
on_arp (some (arp, true)) n = recv_arp arp n

abbrev pub parse_datagram : EthernetFrame → Option (Ipv4Datagram × Bool)
parse_datagram f =
    parsed
      (Ipv4.parse (record { header = Ipv4.default_header; payload = [] }) (Parser.make f.payload))

abbrev pub parse_arp : EthernetFrame → Option (ArpMessage × Bool)
parse_arp f = parsed (Arp.parse Arp.default_message (Parser.make f.payload))

-- `NetworkInterface::recv_frame`.
abbrev pub is_ignored : EthernetFrame → NetworkInterface → Bool
is_ignored f n =
    not (same_address f.header.dst n.ethernet_address)
    && not (same_address f.header.dst ethernet_broadcast)
    && not (f.header.type == type_arp)

unfoldable pub recv_frame : EthernetFrame → NetworkInterface → Outcome
recv_frame f n =
    if is_ignored f n
    then done n
    else then_do (if f.header.type == type_ipv4 then on_datagram (parse_datagram f) n else done n)
        (λ n'. if f.header.type == type_arp then on_arp (parse_arp f) n' else done n')

-- `NetworkInterface::tick`: the loop over each map.
abbrev pub age_entry : ℕ → EthernetAddress × ℕ → Option (EthernetAddress × ℕ)
age_entry ms (address, ttl) = if leb ttl ms then none else some (address, ttl - ms)

abbrev pub age_request : ℕ → List Ipv4Datagram × ℕ → Option (List Ipv4Datagram × ℕ)
age_request ms (queued, age) =
    if ltb 5000 (add_w u64 age ms) then none else some (queued, add_w u64 age ms)

unfoldable pub tick : ℕ → NetworkInterface → NetworkInterface
tick ms n = record n {
  arp_cache = update_all (age_entry ms) n.arp_cache;
  pending_arp_requests = update_all (age_request ms) n.pending_arp_requests;
}
