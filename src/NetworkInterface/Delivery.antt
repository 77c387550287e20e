-- ===== src/NetworkInterface/Delivery.antt =====
-- A datagram from one interface to another over a link.
use computer_networking.Prelude.{
  ℕ, ◌+◌, true, false, some, List, [], ◌∷◌, ◌++◌, ==_self, ◌≡◌, refl, length,
}
use computer_networking.Parser.{concat}
use computer_networking.Serializer
use computer_networking.Ethernet.{EthernetAddress, EthernetFrame, same_address, type_ipv4}
use computer_networking.Ipv4
use computer_networking.Ipv4.{Ipv4Datagram, compute_checksum}
use computer_networking.Ipv4.RoundTrip.{IsHeader}
use computer_networking.Ipv4.Datagram.{parse-serialize_datagram}
use computer_networking.NetworkInterface.{
  NetworkInterface, then_do, frame_to, send_datagram, recv_frame, parse_datagram, transmit_datagram,
}

same_address_self : (a : EthernetAddress) → same_address a a ≡ true
same_address_self [] = refl
same_address_self (x ∷ xs) = rw (==_self x, same_address_self xs)

recv_frame-datagram :
    (n m : NetworkInterface) (d' : Ipv4Datagram) (payload : List (List ℕ))
    → parse_datagram (frame_to n m.ethernet_address type_ipv4 payload) ≡ some (d', true)
    → recv_frame (frame_to n m.ethernet_address type_ipv4 payload) m ≡ record {
      interface = record m { datagrams_received = m.datagrams_received ++ d' ∷ [] };
      frames = [];
      failed = false;
    }
unfolding recv_frame then_do
recv_frame-datagram n m d' payload e = rw (same_address_self m.ethernet_address, e)

-- A datagram with a header of fitting fields and right checksum and length, sent to a next hop whose
-- Ethernet address is known, goes out in one frame; the interface with that address, given an owned
-- copy of the frame, transmits nothing and takes up the datagram, with the same header and the same
-- payload bytes.
pub recv_frame-send_datagram :
    (d : Ipv4Datagram) (ip ttl : ℕ) (n m : NetworkInterface)
    → n.arp_cache ip ≡ some (m.ethernet_address, ttl)
    → IsHeader d.header
    → compute_checksum d.header ≡ some d.header
    → d.header.len ≡ 20 + length (concat d.payload)
    → (f : EthernetFrame) × (payload : List (List ℕ)) × (send_datagram d ip n
        ≡ record { interface = n; frames = f ∷ []; failed = false })
      × (recv_frame f m ≡ record {
        interface = record m {
          datagrams_received =
              m.datagrams_received ++ record { header = d.header; payload = payload } ∷ [];
        };
        frames = [];
        failed = false;
      })
      × (concat payload ≡ concat d.payload)
unfolding send_datagram transmit_datagram
recv_frame-send_datagram d ip ttl n m k v c l =
    let before : Ipv4Datagram = record { header = Ipv4.default_header; payload = [] } in
    let (s, payload, p, e, q, no_error, same, _, _) = parse-serialize_datagram before d v c l in
    (
      frame_to n m.ethernet_address type_ipv4 (Serializer.finish s),
      payload,
      rw (k, e),
      recv_frame-datagram n m (record { header = d.header; payload = payload })
          (Serializer.finish s) (rw (q, no_error)),
      same,
    )
