-- ===== src/NetworkInterface/Flushed.antt =====
-- The datagrams that waited for an address, and what is left when they are sent.
use computer_networking.Prelude.{
  ℕ, false, none, some, List, [], ◌∷◌, append-nil, ◌≡◌, ◌≢◌, refl, ◌∙◌, All,
}
use computer_networking.Maps.{
  insert, erase, insert-same, insert-other, erase-same, erase-insert_other,
}
use computer_networking.Ethernet.{EthernetAddress, EthernetFrame, type_ipv4}
use computer_networking.Arp
use computer_networking.Arp.{ArpMessage, opcode_request, opcode_reply}
use computer_networking.Ipv4.{Ipv4Datagram}
use computer_networking.NetworkInterface.{
  NetworkInterface, then_do, datagram_output, arp_output, arp_response, transmit_datagram,
  transmit_all, flush_pending, pending_at, learn,
}

-- The frames of datagrams that can be serialized.
abbrev pub HasFrame : Ipv4Datagram → Type 0
HasFrame d = (payload : List (List ℕ)) × (datagram_output d ≡ some payload)

abbrev pub datagram_frames :
    EthernetAddress
    → EthernetAddress
    → (ds : List Ipv4Datagram) → All HasFrame ds
    → List EthernetFrame
datagram_frames src dst [] h = []
datagram_frames src dst (d ∷ ds) h =
    record { header = record { dst = dst; src = src; type = type_ipv4 }; payload = h.0.0 }
    ∷ datagram_frames src dst ds h.1

transmit_all-frames :
    (dst : EthernetAddress) (ds : List Ipv4Datagram) (n : NetworkInterface) (h : All HasFrame ds)
    → transmit_all dst ds n ≡ record {
      interface = n;
      frames = datagram_frames n.ethernet_address dst ds h;
      failed = false;
    }
unfolding transmit_all transmit_datagram then_do
transmit_all-frames dst [] n h = refl
transmit_all-frames dst (d ∷ ds) n h = rw (h.0.1, transmit_all-frames dst ds n h.1)

-- The interface after a flush.
abbrev pub flushed : ArpMessage → NetworkInterface → NetworkInterface
flushed arp n = record n {
  pending_arp_requests =
      erase arp.sender_ip_address
        (insert arp.sender_ip_address (pending_at arp.sender_ip_address n) n.pending_arp_requests);
}

pub flush_pending-frames :
    (arp : ArpMessage) (n : NetworkInterface)
    (h : All HasFrame (pending_at arp.sender_ip_address n).0)
    → flush_pending arp n ≡ record {
      interface = flushed arp n;
      frames =
          datagram_frames n.ethernet_address arp.sender_ethernet_address
            (pending_at arp.sender_ip_address n).0
            h;
      failed = false;
    }
unfolding flush_pending then_do
flush_pending-frames arp n h =
    rw
      (transmit_all-frames arp.sender_ethernet_address (pending_at arp.sender_ip_address n).0
        (record n {
          pending_arp_requests =
              insert arp.sender_ip_address (pending_at arp.sender_ip_address n)
                n.pending_arp_requests;
        })
        h)
      (rw (
        append-nil (
          datagram_frames n.ethernet_address arp.sender_ethernet_address
            (pending_at arp.sender_ip_address n).0 h)))

-- The answer to an ARP request for the interface's own address can always be serialized.
pub reply-output :
    (arp : ArpMessage) (n : NetworkInterface)
    → (payload : List (List ℕ)) × (arp_output (arp_response n arp) ≡ some payload)
unfolding Arp.serialize Arp.supported
reply-output arp n = (_, refl)

-- What an interface has learned from a message: the mapping, and no datagram waits for it any longer; the
-- other entries are as before.
pub record HasLearned (arp : ArpMessage) (n m : NetworkInterface) : Type 0 where
  pub mapping : m.arp_cache arp.sender_ip_address ≡ some (arp.sender_ethernet_address, 30000)
  pub nothing_waits : m.pending_arp_requests arp.sender_ip_address ≡ none
  pub other_mappings : (ip : ℕ) → ip ≢ arp.sender_ip_address → m.arp_cache ip ≡ n.arp_cache ip
  pub other_requests :
      (ip : ℕ) → ip ≢ arp.sender_ip_address → m.pending_arp_requests ip ≡ n.pending_arp_requests ip
  pub same_addresses : (m.ethernet_address ≡ n.ethernet_address) × (m.ip_address ≡ n.ip_address)
  pub same_datagrams : m.datagrams_received ≡ n.datagrams_received

pub flushed-HasLearned :
    (arp : ArpMessage) (n : NetworkInterface) → HasLearned arp n (flushed arp (learn arp n))
flushed-HasLearned arp n = record {
  mapping = insert-same arp.sender_ip_address (arp.sender_ethernet_address, 30000) n.arp_cache;
  nothing_waits =
      erase-same arp.sender_ip_address
        (insert arp.sender_ip_address (pending_at arp.sender_ip_address n) n.pending_arp_requests);
  other_mappings = λ ip h.
      insert-other arp.sender_ip_address ip (arp.sender_ethernet_address, 30000) n.arp_cache h;
  other_requests = λ ip h.
      erase-insert_other arp.sender_ip_address ip (pending_at arp.sender_ip_address n)
        n.pending_arp_requests h;
  same_addresses = (refl, refl);
  same_datagrams = refl;
}

-- Flushing again, with nothing left, changes no more.
pub flushed_again-HasLearned :
    (arp : ArpMessage) (n m : NetworkInterface)
    → HasLearned arp n m
    → HasLearned arp n (flushed arp m)
flushed_again-HasLearned arp n m once = record {
  mapping = once.mapping;
  nothing_waits =
      erase-same arp.sender_ip_address
        (insert arp.sender_ip_address (pending_at arp.sender_ip_address m) m.pending_arp_requests);
  other_mappings = once.other_mappings;
  other_requests = λ ip h.
      erase-insert_other arp.sender_ip_address ip (pending_at arp.sender_ip_address m)
        m.pending_arp_requests h
      ∙ once.other_requests ip h;
  same_addresses = once.same_addresses;
  same_datagrams = once.same_datagrams;
}

pub flush_pending-again :
    (arp : ArpMessage) (m : NetworkInterface)
    → m.pending_arp_requests arp.sender_ip_address ≡ none
    → flush_pending arp m ≡ record { interface = flushed arp m; frames = []; failed = false }
unfolding flush_pending then_do transmit_all
flush_pending-again arp m e = rw e
