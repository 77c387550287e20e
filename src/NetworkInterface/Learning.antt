-- ===== src/NetworkInterface/Learning.antt =====
-- What an ARP message teaches a network interface: the mapping, the answer, and the datagrams that waited.
use computer_networking.Prelude.{
  ℕ, Bool, true, false, not, ◌&&◌, some, List, [], ◌∷◌, ◌++◌, append-nil, ◌==◌, if◌then◌else◌, ◌≡◌,
  refl, sym, ap, ◌∙◌, ◌⊎◌, inl, inr, All, Bool-cases, Option-cases, arith,
}
use computer_networking.Ethernet.{
  EthernetAddress, EthernetFrame, same_address, ethernet_broadcast, type_ipv4, type_arp,
}
use computer_networking.Arp.{ArpMessage, opcode_request, opcode_reply}
use computer_networking.Ipv4.{Ipv4Datagram}
use computer_networking.NetworkInterface.{
  NetworkInterface, Outcome, then_do, frame_to, datagram_output, arp_output, arp_response,
  transmit_datagram, flush_pending, pending_at, learn, reply_to, answer, recv_arp, recv_frame,
  parse_arp, send_datagram, is_ignored,
}
use computer_networking.NetworkInterface.Flushed.{
  HasFrame, datagram_frames, flushed, flush_pending-frames, reply-output, HasLearned,
  flushed-HasLearned, flushed_again-HasLearned, flush_pending-again,
}

abbrev reply_frames : ArpMessage → NetworkInterface → List (List ℕ) → List EthernetFrame
reply_frames arp n payload =
    if (arp.opcode == opcode_request) && (arp.target_ip_address == n.ip_address)
    then frame_to n arp.sender_ethernet_address type_arp payload ∷ []
    else []

abbrev pub IsLearnedFrom :
    (arp : ArpMessage)
    → (n : NetworkInterface) → All HasFrame (pending_at arp.sender_ip_address n).0
    → Outcome
    → Type 0
IsLearnedFrom arp n h o =
    (o.failed ≡ false)
    × HasLearned arp n o.interface
    × (payload : List (List ℕ)) × (arp_output (arp_response n arp) ≡ some payload)
    × (o.frames
        ≡ reply_frames arp n payload
          ++ datagram_frames n.ethernet_address arp.sender_ethernet_address
              (pending_at arp.sender_ip_address n).0 h)

answer-cases :
    (arp : ArpMessage) (n : NetworkInterface) (payload : List (List ℕ))
    → arp_output (arp_response n arp) ≡ some payload
    → (answer arp n ≡ record { interface = n; frames = reply_frames arp n payload; failed = false })
      ⊎ ((answer arp n ≡ flush_pending arp n) × (reply_frames arp n payload ≡ []))
unfolding answer reply_to
answer-cases arp n payload e =
    elim (Bool-cases ((arp.opcode == opcode_request) && (arp.target_ip_address == n.ip_address))) [
      | inl q ↦ inl (rw (q, e))
      | inr q ↦
          elim (Bool-cases
            ((arp.opcode == opcode_reply) && (arp.target_ip_address == n.ip_address))) [
              | inr r ↦ inl (rw (q, r))
              | inl r ↦ elim (Option-cases (n.pending_arp_requests arp.sender_ip_address)) [
                | inl s ↦ inl (rw (q, r, s))
                | inr (w, s) ↦ inr (rw (q, r, s), rw q)
              ]
            ]
    ]

recv_arp-learns :
    (arp : ArpMessage) (n : NetworkInterface)
    (h : All HasFrame (pending_at arp.sender_ip_address n).0)
    → IsLearnedFrom arp n h (recv_arp arp n)
unfolding recv_arp then_do
recv_arp-learns arp n h =
    let (payload, e) = reply-output arp n in
    elim (answer-cases arp (learn arp n) payload e) [
      | inl q ↦
          rw (q, flush_pending-frames arp (learn arp n) h)
            (refl, flushed-HasLearned arp n, payload, e, refl)
      | inr (q, r) ↦
          rw
            (
              q,
              flush_pending-frames arp (learn arp n) h,
              flush_pending-again arp (flushed arp (learn arp n))
                  (flushed-HasLearned arp n).nothing_waits,
              append-nil,
            )
            (
              refl,
              flushed_again-HasLearned arp n (flushed arp (learn arp n)) (flushed-HasLearned arp n),
              payload,
              e,
              sym (
                  ap
                    (λ fs.
                      fs
                      ++ datagram_frames n.ethernet_address arp.sender_ethernet_address
                          (pending_at arp.sender_ip_address n).0 h)
                    r),
            )
    ]

and_false : (a b : Bool) → (a && b && false) ≡ false
and_false true true = refl
and_false true false = refl
and_false false b = refl

arp_tests :
    (type : ℕ) → type ≡ type_arp → ((type == type_arp) ≡ true) × ((type == type_ipv4) ≡ false)
arp_tests type t = (ground arith, ground arith)

is_ignored-arp :
    (f : EthernetFrame) (n : NetworkInterface) → f.header.type ≡ type_arp → is_ignored f n ≡ false
is_ignored-arp f n t = rw ((arp_tests f.header.type t).0) (
    and_false (not (same_address f.header.dst n.ethernet_address))
      (not (same_address f.header.dst ethernet_broadcast)))

recv_frame-arp :
    (f : EthernetFrame) (n : NetworkInterface) (arp : ArpMessage)
    → f.header.type ≡ type_arp
    → parse_arp f ≡ some (arp, true)
    → recv_frame f n ≡ recv_arp arp n
unfolding recv_frame then_do
recv_frame-arp f n arp t e =
    rw (is_ignored-arp f n t, (arp_tests f.header.type t).0, (arp_tests f.header.type t).1, e)

-- On a frame with an ARP message that parses, whoever it is addressed to, where the datagrams that
-- wait for the sender's IP address can be serialized, `recv_frame` does not fail: the sender's
-- mapping is kept for 30000 ms, a request for the interface's own address is answered, then the
-- datagrams that waited are transmitted to the sender, each once and in order, and wait no longer;
-- the other mappings and requests are unchanged.
pub recv_frame-learns :
    (f : EthernetFrame) (n : NetworkInterface) (arp : ArpMessage)
    → f.header.type ≡ type_arp
    → parse_arp f ≡ some (arp, true)
    → (h : All HasFrame (pending_at arp.sender_ip_address n).0)
    → IsLearnedFrom arp n h (recv_frame f n)
recv_frame-learns f n arp t e h = rw (recv_frame-arp f n arp t e) (recv_arp-learns arp n h)

send_datagram-known :
    (d : Ipv4Datagram) (ip ttl : ℕ) (n : NetworkInterface) (address : EthernetAddress)
    (payload : List (List ℕ))
    → n.arp_cache ip ≡ some (address, ttl)
    → datagram_output d ≡ some payload
    → send_datagram d ip n
      ≡ record { interface = n; frames = frame_to n address type_ipv4 payload ∷ []; failed = false }
unfolding send_datagram transmit_datagram
send_datagram-known d ip ttl n address payload e o = rw (e, o)

-- After a frame with an ARP message that parses, where the datagrams that waited for its sender can
-- be serialized, a datagram for the sender's IP address that can be serialized goes out at once, in
-- one IPv4 frame to the sender's Ethernet address, and the interface stays as it is.
pub send_datagram-recv_frame :
    (f : EthernetFrame) (n : NetworkInterface) (arp : ArpMessage) (d : Ipv4Datagram)
    (payload : List (List ℕ))
    → f.header.type ≡ type_arp
    → parse_arp f ≡ some (arp, true)
    → All HasFrame (pending_at arp.sender_ip_address n).0
    → datagram_output d ≡ some payload
    → send_datagram d arp.sender_ip_address (recv_frame f n).interface ≡ record {
      interface = (recv_frame f n).interface;
      frames = frame_to n arp.sender_ethernet_address type_ipv4 payload ∷ [];
      failed = false;
    }
send_datagram-recv_frame f n arp d payload t e h o =
    let (_, learned, _, _, _) = recv_frame-learns f n arp t e h in
    send_datagram-known d arp.sender_ip_address 30000 (recv_frame f n).interface
      arp.sender_ethernet_address payload learned.mapping o
    ∙ rw learned.same_addresses.0
