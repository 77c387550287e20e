-- ===== src/NetworkInterface/Tests.antt =====
-- Two interfaces, 10.0.0.1 and 10.0.0.2, that learn each other's address and pass a datagram.
use computer_networking.Prelude.{
  ℕ, ◌≡◌, refl, List, [], ◌∷◌, none, some, true, false, length, arith,
}
use computer_networking.Maps.{no_entries, insert}
use computer_networking.Parser
use computer_networking.Parser.{concat}
use computer_networking.Ethernet.{
  EthernetAddress, EthernetFrame, type_ipv4, type_arp, ethernet_broadcast,
}
use computer_networking.Arp
use computer_networking.Arp.{ArpMessage, opcode_reply, opcode_request}
use computer_networking.Ipv4
use computer_networking.Ipv4.{Ipv4Datagram}
use computer_networking.Ipv4.Tests.{datagram, header-IsHeader, header_checksum}
use computer_networking.NetworkInterface.{
  NetworkInterface, init, tick, send_datagram, recv_frame, parse_arp, frame_to, arp_output,
  arp_request,
}
use computer_networking.NetworkInterface.Flushed.{HasFrame}
use computer_networking.NetworkInterface.Learning.{
  IsLearnedFrom, recv_frame-learns, send_datagram-recv_frame,
}
use computer_networking.NetworkInterface.Requests.{Event, run, run-waits, tick-drops}
use computer_networking.NetworkInterface.Aging.{ticks, ticks-age}
use computer_networking.NetworkInterface.Delivery.{recv_frame-send_datagram}

abbrev a_address : EthernetAddress
a_address = 2 ∷ 0 ∷ 0 ∷ 0 ∷ 0 ∷ 1 ∷ []

abbrev b_address : EthernetAddress
b_address = 2 ∷ 0 ∷ 0 ∷ 0 ∷ 0 ∷ 2 ∷ []

abbrev a_ip : ℕ
a_ip = 0x0a000001

abbrev b_ip : ℕ
b_ip = 0x0a000002

abbrev a : NetworkInterface
a = init a_address a_ip

abbrev b : NetworkInterface
b = init b_address b_ip

-- `a` has asked for the address of `b`, and one datagram waits.
abbrev waiting : NetworkInterface
waiting = record a { pending_arp_requests = insert b_ip (datagram ∷ [], 100) no_entries }

-- It knows the address.
abbrev knowing : NetworkInterface
knowing = record a { arp_cache = insert b_ip (b_address, 30000) no_entries }

abbrev reply : ArpMessage
reply = record Arp.default_message {
  opcode = opcode_reply;
  sender_ethernet_address = b_address;
  sender_ip_address = b_ip;
  target_ethernet_address = a_address;
  target_ip_address = a_ip;
}

abbrev reply_frame : EthernetFrame
reply_frame = frame_to b a_address type_arp (
    (0 ∷ 1 ∷ 8 ∷ 0 ∷ 6 ∷ 4 ∷ 0 ∷ 2 ∷ 2 ∷ 0 ∷ 0 ∷ 0 ∷ 0 ∷ 2 ∷ 10 ∷ 0 ∷ 0 ∷ 2 ∷ 2 ∷ 0 ∷ 0 ∷ 0 ∷ 0 ∷ 1
      ∷ 10 ∷ 0 ∷ 0 ∷ 1 ∷ [])
    ∷ [])

reply_frame-reply : parse_arp reply_frame ≡ some (reply, true)
unfolding Arp.parse Arp.parse_fixed Arp.parse_addresses Arp.supported Parser.make
    Parser.hold_buffers Parser.integer Parser.integer_loop Parser.octets Parser.next_byte
    Parser.check_size Parser.front_of Parser.peek Parser.peek_front Parser.remove_prefix
    Parser.remove_loop Parser.◌>>=◌ Parser.pure
reply_frame-reply = refl

datagram-HasFrame : HasFrame datagram
unfolding Ipv4.serialize Ipv4.serialize_header
datagram-HasFrame = (_, refl)

-- The frames of the datagrams that waited, and the first request for an unknown address.
flushed : length (recv_frame reply_frame waiting).frames ≡ 1
flushed =
    let (_, _, _, _, e) =
      recv_frame-learns reply_frame waiting reply refl reply_frame-reply (datagram-HasFrame, tt) in
    rw e

recv_frame-learns_example :
    IsLearnedFrom reply waiting (datagram-HasFrame, tt) (recv_frame reply_frame waiting)
recv_frame-learns_example =
    recv_frame-learns reply_frame waiting reply refl reply_frame-reply (datagram-HasFrame, tt)

send_datagram-recv_frame_example :
    send_datagram datagram b_ip (recv_frame reply_frame waiting).interface ≡ record {
      interface = (recv_frame reply_frame waiting).interface;
      frames = frame_to waiting b_address type_ipv4 datagram-HasFrame.0 ∷ [];
      failed = false;
    }
send_datagram-recv_frame_example =
    send_datagram-recv_frame reply_frame waiting reply datagram datagram-HasFrame.0 refl
      reply_frame-reply (datagram-HasFrame, tt) datagram-HasFrame.1

abbrev events : List Event
events = Event.send datagram ∷ Event.wait 4000 ∷ Event.send datagram ∷ Event.wait 900 ∷ []

run-waits_example :
    ((run b_ip events waiting).frames ≡ [])
    × ((run b_ip events waiting).failed ≡ false)
    × ((run b_ip events waiting).interface.arp_cache b_ip ≡ none)
    × ((run b_ip events waiting).interface.pending_arp_requests b_ip
        ≡ some (datagram ∷ datagram ∷ datagram ∷ [], 5000))
run-waits_example = run-waits b_ip 100 events (datagram ∷ []) waiting refl refl (omega arith)

tick-drops_example :
    (payload : List (List ℕ)) × (arp_output (arp_request waiting b_ip) ≡ some payload)
    × ((send_datagram datagram b_ip (tick 4901 waiting)).frames
        ≡ frame_to waiting ethernet_broadcast type_arp payload ∷ [])
    × ((send_datagram datagram b_ip (tick 4901 waiting)).interface.pending_arp_requests b_ip
        ≡ some (datagram ∷ [], 0))
tick-drops_example =
    tick-drops datagram b_ip 100 4901 (datagram ∷ []) waiting refl refl (omega arith) (omega arith)

ticks-age_example : (ticks (10000 ∷ 19999 ∷ []) knowing).arp_cache b_ip ≡ some (b_address, 1)
ticks-age_example = ticks-age b_ip 30000 b_address (10000 ∷ 19999 ∷ []) knowing refl (omega arith)

recv_frame-send_datagram_example :
    (f : EthernetFrame) × (payload : List (List ℕ)) × (send_datagram datagram b_ip knowing
      ≡ record { interface = knowing; frames = f ∷ []; failed = false })
    × (recv_frame f b ≡ record {
      interface = record b {
        datagrams_received = record { header = datagram.header; payload = payload } ∷ [];
      };
      frames = [];
      failed = false;
    })
    × (concat payload ≡ 7 ∷ 8 ∷ [])
recv_frame-send_datagram_example =
    recv_frame-send_datagram datagram b_ip 30000 knowing b refl header-IsHeader header_checksum refl
