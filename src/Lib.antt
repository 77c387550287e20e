-- ===== src/Lib.antt =====
-- A verification library of the network stack of this repository: the byte stream, TCP, IPv4, ARP,
-- Ethernet, the network interface, the router, TCP over IP, file descriptors and the event loop.
--
-- The parts, and how they interact. A TCP endpoint (util/tcp_peer.hh) has a sender, which cuts the bytes of a
-- byte stream into segments, and a receiver, which gives the segments that arrive to a reassembler, which
-- writes the bytes in order to another byte stream; absolute and wrapped sequence numbers are converted by
-- Wrap32. Below, a network interface wraps IPv4 datagrams into Ethernet frames, finds the Ethernet address of
-- the next hop by ARP, and a router passes the datagrams between its interfaces. Every format is written by
-- a Serializer and read by a Parser, and IPv4 headers and TCP segments are guarded by the internet checksum. An
-- adapter (util/tcp_over_ip.hh) carries TCP segments in IPv4 datagrams to and from a device. File descriptors are
-- polled by an event loop, whose rules run callbacks; the application apps/bidirectional_stream_copy.cc moves bytes between
-- descriptors through byte streams by four such rules.
--
-- Which file models which part:
--   Wrapping          src/wrapping_integers.hh, src/wrapping_integers.cc: Wrap32
--   ByteStream        src/byte_stream.hh, src/byte_stream.cc, src/byte_stream_helpers.cc: Writer, Reader, read
--   TcpMessage        util/tcp_sender_message.hh, util/tcp_receiver_message.hh, util/tcp_config.hh,
--                     and struct TCPMessage of util/tcp_segment.hh
--   TcpSender         src/tcp_sender.hh, src/tcp_sender.cc: TCPSender
--   Reassembler       src/reassembler.hh, src/reassembler.cc: Reassembler
--   TcpReceiver       src/tcp_receiver.hh, src/tcp_receiver.cc: TCPReceiver
--   TcpPeer           util/tcp_peer.hh: TCPPeer
--   Ref               util/ref.hh: Ref over a string
--   Parser, Serializer  util/parser.hh, util/parser.cc
--   Checksum          util/checksum.hh: InternetChecksum
--   Ethernet          util/ethernet_header.hh, util/ethernet_header.cc, util/ethernet_frame.hh
--   Arp               util/arp_message.hh, util/arp_message.cc
--   Ipv4              util/ipv4_header.hh, util/ipv4_header.cc, util/ipv4_datagram.hh
--   NetworkInterface  src/network_interface.hh, src/network_interface.cc
--   Router            src/router.hh, src/router.cc
--   Helpers           util/helpers.hh: serialize and parse
--   TcpSegment        util/tcp_segment.hh, util/tcp_segment.cc, util/udinfo.hh
--   TcpOverIp         util/tcp_over_ip.hh, util/tcp_over_ip.cc, util/fd_adapter.hh
--   TunAdapter        util/tuntap_adapter.hh, util/tuntap_adapter.cc, util/lossy_fd_adapter.hh
--   FileDescriptor    util/file_descriptor.hh, util/file_descriptor.cc
--   Socket            util/socket.hh, util/socket.cc
--   EventLoop         util/eventloop.hh, util/eventloop.cc
--   StreamCopy        apps/bidirectional_stream_copy.cc
-- Prelude has the Boolean tests, the lists and the machine words that they share, and Maps the finite maps.
-- The modules below a part hold its invariant, its theorems and its tests.
--
-- How state and operations correspond. The fields of a class are a record with the same names, without the
-- final underscore; a method is a function that takes the record last and returns the new one, with what it
-- returns. What a method gives to a callback (`transmit`, an output port) is a list, in the order of the calls.
-- An exception is `none`, or, where the state at the exception matters, a flag of the outcome. Words are
-- natural numbers with the wrap of each operation written out. A Parser step is a function to an optional
-- pair, composed in do blocks; a header that is parsed into has its old fields as an argument, since a parser
-- in error leaves them. A std::map is a list in the order of its keys, a std::unordered_map a function.
--
-- Bounds and fuel. The loop of TCPSender::push has the usable window and two more rounds of fuel: a round sends at
-- least one sequence number, which the window pays for, the SYN apart. The loop of `read` takes two rounds on a valid stream, and
-- that of InternetChecksum::value three tests. All other loops are recursion on the list that they visit.
--
-- What the operating system and the random engine return is an argument: the result of a system call, or functions
-- from the number of a call or from what poll is asked. A callback of the event loop is a function on a state that
-- has all that it captures.
--
-- Not modelled: the threads of TCPMinnowSocket, opening devices and sockets, the resolver, the other
-- applications, and debug output. Which strings are borrowed is
-- modelled where a Serializer gives them out and where a Parser is made of them; elsewhere a payload is the strings that its
-- references give access to, owned where it is parsed. Rules that a callback adds to the running event loop are not
-- modelled either. Interfaces that a router shares with
-- other code, or holds twice, are not aliased in the model. A sender that reads an empty acknowledgment
-- number, which C++ leaves undefined, reads a number that is a parameter; a shift of a prefix by more than 31
-- bits, undefined too, shifts everything out.
pub mod Prelude
pub mod Wrapping
pub mod ByteStream
pub mod TcpMessage
pub mod TcpSegment
pub mod Ref
pub mod Parser
pub mod Serializer
pub mod Helpers
pub mod Checksum
pub mod Ethernet
pub mod Arp
pub mod Ipv4
pub mod TcpSender
pub mod Maps
pub mod NetworkInterface
pub mod Router
pub mod Reassembler
pub mod TcpReceiver
pub mod TcpPeer
pub mod TcpOverIp
pub mod FileDescriptor
pub mod TunAdapter
pub mod EventLoop
pub mod Socket
pub mod StreamCopy
