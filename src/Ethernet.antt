-- ===== src/Ethernet.antt =====
-- util/ethernet_header.hh, util/ethernet_header.cc and util/ethernet_frame.hh. An `EthernetAddress` is
-- an array of six bytes. The textual forms (`to_string`) are not modelled.
mod Tests
pub mod RoundTrip
use computer_networking.Prelude.{ℕ, ◌+◌, Bool, true, false, ◌&&◌, List, [], ◌∷◌, ◌==◌}
use computer_networking.Parser
use computer_networking.Parser.{M, pure, ◌>>=◌}
use computer_networking.Serializer
use computer_networking.Serializer.{Serializer}

-- `using EthernetAddress = std::array<uint8_t, 6>`, and `==` of arrays.
abbrev pub EthernetAddress : Type 0
EthernetAddress = List ℕ

abbrev pub same_address : EthernetAddress → EthernetAddress → Bool
same_address [] [] = true
same_address [] (b ∷ bs) = false
same_address (a ∷ as') [] = false
same_address (a ∷ as') (b ∷ bs) = (a == b) && same_address as' bs

-- The value-initialized address, and `ETHERNET_BROADCAST`.
abbrev pub zero_address : EthernetAddress
zero_address = 0 ∷ 0 ∷ 0 ∷ 0 ∷ 0 ∷ 0 ∷ []

abbrev pub ethernet_broadcast : EthernetAddress
ethernet_broadcast = 0xff ∷ 0xff ∷ 0xff ∷ 0xff ∷ 0xff ∷ 0xff ∷ []

-- `struct EthernetHeader` and its constants.
pub record EthernetHeader : Type 0 where
  pub dst : EthernetAddress
  pub src : EthernetAddress
  pub type : ℕ

abbrev pub type_ipv4 : ℕ
type_ipv4 = 0x800

abbrev pub type_arp : ℕ
type_arp = 0x806

-- `EthernetHeader::parse`; the argument is the header before.
unfoldable pub parse_header : EthernetHeader → M EthernetHeader
parse_header h = do
  dst ← Parser.octets h.dst
  src ← Parser.octets h.src
  type ← Parser.integer 2 h.type
  pure (record { dst = dst; src = src; type = type })

-- `EthernetHeader::serialize`.
unfoldable pub serialize_header : EthernetHeader → Serializer → Serializer
serialize_header h s =
    Serializer.integer 2 h.type (Serializer.put_octets h.src (Serializer.put_octets h.dst s))

-- `struct EthernetFrame`.
pub record EthernetFrame : Type 0 where
  pub header : EthernetHeader
  pub payload : List (List ℕ)

-- `EthernetFrame::parse` and `EthernetFrame::serialize`.
unfoldable pub parse_frame : EthernetFrame → M EthernetFrame
parse_frame f = do
  header ← parse_header f.header
  payload ← Parser.all_remaining
  pure (record { header = header; payload = payload })

unfoldable pub serialize_frame : EthernetFrame → Serializer → Serializer
serialize_frame f s = Serializer.put_buffers f.payload (serialize_header f.header s)
