-- ===== src/Arp.antt =====
-- util/arp_message.hh and util/arp_message.cc: ARP messages. `to_string` is not modelled.
mod Tests
pub mod RoundTrip
use computer_networking.Prelude.{ℕ, Bool, true, ◌&&◌, ◌||◌, Option, none, some, ◌==◌, if◌then◌else◌}
use computer_networking.Parser
use computer_networking.Parser.{M, pure, ◌>>=◌, ◌>>◌}
use computer_networking.Serializer
use computer_networking.Serializer.{Serializer}
use computer_networking.Ethernet.{EthernetAddress, zero_address, type_ipv4}

-- `struct ARPMessage` and its constants.
pub record ArpMessage : Type 0 where
  pub hardware_type : ℕ
  pub protocol_type : ℕ
  pub hardware_address_size : ℕ
  pub protocol_address_size : ℕ
  pub opcode : ℕ
  pub sender_ethernet_address : EthernetAddress
  pub sender_ip_address : ℕ
  pub target_ethernet_address : EthernetAddress
  pub target_ip_address : ℕ

abbrev pub type_ethernet : ℕ
type_ethernet = 1

abbrev pub opcode_request : ℕ
opcode_request = 1

abbrev pub opcode_reply : ℕ
opcode_reply = 2

-- The default member initializers. The sizes are those of an Ethernet address and of a `uint32_t`.
abbrev pub default_message : ArpMessage
default_message = record {
  hardware_type = type_ethernet;
  protocol_type = type_ipv4;
  hardware_address_size = 6;
  protocol_address_size = 4;
  opcode = 0;
  sender_ethernet_address = zero_address;
  sender_ip_address = 0;
  target_ethernet_address = zero_address;
  target_ip_address = 0;
}

-- `bool ARPMessage::supported() const`.
unfoldable pub supported : ArpMessage → Bool
supported m =
    (m.hardware_type == type_ethernet)
    && (m.protocol_type == type_ipv4)
    && (m.hardware_address_size == 6)
    && (m.protocol_address_size == 4)
    && ((m.opcode == opcode_request) || (m.opcode == opcode_reply))

-- The part of `parse` before the check.
unfoldable pub parse_fixed : ArpMessage → M ArpMessage
parse_fixed m = do
  hardware_type ← Parser.integer 2 m.hardware_type
  protocol_type ← Parser.integer 2 m.protocol_type
  hardware_address_size ← Parser.integer 1 m.hardware_address_size
  protocol_address_size ← Parser.integer 1 m.protocol_address_size
  opcode ← Parser.integer 2 m.opcode
  pure (record m {
    hardware_type = hardware_type;
    protocol_type = protocol_type;
    hardware_address_size = hardware_address_size;
    protocol_address_size = protocol_address_size;
    opcode = opcode;
  })

-- The part after it.
unfoldable pub parse_addresses : ArpMessage → M ArpMessage
parse_addresses m = do
  sender_ethernet_address ← Parser.octets m.sender_ethernet_address
  sender_ip_address ← Parser.integer 4 m.sender_ip_address
  target_ethernet_address ← Parser.octets m.target_ethernet_address
  target_ip_address ← Parser.integer 4 m.target_ip_address
  pure (record m {
    sender_ethernet_address = sender_ethernet_address;
    sender_ip_address = sender_ip_address;
    target_ethernet_address = target_ethernet_address;
    target_ip_address = target_ip_address;
  })

-- `void ARPMessage::parse( Parser& parser )`; the argument is the message before.
unfoldable pub refuse : ArpMessage → M ArpMessage
refuse m = do Parser.set_error; pure m

unfoldable pub parse : ArpMessage → M ArpMessage
parse m = do fixed ← parse_fixed m; if supported fixed then parse_addresses fixed else refuse fixed

-- The two parts of `serialize` after its check.
unfoldable pub serialize_fixed : ArpMessage → Serializer → Serializer
serialize_fixed m s = Serializer.integer 2 m.opcode (
    Serializer.integer 1 m.protocol_address_size (
      Serializer.integer 1 m.hardware_address_size
        (Serializer.integer 2 m.protocol_type (Serializer.integer 2 m.hardware_type s))))

unfoldable pub serialize_addresses : ArpMessage → Serializer → Serializer
serialize_addresses m s = Serializer.integer 4 m.target_ip_address (
    Serializer.put_octets m.target_ethernet_address (
      Serializer.integer 4 m.sender_ip_address (Serializer.put_octets m.sender_ethernet_address s)))

-- `void ARPMessage::serialize( Serializer& serializer ) const`; `none` is the exception.
unfoldable pub serialize : ArpMessage → Serializer → Option Serializer
serialize m s = if supported m then some (serialize_addresses m (serialize_fixed m s)) else none
