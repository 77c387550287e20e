-- ===== src/Ipv4.antt =====
-- util/ipv4_header.hh, util/ipv4_header.cc and util/ipv4_datagram.hh. `to_string` is not modelled. Flags and
-- fields that share a word occupy separate bits of it, so `|` adds them and a mask is `/` and `%`.
pub mod Tests
pub mod RoundTrip
pub mod Datagram
use computer_networking.Prelude.{
  ℕ, ◌+◌, ◌-◌, ◌*◌, ◌/◌, ◌%◌, ◌^◌, Bool, true, false, not, ◌||◌, Option, none, some, List, [], ◌∷◌,
  ltb, ◌==◌, if◌then◌else◌, to_num, u8, u16, u32, add_w, sub_w,
}
use computer_networking.Parser
use computer_networking.Parser.{M, pure, ◌>>=◌, ◌>>◌}
use computer_networking.Serializer
use computer_networking.Serializer.{Serializer}
use computer_networking.Checksum

-- `struct IPv4Header`.
pub record Ipv4Header : Type 0 where
  pub ver : ℕ
  pub hlen : ℕ
  pub tos : ℕ
  pub len : ℕ
  pub id : ℕ
  pub df : Bool
  pub mf : Bool
  pub offset : ℕ
  pub ttl : ℕ
  pub proto : ℕ
  pub cksum : ℕ
  pub src : ℕ
  pub dst : ℕ

-- Its constants and default member initializers.
abbrev pub header_length : ℕ
header_length = 20

abbrev pub default_ttl : ℕ
default_ttl = 128

abbrev pub proto_tcp : ℕ
proto_tcp = 6

abbrev pub default_header : Ipv4Header
default_header = record {
  ver = 4;
  hlen = 5;
  tos = 0;
  len = 0;
  id = 0;
  df = true;
  mf = false;
  offset = 0;
  ttl = default_ttl;
  proto = proto_tcp;
  cksum = 0;
  src = 0;
  dst = 0;
}

-- The first byte, and the word of the flags and the fragment offset, as `serialize` computes them.
abbrev pub first_byte : Ipv4Header → ℕ
first_byte h = (h.ver * 2 ^ 4 + h.hlen % 2 ^ 4) % u8

abbrev pub fo_val : Ipv4Header → ℕ
fo_val h = to_num h.df * 0x4000 + to_num h.mf * 0x2000 + h.offset % 2 ^ 13

-- The integers that `serialize` writes.
unfoldable pub serialize_fields : Ipv4Header → Serializer → Serializer
serialize_fields h s = Serializer.integer 4 h.dst (
    Serializer.integer 4 h.src (
      Serializer.integer 2 h.cksum (
        Serializer.integer 1 h.proto (
          Serializer.integer 1 h.ttl (
            Serializer.integer 2 (fo_val h) (
              Serializer.integer 2 h.id (
                Serializer.integer 2 h.len
                  (Serializer.integer 1 h.tos (Serializer.integer 1 (first_byte h) s)))))))))

-- `void IPv4Header::serialize( Serializer& serializer ) const`; `none` is the exception.
unfoldable pub serialize_header : Ipv4Header → Serializer → Option Serializer
serialize_header h s = if h.ver == 4 then some (serialize_fields h s) else none

-- `uint16_t IPv4Header::payload_length() const`.
unfoldable pub payload_length : Ipv4Header → ℕ
payload_length h = sub_w u16 h.len (4 * h.hlen % u16)

-- `uint32_t IPv4Header::pseudo_checksum() const`.
unfoldable pub pseudo_checksum : Ipv4Header → ℕ
pseudo_checksum h =
    add_w u32
      (add_w u32 (add_w u32 (h.src / u16 + h.src % u16) (h.dst / u16 + h.dst % u16)) h.proto)
      (payload_length h)

-- `void IPv4Header::compute_checksum()`; `none` is the exception of `serialize`.
abbrev pub checksum_of : Option Serializer → Option ℕ
checksum_of none = none
checksum_of (some s) = Checksum.value (Checksum.add_all (Serializer.finish s) (Checksum.make 0))

abbrev pub with_checksum : Ipv4Header → Option ℕ → Option Ipv4Header
with_checksum h none = none
with_checksum h (some c) = some (record h { cksum = c })

unfoldable pub compute_checksum : Ipv4Header → Option Ipv4Header
compute_checksum h =
    with_checksum h (checksum_of (serialize_header (record h { cksum = 0 }) Serializer.empty))

-- The integers that `parse` reads. The argument is the header before; the local variables start at 0.
unfoldable pub parse_fields : Ipv4Header → M Ipv4Header
parse_fields h = do
  first ← Parser.integer 1 0
  tos ← Parser.integer 1 h.tos
  len ← Parser.integer 2 h.len
  id ← Parser.integer 2 h.id
  fo ← Parser.integer 2 0
  ttl ← Parser.integer 1 h.ttl
  proto ← Parser.integer 1 h.proto
  cksum ← Parser.integer 2 h.cksum
  src ← Parser.integer 4 h.src
  dst ← Parser.integer 4 h.dst
  pure (record {
    ver = first / 2 ^ 4;
    hlen = first % 2 ^ 4;
    tos = tos;
    len = len;
    id = id;
    df = fo / 0x4000 % 2 == 1;
    mf = fo / 0x2000 % 2 == 1;
    offset = fo % 2 ^ 13;
    ttl = ttl;
    proto = proto;
    cksum = cksum;
    src = src;
    dst = dst;
  })

-- An exception on the way of a parsing step.
unfoldable pub lift : {A : Type 0} → Option A → M A
lift none p = none
lift (some a) p = some (a, p)

-- `if ( condition ) parser.set_error();`
unfoldable pub fail_if : Bool → M (Unit {0})
fail_if true = Parser.set_error
fail_if false = pure tt

-- The end of `parse`: options are skipped, and the checksum is computed anew and compared.
unfoldable pub verify_header : Ipv4Header → M Ipv4Header
verify_header h = do
  Parser.skip_bytes (h.hlen * 4 - header_length)
  computed ← lift (compute_checksum h)
  fail_if (not (computed.cksum == h.cksum))
  pure computed

-- `void IPv4Header::parse( Parser& parser )`.
unfoldable pub parse_header : Ipv4Header → M Ipv4Header
parse_header before = do
  h ← parse_fields before
  fail_if (not (h.ver == 4))
  fail_if (ltb h.hlen 5)
  failed ← Parser.has_error
  if failed then pure h else verify_header h

-- `struct IPv4Datagram`, its `parse` and its `serialize`.
pub record Ipv4Datagram : Type 0 where
  pub header : Ipv4Header
  pub payload : List (List ℕ)

unfoldable pub parse : Ipv4Datagram → M Ipv4Datagram
parse d = do
  header ← parse_header d.header
  Parser.truncate (payload_length header)
  payload ← Parser.all_remaining
  pure (record { header = header; payload = payload })

abbrev pub put_payload : List (List ℕ) → Option Serializer → Option Serializer
put_payload payload none = none
put_payload payload (some s) = some (Serializer.put_buffers payload s)

unfoldable pub serialize : Ipv4Datagram → Serializer → Option Serializer
serialize d s = put_payload d.payload (serialize_header d.header s)
