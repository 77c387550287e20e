-- ===== src/Ipv4/RoundTrip.antt =====
-- IPv4 headers are read back from what they are serialized to.
use computer_networking.Prelude.{
  ℕ, ◌/◌, ◌%◌, ◌^◌, ◌<◌, ◌≡◌, refl, ap, subst, Bool, false, Option, some, List, [], ◌∷◌, ◌==◌,
  append-nil, arith, u16, u32,
}
use computer_networking.Parser
use computer_networking.Parser.{Parser, M, concat, pure, ◌>>=◌, ◌>>◌}
use computer_networking.Parser.Reads.{Reads, Reads-bind, Reads-pure, Reads-integer, Reads-skip}
use computer_networking.Serializer.{big_endian}
use computer_networking.Serializer.Writes.{Writes, WritesAll-more, WritesAll-none, Writes-integer}
use computer_networking.Ipv4.{
  Ipv4Header, first_byte, fo_val, serialize_fields, compute_checksum, parse_fields, parse_header,
  verify_header, fail_if, lift,
}

-- The fields fit their types, and there are no options.
pub record IsHeader (h : Ipv4Header) : Type 0 where
  pub ver_four : h.ver ≡ 4
  pub no_options : h.hlen ≡ 5
  pub tos_byte : h.tos < 256
  pub len_word : h.len < u16
  pub id_word : h.id < u16
  pub offset_bits : h.offset < 2 ^ 13
  pub ttl_byte : h.ttl < 256
  pub proto_byte : h.proto < 256
  pub cksum_word : h.cksum < u16
  pub src_word : h.src < u32
  pub dst_word : h.dst < u32

-- The 20 bytes of a header.
abbrev pub header_bytes : Ipv4Header → List ℕ
header_bytes h = concat (
    big_endian 1 (first_byte h)
    ∷ big_endian 1 h.tos
    ∷ big_endian 2 h.len
    ∷ big_endian 2 h.id
    ∷ big_endian 2 (fo_val h)
    ∷ big_endian 1 h.ttl
    ∷ big_endian 1 h.proto
    ∷ big_endian 2 h.cksum
    ∷ big_endian 4 h.src
    ∷ big_endian 4 h.dst
    ∷ [])

pub serialize_fields-Writes : (h : Ipv4Header) → Writes (serialize_fields h) (header_bytes h)
unfolding serialize_fields
serialize_fields-Writes h =
    (WritesAll-more
      (WritesAll-more
        (WritesAll-more
          (WritesAll-more
            (WritesAll-more
              (WritesAll-more
                (WritesAll-more
                  (WritesAll-more
                    (WritesAll-more
                      (WritesAll-more WritesAll-none (Writes-integer 1 (first_byte h)))
                      (Writes-integer 1 h.tos))
                    (Writes-integer 2 h.len))
                  (Writes-integer 2 h.id))
                (Writes-integer 2 (fo_val h)))
              (Writes-integer 1 h.ttl))
            (Writes-integer 1 h.proto))
          (Writes-integer 2 h.cksum))
        (Writes-integer 4 h.src))
      (Writes-integer 4 h.dst)).joined

-- The shared words give back their parts.
decoded :
    (h : Ipv4Header)
    → IsHeader h
    → record h {
      ver = first_byte h / 2 ^ 4;
      hlen = first_byte h % 2 ^ 4;
      df = fo_val h / 0x4000 % 2 == 1;
      mf = fo_val h / 0x2000 % 2 == 1;
      offset = fo_val h % 2 ^ 13;
    }
      ≡ h
decoded h v = ground arith

fo_val-lt : (h : Ipv4Header) → fo_val h < u16
fo_val-lt h = ground arith

parse_fields-Reads :
    (before h : Ipv4Header) → IsHeader h → Reads (parse_fields before) (header_bytes h) h
unfolding parse_fields
parse_fields-Reads before h v = subst (Reads (parse_fields before) (header_bytes h)) (decoded h v) (
    Reads-bind _ _ _ _ _ _ (Reads-integer 1 0 (first_byte h) refl (omega arith)) (
      Reads-bind _ _ _ _ _ _ (Reads-integer 1 before.tos h.tos refl v.tos_byte) (
        Reads-bind _ _ _ _ _ _ (Reads-integer 2 before.len h.len refl v.len_word) (
          Reads-bind _ _ _ _ _ _ (Reads-integer 2 before.id h.id refl v.id_word) (
            Reads-bind _ _ _ _ _ _ (Reads-integer 2 0 (fo_val h) refl (fo_val-lt h)) (
              Reads-bind _ _ _ _ _ _ (Reads-integer 1 before.ttl h.ttl refl v.ttl_byte) (
                Reads-bind _ _ _ _ _ _ (Reads-integer 1 before.proto h.proto refl v.proto_byte) (
                  Reads-bind _ _ _ _ _ _ (Reads-integer 2 before.cksum h.cksum refl v.cksum_word) (
                    Reads-bind _ _ _ _ _ _ (Reads-integer 4 before.src h.src refl v.src_word) (
                      Reads-bind _ _ _ _ _ _ (Reads-integer 4 before.dst h.dst refl v.dst_word)
                        (Reads-pure _)))))))))))

fail_if-Reads : (b : Bool) → b ≡ false → Reads (fail_if b) [] tt
unfolding fail_if
fail_if-Reads b e = rw e (Reads-pure tt)

lift-Reads : (o : Option Ipv4Header) (h : Ipv4Header) → o ≡ some h → Reads (lift o) [] h
unfolding lift
lift-Reads o h e = rw e (Reads-pure h)

has_error-Reads : Reads Parser.has_error [] false
unfolding Parser.has_error
has_error-Reads = record { at = λ rest p h. (p, ap (λ e. some (e, p)) h.no_error, h) }

verify_header-Reads :
    (h : Ipv4Header) → IsHeader h → compute_checksum h ≡ some h → Reads (verify_header h) [] h
unfolding verify_header
verify_header-Reads h v c =
    Reads-bind _ _ [] [] tt _
      (subst (λ n. Reads (Parser.skip_bytes n) [] tt) (omega (arith, v.no_options)) (Reads-skip []))
      (Reads-bind _ _ [] [] h _ (lift-Reads (compute_checksum h) h c)
        (Reads-bind _ _ [] [] tt _ (fail_if-Reads _ (ground arith)) (Reads-pure h)))

-- A header with its right checksum, without options, is read back from its serialization, the checksum
-- verified on the way.
pub parse_header-Reads :
    (before h : Ipv4Header)
    → IsHeader h
    → compute_checksum h ≡ some h
    → Reads (parse_header before) (header_bytes h) h
unfolding parse_header
parse_header-Reads before h v c =
    subst (λ xs. Reads (parse_header before) xs h) (append-nil (header_bytes h))
      (Reads-bind _ _ _ _ _ _ (parse_fields-Reads before h v) (
        Reads-bind _ _ [] [] tt _ (fail_if-Reads _ (ground arith)) (
          Reads-bind _ _ [] [] tt _ (fail_if-Reads _ (ground arith))
            (Reads-bind _ _ [] [] false _ has_error-Reads (verify_header-Reads h v c)))))
