-- ===== src/TcpSegment/RoundTrip.antt =====
-- TCP segments are read back from what they are serialized to, with the checksum computed for them.
use computer_networking.Prelude.{
  ℕ, zero, suc, All-append, ◌+◌, ◌%◌, ◌≤◌, ◌<◌, ◌≡◌, sym, ap, subst, ◌∙◌, Bool, false, some, List,
  [], ◌∷◌, All, length, length-append, arith, u16,
}
use computer_networking.Parser
use computer_networking.Parser.{
  BufferList, Parser, M, concat, pure, ◌>>=◌, ◌>>◌, views, views_of, with_parser,
}
use computer_networking.Parser.Buffers.{Holds, make-Holds}
use computer_networking.Parser.Reads.{IsByte, Reads-skip, all_remaining-concat}
use computer_networking.Serializer
use computer_networking.Serializer.{big_endian}
use computer_networking.Serializer.Writes.{finish-Writes}
use computer_networking.Checksum.Sum.{word_sum, value-add_all}
use computer_networking.TcpSegment.Fields.{
  IsSegment, header_parts, read_header, header_bytes, segment_bytes, one_reset, serialize-Writes,
  parse_fields-Reads,
}
use computer_networking.TcpSegment.Corrupt.{is_corrupt-sum}
use computer_networking.TcpSegment.{
  TcpSegment, is_corrupt, parse, parse_payload, take_payload, serialize, compute_checksum,
  set_cksum, put_cksum, with_payload,
}

concatenate-Holds :
    (p : Parser) (bytes : List ℕ)
    → Holds p bytes
    → Parser.concatenate_all_remaining p ≡ some (bytes, p)
unfolding Parser.concatenate_all_remaining
concatenate-Holds p bytes h =
    let (buffers, e, c) = all_remaining-concat p bytes h in
    rw (e, ◌>>=◌) (ap (λ (x : List ℕ). some (x, p)) c)

-- The words of a segment add up to those of the segment without checksum, and the checksum.
word_sum-checksum :
    (seg : TcpSegment) (c : ℕ)
    → c < u16
    → word_sum false (segment_bytes (set_cksum c seg))
      ≡ word_sum false (segment_bytes (set_cksum 0 seg)) + c
word_sum-checksum seg c h = omega arith

word_sum-pos : (seg : TcpSegment) → 0 < word_sum false (segment_bytes seg)
word_sum-pos seg = omega arith

big_endian-IsByte : (k v : ℕ) → All IsByte (big_endian k v)
big_endian-IsByte zero v = tt
big_endian-IsByte (suc k) v = (omega arith, big_endian-IsByte k v)

concat-IsByte : (xs : List (List ℕ)) → All (All IsByte) xs → All IsByte (concat xs)
concat-IsByte [] h = tt
concat-IsByte (x ∷ xs) (h, hs) = All-append IsByte x (concat xs) h (concat-IsByte xs hs)

header_bytes-IsByte : (seg : TcpSegment) → All IsByte (header_bytes seg)
header_bytes-IsByte seg =
    let parts : All (All IsByte) (header_parts seg) = (
      big_endian-IsByte 2 _,
      (
        big_endian-IsByte 2 _,
        (
          big_endian-IsByte 4 _,
          (
            big_endian-IsByte 4 _,
            (
              big_endian-IsByte 1 80,
              (
                big_endian-IsByte 1 _,
                (big_endian-IsByte 2 _, (big_endian-IsByte 2 _, (big_endian-IsByte 2 0, tt))),
              ),
            ),
          ),
        ),
      ),
    ) in
    concat-IsByte (header_parts seg) parts

bytes-IsByte :
    (seg : TcpSegment) → All IsByte seg.message.sender.payload → All IsByte (segment_bytes seg)
bytes-IsByte seg h =
    All-append IsByte (header_bytes seg) seg.message.sender.payload (header_bytes-IsByte seg) h

parse_payload-Holds :
    (seg : TcpSegment) (p : Parser) (bytes : List ℕ)
    → Holds p bytes
    → (p' : Parser) × (parse_payload (seg, 5) p ≡ some (with_payload seg bytes, p'))
      × (p'.error ≡ false)
unfolding parse_payload take_payload
parse_payload-Holds seg p bytes h =
    let (p', e, h') = (Reads-skip []).at bytes p h in
    (p', rw (e, ◌>>=◌) (rw (concatenate-Holds p' bytes h', ◌>>=◌)), h'.no_error)

-- A segment of right checksum is read.
parse-right :
    (before seg : TcpSegment) (pseudo : ℕ) (p : Parser)
    → IsSegment seg
    → seg.udinfo.cksum < u16
    → Holds p (segment_bytes seg)
    → is_corrupt pseudo p ≡ some (false, p)
    → (p' : Parser) × (parse before pseudo p
        ≡ some (record seg { message = one_reset seg.message }, p'))
      × (p'.error ≡ false)
unfolding parse
parse-right before seg pseudo p v c h e =
    let payload = seg.message.sender.payload in
    let (p', f, h') = (parse_fields-Reads before seg v c).at payload p h in
    let (p'', g, k) = parse_payload-Holds (read_header before seg) p' payload h' in
    (p'', rw (e, ◌>>=◌) (rw (f, ◌>>=◌) g), k)

set_cksum-IsSegment : (seg : TcpSegment) (c : ℕ) → IsSegment seg → IsSegment (set_cksum c seg)
set_cksum-IsSegment seg c v = record {
  src_word = v.src_word;
  dst_word = v.dst_word;
  seqno_word = v.seqno_word;
  ackno_word = v.ackno_word;
  window_word = v.window_word;
  bytes = v.bytes;
  small = v.small;
}

length-segment_bytes :
    (seg : TcpSegment) → length (segment_bytes seg) ≡ 20 + length seg.message.sender.payload
length-segment_bytes seg = length-append (header_bytes seg) seg.message.sender.payload

-- What `serialize` makes from nothing.
pub serialized-Holds :
    (seg : TcpSegment)
    → length seg.message.sender.payload + 20 < u16
    → Holds (Parser.make (Serializer.finish (serialize seg Serializer.empty))) (segment_bytes seg)
serialized-Holds seg h =
    let (e, pieces) = finish-Writes (serialize seg) _ (serialize-Writes seg) in
    subst (Holds (Parser.make (Serializer.finish (serialize seg Serializer.empty)))) e (
      make-Holds (Serializer.finish (serialize seg Serializer.empty)) pieces
        (rw e (omega (arith, length-segment_bytes seg))))

-- What `compute_checksum` computes.
pub compute_checksum-value :
    (seg : TcpSegment) (pseudo : ℕ)
    → IsSegment seg
    → pseudo ≤ 0xfffff
    → let total = pseudo + word_sum false (segment_bytes (set_cksum 0 seg)) in
      (c : ℕ) × (compute_checksum pseudo seg ≡ some (set_cksum c seg))
      × (c < u16)
      × ((total + c) % 0xffff ≡ 0)
unfolding compute_checksum
compute_checksum-value seg pseudo v h =
    let bare = set_cksum 0 seg in
    let buffers = Serializer.finish (serialize bare Serializer.empty) in
    let e = (finish-Writes (serialize bare) _ (serialize-Writes bare)).0 in
    let (c, q, b, m, z) =
      value-add_all buffers pseudo (subst (All IsByte) (sym e) (bytes-IsByte bare v.bytes))
        (omega (arith, ap length e, length-segment_bytes bare, v.small)) in
    (
      c,
      ap (put_cksum seg) q,
      b,
      ap (λ (bytes : List ℕ). (pseudo + word_sum false bytes + c) % 0xffff) (sym e) ∙ m,
    )

-- For a segment whose fields fit their types, whose payload is bytes and which fits 65535 bytes, and
-- a pseudo checksum of at most 0xfffff, `compute_checksum` finds a 16-bit checksum, and parsing what
-- the segment with it is serialized to reports no error and gives the segment back, with one RST for
-- that of the sender and that of the receiver.
pub parse-serialize_segment :
    (before seg : TcpSegment) (pseudo : ℕ)
    → IsSegment seg
    → pseudo ≤ 0xfffff
    → (c : ℕ) × (p : Parser) × (compute_checksum pseudo seg ≡ some (set_cksum c seg))
      × (c < u16)
      × (parse before pseudo
            (Parser.make (Serializer.finish (serialize (set_cksum c seg) Serializer.empty)))
          ≡ some (record (set_cksum c seg) { message = one_reset seg.message }, p))
      × (p.error ≡ false)
parse-serialize_segment before seg pseudo v h =
    let (c, q, b, m) = compute_checksum-value seg pseudo v h in
    let right = set_cksum c seg in
    let start = serialized-Holds right v.small in
    let p0 = Parser.make (Serializer.finish (serialize right Serializer.empty)) in
    let (corrupt, e, n, y) =
      is_corrupt-sum pseudo _ (segment_bytes right) start (bytes-IsByte right v.bytes)
        (omega (arith, length-segment_bytes right, v.small)) in
    let sum = word_sum-checksum seg c b in
    let f = y (ap (λ (n : ℕ). n % 0xffff) (omega arith) ∙ m) (omega (arith, word_sum-pos right)) in
    let (p, g, k) =
      parse-right before right pseudo _ (set_cksum-IsSegment seg c v) b start
        (e ∙ ap (λ (b : Bool). some (b, p0)) f) in
    (c, p, q, b, g, k)
