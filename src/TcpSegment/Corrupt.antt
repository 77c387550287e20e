-- ===== src/TcpSegment/Corrupt.antt =====
-- When the checksum of a TCP segment is right.
use computer_networking.Prelude.{
  ℕ, ◌+◌, ◌*◌, ◌%◌, ◌≤◌, ◌<◌, ◌≡◌, ◌≢◌, refl, sym, ap, subst, ◌∙◌, Bool, true, false, some, List,
  [], ◌∷◌, All, length, ◌==◌, arith, u16, u32, Bool-cases, not, ==→eq, nil-of_length, inl, inr,
}
use computer_networking.Parser
use computer_networking.Parser.{
  BufferList, Parser, M, concat, pure, ◌>>=◌, ◌>>◌, views, views_of, with_parser,
}
use computer_networking.Parser.Buffers.{Holds, flat}
use computer_networking.Parser.Reads.{IsByte}
use computer_networking.Checksum.Sum.{word_sum, value-add_all}
use computer_networking.TcpSegment.{TcpSegment, is_corrupt, nonzero, parse, refuse}

-- What `buffer` shows is what is left to read.
concat-views : (p : Parser) (bytes : List ℕ) → Holds p bytes → concat (views p.input) ≡ bytes
unfolding views
concat-views p bytes h = elim (Bool-cases (p.input.size == 0)) [
  | inl z ↦ rw z (
      sym (
        nil-of_length bytes
          (omega (arith, ==→eq p.input.size 0 z, h.valid.sized, ap length h.left))))
  | inr z ↦ rw z (flat-views p.input.buffer p.input.skip ∙ h.left)
]
  where
    flat-views : (xs : List (List ℕ)) (skip : ℕ) → concat (views_of xs skip) ≡ flat xs skip
    flat-views [] skip = refl
    flat-views (x ∷ xs) skip = refl

-- The check of the checksum reads nothing. Where it is passed, the sum of the words is a multiple of 2^16 - 1, and where the
-- sum is one other than 0, it is passed.
pub is_corrupt-sum :
    (pseudo : ℕ) (p : Parser) (bytes : List ℕ)
    → Holds p bytes
    → All IsByte bytes
    → pseudo + 65280 * length bytes < u32
    → let total = pseudo + word_sum false bytes in
      (b : Bool) × (is_corrupt pseudo p ≡ some (b, p))
      × (b ≡ false → total % 0xffff ≡ 0)
      × (total % 0xffff ≡ 0 → 0 < total → b ≡ false)
unfolding is_corrupt
is_corrupt-sum pseudo p bytes h hb small =
    let e = concat-views p bytes h in
    let (v, q, b, m, z) =
      value-add_all (views p.input) pseudo (subst (All IsByte) (sym e) hb)
        (omega (arith, ap length e)) in
    let f : word_sum false (concat (views p.input)) ≡ word_sum false bytes =
      ap (word_sum false) e in
    (
      not (v == 0),
      ap (λ o. with_parser p (nonzero o)) q,
      λ k. ground (arith, f, m),
      λ k l. ground (arith, f, m, z),
    )

-- Where the words of at most 65535 bytes that are left to read and a pseudo checksum of at most
-- 0xfffff do not add up to a multiple of 2^16 - 1, `parse` puts the parser in error, reads nothing
-- and leaves the segment as it was.
pub parse-corrupt :
    (before : TcpSegment) (pseudo : ℕ) (p : Parser) (bytes : List ℕ)
    → Holds p bytes
    → All IsByte bytes
    → length bytes < u16
    → pseudo ≤ 0xfffff
    → (pseudo + word_sum false bytes) % 0xffff ≢ 0
    → parse before pseudo p ≡ some (before, record p { error = true })
unfolding parse refuse Parser.set_error
parse-corrupt before pseudo p bytes h hb small k wrong =
    let (b, e, n, y) = is_corrupt-sum pseudo p bytes h hb (omega arith) in
    elim (Bool-cases b) [ inl q ↦ rw (e, ◌>>=◌) (rw q) | inr q ↦ absurd (wrong (n q)) ]
