-- ===== src/Wrapping.antt =====
-- src/wrapping_integers.hh and src/wrapping_integers.cc: `Wrap32`, the 32-bit sequence numbers that
-- start at a zero point and wrap, and their conversion to and from 64-bit absolute numbers.
pub mod Laws
mod Tests
use computer_networking.Prelude.{
  ℕ, zero, suc, ◌+◌, ◌-◌, ◌*◌, ◌/◌, ◌%◌, ◌<◌, Bool, leb, ltb, ◌==◌, if◌then◌else◌, u32, u64, add_w,
  sub_w,
}

-- `class Wrap32`.
pub record Wrap32 : Type 0 where
  pub raw_value : ℕ

-- A raw value is a `uint32_t`.
abbrev pub IsWrap32 : Wrap32 → Type 0
IsWrap32 w = w.raw_value < u32

-- `static Wrap32 Wrap32::wrap( uint64_t n, Wrap32 zero_point )`.
unfoldable pub wrap : ℕ → Wrap32 → Wrap32
wrap n zero_point = record { raw_value = add_w u32 zero_point.raw_value (n % u32) }

-- `operator+( uint32_t n )`.
unfoldable pub add : Wrap32 → ℕ → Wrap32
add w n = record { raw_value = add_w u32 w.raw_value n }

-- `operator==`.
unfoldable pub equal : Wrap32 → Wrap32 → Bool
equal a b = a.raw_value == b.raw_value

-- `( a >= b ) ? a - b : b - a` on two `uint64_t`.
abbrev pub distance : ℕ → ℕ → ℕ
distance a b = if leb b a then a - b else b - a

-- One round of the loop of `unwrap`, on the pair of `closest` and `current_diff`.
abbrev pub closer : ℕ → ℕ → ℕ → ℕ × ℕ → ℕ × ℕ
closer checkpoint diff x (closest, current_diff) =
    let new_closest = add_w u64 (x * u32 % u64) diff in
    let new_diff = distance checkpoint new_closest in
    if ltb new_diff current_diff then (new_closest, new_diff) else (closest, current_diff)

-- `for ( uint64_t x = mult; x <= mult + 1; x++ )`; the first argument counts the rounds left.
abbrev pub search_from : ℕ → ℕ → ℕ → ℕ → ℕ × ℕ → ℕ × ℕ
search_from zero x checkpoint diff best = best
search_from (suc rounds) x checkpoint diff best =
    search_from rounds (x + 1) checkpoint diff (closer checkpoint diff x best)

-- The candidate that the search starts from.
abbrev pub first_candidate : ℕ → ℕ → ℕ
first_candidate mult diff = if mult == 0 then diff else add_w u64 ((mult - 1) * u32 % u64) diff

-- `uint64_t Wrap32::unwrap( Wrap32 zero_point, uint64_t checkpoint ) const`. From `mult` to
-- `mult + 1` the loop makes two rounds (`mult` is below 2^32, so `mult + 1` does not wrap).
unfoldable pub unwrap : Wrap32 → Wrap32 → ℕ → ℕ
unwrap w zero_point checkpoint =
    let diff = sub_w u32 w.raw_value zero_point.raw_value in
    let mult = checkpoint / u32 in
    let closest = first_candidate mult diff in
    (search_from 2 mult checkpoint diff (closest, distance checkpoint closest)).0
