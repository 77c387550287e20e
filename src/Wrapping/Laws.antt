-- ===== src/Wrapping/Laws.antt =====
-- src/wrapping_integers.cc: what `wrap` and `unwrap` promise each other.
use computer_networking.Prelude.{
  ℕ, ◌+◌, ◌*◌, ◌/◌, ◌%◌, ◌^◌, ◌≤◌, ◌<◌, ◌≡◌, refl, ap, arith, ltb, if◌then◌else◌, add_w, sub_w, u32,
  u64, dec_lt, ℕ_discrete,
}
use computer_networking.Wrapping.{Wrap32, IsWrap32, wrap, add, unwrap, distance, first_candidate}

pub wrap-IsWrap32 : (n : ℕ) (zero_point : Wrap32) → IsWrap32 (wrap n zero_point)
unfolding wrap
wrap-IsWrap32 n z = omega arith

wrap-unwrap :
    (w zero_point : Wrap32) (checkpoint : ℕ)
    → IsWrap32 w
    → IsWrap32 zero_point
    → checkpoint < u64
    → (wrap (unwrap w zero_point checkpoint) zero_point ≡ w)
      × (unwrap w zero_point checkpoint < u64)
unfolding wrap unwrap
wrap-unwrap w z c hw hz hc = ground arith

-- The number of the candidate in round `q`, with its `uint64_t` wrap.
abbrev candidate : ℕ → ℕ → ℕ
candidate q diff = add_w u64 (q * u32 % u64) diff

-- What the two rounds of the loop select from three candidates.
select_least :
    (c a b d : ℕ)
    → let keep = λ (n : ℕ) (p : ℕ × ℕ). if ltb (distance c n) p.1 then (n, distance c n) else p in
      let u = (keep d (keep b (a, distance c a))).0 in
      (distance c u ≤ distance c a) × (distance c u ≤ distance c b) × (distance c u ≤ distance c d)
select_least c a b d = ground arith

-- The result is at least as close as each of the three candidates.
unwrap-le :
    (w z : Wrap32) (c : ℕ)
    → let diff = sub_w u32 w.raw_value z.raw_value in
      let u = unwrap w z c in
      (distance c u ≤ distance c (first_candidate (c / u32) diff))
      × (distance c u ≤ distance c (candidate (c / u32) diff))
      × (distance c u ≤ distance c (candidate (c / u32 + 1) diff))
unfolding unwrap
unwrap-le w z c =
    let diff = sub_w u32 w.raw_value z.raw_value in
    select_least c (first_candidate (c / u32) diff) (candidate (c / u32) diff)
      (candidate (c / u32 + 1) diff)

-- A number that wraps to `w` has the searched difference as its low word.
diff-of_wrap :
    (w z : Wrap32) (n : ℕ) → IsWrap32 z → wrap n z ≡ w → sub_w u32 w.raw_value z.raw_value ≡ n % u32
unfolding wrap
diff-of_wrap w z n hz e = omega (arith, ap (λ (v : Wrap32). v.raw_value) e)

-- No number with the low word `diff` is closer to `c` than the best of the three candidates.
least-le :
    (c n d : ℕ)
    → c < u64
    → n < u64
    → d ≤ distance c (first_candidate (c / u32) (n % u32))
    → d ≤ distance c (candidate (c / u32) (n % u32))
    → d ≤ distance c (candidate (c / u32 + 1) (n % u32))
    → d ≤ distance c n
least-le c n d hc hn h0 h1 h2 = elim (dec_lt (n / u32) (c / u32)) [
  | yes p ↦ ground arith
  | no p ↦ elim (ℕ_discrete (n / u32) (c / u32)) [ yes q ↦ ground arith | no q ↦ ground arith ]
]

-- For 32-bit numbers and a 64-bit checkpoint, what `unwrap` returns is a 64-bit number that wraps to
-- the sequence number, and no 64-bit number that wraps to it is closer to the checkpoint.
pub unwrap_closest :
    (w zero_point : Wrap32) (checkpoint n : ℕ)
    → IsWrap32 w
    → IsWrap32 zero_point
    → checkpoint < u64
    → n < u64
    → wrap n zero_point ≡ w
    → (wrap (unwrap w zero_point checkpoint) zero_point ≡ w)
      × (unwrap w zero_point checkpoint < u64)
      × (distance checkpoint (unwrap w zero_point checkpoint) ≤ distance checkpoint n)
unwrap_closest w z c n hw hz hc hn e =
    let (h0, h1, h2) = unwrap-le w z c in
    let e' = diff-of_wrap w z n hz e in
    let (same, below) = wrap-unwrap w z c hw hz hc in
    (same, below, least-le c n _ hc hn (rw e' at h0) (rw e' at h1) (rw e' at h2))

-- Two numbers that wrap alike are a multiple of 2^32 apart.
wrap-injective_near :
    (m n c : ℕ) (z : Wrap32)
    → wrap m z ≡ wrap n z
    → distance c n < 2 ^ 31
    → distance c m ≤ distance c n
    → m ≡ n
unfolding wrap
wrap-injective_near m n c z e h k =
    let e' = ap (λ (v : Wrap32). v.raw_value) e in
    let p : m % u32 ≡ n % u32 = omega arith in ground arith

-- `unwrap` gives back every 64-bit number that was wrapped with a 32-bit zero point, if the 64-bit
-- checkpoint is less than 2^31 away from it.
pub unwrap-wrap :
    (n : ℕ) (zero_point : Wrap32) (checkpoint : ℕ)
    → IsWrap32 zero_point
    → n < u64
    → checkpoint < u64
    → distance checkpoint n < 2 ^ 31
    → unwrap (wrap n zero_point) zero_point checkpoint ≡ n
unwrap-wrap n z c hz hn hc h =
    let (same, below, closest) =
      unwrap_closest (wrap n z) z c n (wrap-IsWrap32 n z) hz hc hn refl in
    wrap-injective_near _ n c z same h closest

-- Advancing a wrapped number is wrapping the advanced number.
pub add-wrap :
    (n k : ℕ) (zero_point : Wrap32) → add (wrap n zero_point) (k % u32) ≡ wrap (n + k) zero_point
unfolding add wrap
add-wrap n k z = ap (λ r. record { raw_value = r }) (omega arith)

pub wrap-zero : (zero_point : Wrap32) → IsWrap32 zero_point → wrap 0 zero_point ≡ zero_point
unfolding wrap
wrap-zero z h = ap (λ r. record { raw_value = r }) (omega arith)
