-- ===== src/Checksum.antt =====
-- util/checksum.hh: the internet checksum.
mod Tests
pub mod Laws
pub mod Sum
use computer_networking.Prelude.{
  ℕ, zero, suc, ◌+◌, ◌-◌, ◌*◌, ◌/◌, ◌%◌, ◌^◌, Bool, true, false, not, Option, none, some, List, [],
  ◌∷◌, ltb, if◌then◌else◌, u16, u32, add_w,
}

-- `class InternetChecksum`.
pub record InternetChecksum : Type 0 where
  pub sum : ℕ
  pub parity : Bool

-- Its constructor.
abbrev pub make : ℕ → InternetChecksum
make sum = record { sum = sum; parity = false }

-- `void add( std::string_view data )`: a byte at an even place is the high byte of its 16-bit word.
unfoldable pub add : List ℕ → InternetChecksum → InternetChecksum
add [] c = c
add (i ∷ data_left) c = add data_left (record {
  sum = add_w u32 c.sum (if c.parity then i else i * 256 % u16);
  parity = not c.parity;
})

-- `void add( std::ranges::range auto&& data )`.
unfoldable pub add_all : List (List ℕ) → InternetChecksum → InternetChecksum
add_all [] c = c
add_all (x ∷ xs) c = add_all xs (add x c)

-- The loop of `value`: the carries are added back in while the number exceeds 16 bits.
unfoldable pub fold : ℕ → ℕ → Option ℕ
fold zero ret = none
fold (suc fuel) ret =
    let more = fold fuel (add_w u32 (ret / u16) (ret % u16)) in
    if ltb 0xffff ret then more else some ret

-- `uint16_t value() const` returns the complement. Two additions are enough for a `uint32_t`.
abbrev pub complement : Option ℕ → Option ℕ
complement none = none
complement (some ret) = some (u16 - 1 - ret)

unfoldable pub value : InternetChecksum → Option ℕ
value c = complement (fold 3 c.sum)
