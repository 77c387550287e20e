-- ===== src/Prelude/Words.antt =====
-- Unsigned machine words as native numbers, with the wrap of each width written out.
use Prim.Native.Nat.{ℕ, ◌+◌, ◌-◌, ◌%◌, ◌^◌}

abbrev pub u8 : ℕ
u8 = 2 ^ 8

abbrev pub u16 : ℕ
u16 = 2 ^ 16

abbrev pub u32 : ℕ
u32 = 2 ^ 32

abbrev pub u64 : ℕ
u64 = 2 ^ 64

-- Sum and difference of two words of the given modulus. `-` on ℕ stops at 0, so the modulus is
-- added first; `b` is below it wherever these are used.
abbrev pub add_w : ℕ → ℕ → ℕ → ℕ
add_w m a b = (a + b) % m

abbrev pub sub_w : ℕ → ℕ → ℕ → ℕ
sub_w m a b = (a + m - b) % m
