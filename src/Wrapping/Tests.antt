-- ===== src/Wrapping/Tests.antt =====
-- Runs of src/wrapping_integers.cc, and its theorems at concrete sequence numbers.
use computer_networking.Prelude.{◌-◌, ◌+◌, ◌*◌, ◌^◌, ◌≤◌, ◌<◌, ◌≡◌, refl, arith, u64}
use computer_networking.Wrapping.{Wrap32, wrap, unwrap, distance}
use computer_networking.Wrapping.Laws.{unwrap_closest, unwrap-wrap}

abbrev zero_point : Wrap32
zero_point = record { raw_value = 16 }

abbrev last : Wrap32
last = record { raw_value = 2 ^ 32 - 1 }

unwrap_at_zero : unwrap (record { raw_value = 17 }) zero_point 0 ≡ 1
unfolding unwrap
unwrap_at_zero = refl

-- The closest number may be below the checkpoint's block.
unwrap_below : unwrap last (record { raw_value = 0 }) (3 * 2 ^ 32) ≡ 3 * 2 ^ 32 - 1
unfolding unwrap
unwrap_below = refl

wrap_round : wrap (3 * 2 ^ 32 + 17) (record { raw_value = 15 }) ≡ record { raw_value = 32 }
unfolding wrap
wrap_round = refl

unwrap_closest_example :
    let w = wrap 7 zero_point in
    (wrap (unwrap w zero_point (2 ^ 33)) zero_point ≡ w)
    × (unwrap w zero_point (2 ^ 33) < u64)
    × (distance (2 ^ 33) (unwrap w zero_point (2 ^ 33)) ≤ distance (2 ^ 33) 7)
unwrap_closest_example =
    unwrap_closest (wrap 7 zero_point) zero_point (2 ^ 33) 7 (unfold wrap in omega arith)
      (omega arith) (omega arith) (omega arith) refl

unwrap-wrap_example : unwrap (wrap (2 ^ 33 + 9) zero_point) zero_point (2 ^ 33) ≡ 2 ^ 33 + 9
unwrap-wrap_example =
    unwrap-wrap (2 ^ 33 + 9) zero_point (2 ^ 33) (omega arith) (omega arith) (omega arith)
      (omega arith)
