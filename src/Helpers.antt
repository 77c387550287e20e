-- ===== src/Helpers.antt =====
-- `serialize( obj )` and `parse( obj, buffers )` of util/helpers.hh, on what the object's own methods return.
-- `none` is an exception.
use computer_networking.Prelude.{ℕ, Bool, not, Option, none, some, List}
use computer_networking.Parser.{Parser}
use computer_networking.Serializer
use computer_networking.Serializer.{Serializer}

abbrev pub output : Option Serializer → Option (List (List ℕ))
output none = none
output (some s) = some (Serializer.finish s)

abbrev pub parsed {ℓ} : {A : Type ℓ} → Option (A × Parser) → Option (A × Bool)
parsed none = none
parsed (some (a, p)) = some (a, not p.error)
