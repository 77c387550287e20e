-- ===== src/Ref.antt =====
-- util/ref.hh, `class Ref` over a string: a reference that owns its object or borrows that of another.
use computer_networking.Prelude.{ℕ, Bool, true, false, List, [], ◌∷◌}

-- Whether it borrows, and the object that `get` gives.
pub record Ref : Type 0 where
  pub is_borrowed : Bool
  pub object : List ℕ

-- `Ref( T&& obj )`.
abbrev pub own : List ℕ → Ref
own obj = record { is_borrowed = false; object = obj }

-- `Ref borrow() const`.
abbrev pub borrow : Ref → Ref
borrow r = record { is_borrowed = true; object = r.object }

-- `Ref( const Ref& other )`: a copy owns its object.
abbrev pub copy : Ref → Ref
copy other = own other.object

-- `get` and the copy of each element of a vector.
abbrev pub objects : List Ref → List (List ℕ)
objects [] = []
objects (r ∷ rs) = r.object ∷ objects rs

abbrev pub copies : List Ref → List Ref
copies [] = []
copies (r ∷ rs) = copy r ∷ copies rs
