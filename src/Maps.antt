-- ===== src/Maps.antt =====
-- Finite maps with numbers as keys, as functions: what `std::unordered_map` documents of `find`, of
-- assignment to `m[k]`, of `erase`, and of a loop over all entries that changes or erases each one.
use computer_networking.Prelude.{
  ℕ, ◌≡◌, ◌≢◌, Option, none, some, if◌then◌else◌, ◌==◌, ==_self, ne→==,
}

abbrev pub Map {ℓ} : Type ℓ → Type ℓ
Map V = ℕ → Option V

module _ {ℓ} {V : Type ℓ} where
  abbrev pub no_entries : Map V
  no_entries k = none

  abbrev pub insert : ℕ → V → Map V → Map V
  insert key v m k = if k == key then some v else m k

  abbrev pub erase : ℕ → Map V → Map V
  erase key m k = if k == key then none else m k

  abbrev pub update_entry : (V → Option V) → Option V → Option V
  update_entry f none = none
  update_entry f (some v) = f v

  abbrev pub update_all : (V → Option V) → Map V → Map V
  update_all f m k = update_entry f (m k)

  -- The value at a key, or what `m[k]` makes for a missing one.
  abbrev pub value_or : V → Option V → V
  value_or d none = d
  value_or d (some v) = v

  pub insert-same : (key : ℕ) (v : V) (m : Map V) → insert key v m key ≡ some v
  insert-same key v m = rw (==_self key)

  pub insert-other : (key k : ℕ) (v : V) (m : Map V) → k ≢ key → insert key v m k ≡ m k
  insert-other key k v m h = rw (ne→== k key h)

  pub erase-same : (key : ℕ) (m : Map V) → erase key m key ≡ none
  erase-same key m = rw (==_self key)

  pub erase-other : (key k : ℕ) (m : Map V) → k ≢ key → erase key m k ≡ m k
  erase-other key k m h = rw (ne→== k key h)

  pub erase-insert_other :
      (key k : ℕ) (v : V) (m : Map V) → k ≢ key → erase key (insert key v m) k ≡ m k
  erase-insert_other key k v m h = rw (ne→== k key h)
