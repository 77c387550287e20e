-- ===== src/Reassembler/Slices.antt =====
-- Stretches of the stream that the substrings come from.
use computer_networking.Prelude.{
  ℕ, zero, suc, ◌+◌, ◌-◌, ◌≤◌, min, ◌≡◌, refl, sym, ap, ◌∙◌, List, [], ◌∷◌, ◌++◌, length, take,
  drop, length-take, length-drop, drop-drop, arith,
}

module _ {ℓ} {A : Type ℓ} where
  -- The elements from index a on, before index b.
  abbrev pub slice : List A → ℕ → ℕ → List A
  slice xs a b = take (b - a) (drop a xs)

  take-same : (i j : ℕ) (xs : List A) → i ≡ j → take i xs ≡ take j xs
  take-same i j xs h = ap (λ (k : ℕ). take k xs) h

  take-nil : (n : ℕ) → take {A = A} n [] ≡ []
  take-nil zero = refl
  take-nil (suc n) = refl

  take-take : (m n : ℕ) (xs : List A) → take m (take n xs) ≡ take (min m n) xs
  take-take zero n xs = take-same 0 (min 0 n) xs (omega arith)
  take-take (suc m) zero xs = take-same 0 (min (suc m) 0) xs (omega arith)
  take-take (suc m) (suc n) [] = sym (take-nil (min (suc m) (suc n)))
  take-take (suc m) (suc n) (x ∷ xs) =
      ap (◌∷◌ x) (take-take m n xs)
      ∙ take-same (suc (min m n)) (min (suc m) (suc n)) (x ∷ xs) (omega arith)

  drop-take : (m n : ℕ) (xs : List A) → drop m (take n xs) ≡ take (n - m) (drop m xs)
  drop-take zero n xs = ap (λ (i : ℕ). take i xs) (omega arith)
  drop-take (suc m) zero xs = take-same 0 (0 - suc m) (drop (suc m) xs) (omega arith)
  drop-take (suc m) (suc n) [] = sym (take-nil (suc n - suc m))
  drop-take (suc m) (suc n) (x ∷ xs) =
      drop-take m n xs ∙ ap (λ (i : ℕ). take i (drop m xs)) (omega arith)

  take-append-take : (m n : ℕ) (xs : List A) → take m xs ++ take n (drop m xs) ≡ take (m + n) xs
  take-append-take zero n xs = ap (λ (i : ℕ). take i xs) (omega arith)
  take-append-take (suc m) n [] = take-nil n ∙ sym (take-nil (suc m + n))
  take-append-take (suc m) n (x ∷ xs) =
      ap (◌∷◌ x) (take-append-take m n xs)
      ∙ take-same (suc (m + n)) (suc m + n) (x ∷ xs) (omega arith)

  pub length-slice : (xs : List A) (a b : ℕ) → b ≤ length xs → length (slice xs a b) ≡ b - a
  length-slice xs a b h = omega (arith, length-take (b - a) (drop a xs), length-drop a xs)

  -- A part of a stretch.
  pub slice-slice :
      (xs : List A) (a b p k c d : ℕ)
      → a + p ≡ c
      → d - c ≡ min k (b - c)
      → take k (drop p (slice xs a b)) ≡ slice xs c d
  slice-slice xs a b p k c d h e =
      ap (take k) (drop-take p (b - a) (drop a xs) ∙ ap (take (b - a - p)) (drop-drop a p c xs h))
      ∙ take-take k (b - a - p) (drop c xs)
      ∙ ap (λ (i : ℕ). take i (drop c xs)) (omega arith)

  -- Two stretches that meet.
  pub slice-append :
      (xs : List A) (a b c : ℕ) → a ≤ b → b ≤ c → slice xs a b ++ slice xs b c ≡ slice xs a c
  slice-append xs a b c h k =
      ap (λ (ys : List A). slice xs a b ++ take (c - b) ys)
        (sym (drop-drop a (b - a) b xs (omega arith)))
      ∙ take-append-take (b - a) (c - b) (drop a xs)
      ∙ ap (λ (i : ℕ). take i (drop a xs)) (omega arith)

  pub slice-nil : (xs : List A) (a b : ℕ) → b ≤ a → slice xs a b ≡ []
  slice-nil xs a b h = take-same (b - a) 0 (drop a xs) (omega arith)

  pub slice-drop : (xs : List A) (a b p c : ℕ) → a + p ≡ c → drop p (slice xs a b) ≡ slice xs c b
  slice-drop xs a b p c h =
      drop-take p (b - a) (drop a xs)
      ∙ ap (take (b - a - p)) (drop-drop a p c xs h)
      ∙ ap (λ (i : ℕ). take i (drop c xs)) (omega arith)
