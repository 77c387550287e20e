-- ===== src/Checksum/Laws.antt =====
-- What `InternetChecksum::value` returns.
use computer_networking.Prelude.{
  ℕ, ◌+◌, ◌-◌, ◌/◌, ◌%◌, ◌≤◌, ◌<◌, ◌≡◌, refl, ◌∙◌, inl, inr, Bool-cases, ltb, ltb→lt, add_w, arith,
  List, [], ◌∷◌, some, u16, u32,
}
use computer_networking.Checksum.{InternetChecksum, add, add_all, fold, value}

-- One addition of the carries.
carry :
    (n : ℕ)
    → n < u32
    → let m = add_w u32 (n / u16) (n % u16) in
      (m ≤ 0x1fffe) × (m % 0xffff ≡ n % 0xffff) × (m ≡ 0 → n ≡ 0)
carry n h = (omega arith, omega arith, λ z. omega arith)

-- The loop ends within three tests, and the number that it leaves fits 16 bits and agrees with the sum
-- modulo 2^16 - 1; it is 0 only for the sum 0.
fold_total :
    (sum : ℕ)
    → sum < u32
    → (r : ℕ) × (fold 3 sum ≡ some r) × (r < u16) × (r % 0xffff ≡ sum % 0xffff) × (r ≡ 0 → sum ≡ 0)
unfolding fold
fold_total sum h =
    let once = carry sum h in
    let n = add_w u32 (sum / u16) (sum % u16) in
    let twice = carry n (omega (arith, once)) in
    elim (Bool-cases (ltb 0xffff sum)) [
      | inr e ↦ (sum, rw e, ground arith, refl, λ z. z)
      | inl e ↦ rw e (elim (Bool-cases (ltb 0xffff n)) [
        | inr f ↦ (n, rw f, ground arith, once.1, once.2)
        | inl f ↦ (
          add_w u32 (n / u16) (n % u16),
          rw f (ground (arith, once.0)),
          omega (arith, once.0, ltb→lt 0xffff n f),
          twice.1 ∙ once.1,
          λ z. once.2 (twice.2 z),
        )
      ])
    ]

-- For a 32-bit sum the loop of `value` ends, and `value` returns a 16-bit number that makes the sum
-- up to a multiple of 2^16 - 1, and is 0xffff only for the sum 0.
pub value_total :
    (c : InternetChecksum)
    → c.sum < u32
    → (v : ℕ) × (value c ≡ some v)
      × (v < u16)
      × ((c.sum + v) % 0xffff ≡ 0)
      × (v ≡ 0xffff → c.sum ≡ 0)
unfolding value
value_total c h =
    let (r, e, b, m, z) = fold_total c.sum h in
    (u16 - 1 - r, rw e, omega arith, omega arith, λ q. z (omega arith))

-- Adding data leaves the sum a `uint32_t`.
add-word : (bytes : List ℕ) (c : InternetChecksum) → c.sum < u32 → (add bytes c).sum < u32
unfolding add
add-word [] c h = h
add-word (i ∷ rest) c h = add-word rest _ (omega arith)

pub add_all-word :
    (buffers : List (List ℕ)) (c : InternetChecksum) → c.sum < u32 → (add_all buffers c).sum < u32
unfolding add_all
add_all-word [] c h = h
add_all-word (x ∷ xs) c h = add_all-word xs (add x c) (add-word x c h)
