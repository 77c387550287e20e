-- ===== src/Checksum/Sum.antt =====
-- The sum of the 16-bit words of data, as a reference definition of what `InternetChecksum` adds up.
use computer_networking.Prelude.{
  ℕ, ◌+◌, ◌*◌, ◌%◌, ◌≤◌, ◌<◌, ◌≡◌, refl, sym, ap, ◌∙◌, Bool, true, false, not, some, List, [], ◌∷◌,
  ◌++◌, All, length, if◌then◌else◌, arith, u16, u32,
}
use computer_networking.Parser.{concat}
use computer_networking.Parser.Reads.{IsByte}
use computer_networking.Checksum.{InternetChecksum, make, add, add_all, value}
use computer_networking.Checksum.Laws.{value_total}

-- The bytes at even places are the high ones; `odd` says that the first byte is at an odd place.
abbrev pub word_sum : Bool → List ℕ → ℕ
word_sum odd [] = 0
word_sum odd (i ∷ rest) = (if odd then i else i * 256) + word_sum (not odd) rest

-- The buffers that data are divided into do not matter.
add-append : (xs ys : List ℕ) (c : InternetChecksum) → add (xs ++ ys) c ≡ add ys (add xs c)
unfolding add
add-append [] ys c = refl
add-append (x ∷ xs) ys c = add-append xs ys _

pub add_all-concat : (xs : List (List ℕ)) (c : InternetChecksum) → add_all xs c ≡ add (concat xs) c
unfolding add_all add
add_all-concat [] c = refl
add_all-concat (x ∷ xs) c = add_all-concat xs (add x c) ∙ sym (add-append x (concat xs) c)

pub word_sum-le :
    (odd : Bool) (bytes : List ℕ) → All IsByte bytes → word_sum odd bytes ≤ 65280 * length bytes
word_sum-le odd [] h = omega arith
word_sum-le true (i ∷ rest) (h, hs) = omega (arith, word_sum-le false rest hs)
word_sum-le false (i ∷ rest) (h, hs) = omega (arith, word_sum-le true rest hs)

-- Without overflow, adding data adds the sum of its words.
add-sum :
    (bytes : List ℕ) (odd : Bool) (sum : ℕ)
    → All IsByte bytes
    → sum + word_sum odd bytes < u32
    → (add bytes (record { sum = sum; parity = odd })).sum ≡ sum + word_sum odd bytes
unfolding add
add-sum [] odd sum hb h = omega arith
add-sum (i ∷ rest) true sum (hi, hb) h =
    ap (λ (n : ℕ). (add rest (record { sum = n; parity = false })).sum) (omega arith)
    ∙ add-sum rest false (sum + i) hb (omega arith)
    ∙ omega arith
add-sum (i ∷ rest) false sum (hi, hb) h =
    ap (λ (n : ℕ). (add rest (record { sum = n; parity = true })).sum) (omega arith)
    ∙ add-sum rest true (sum + i * 256) hb (omega arith)
    ∙ omega arith

-- Where the first sum and 65280 for each byte stay below 2^32, the data in the buffers are added up
-- as the 16-bit words, high byte first, of all their bytes in a row, wherever one buffer ends:
-- `value` ends and returns a 16-bit number that makes the first sum and the sum of these words up to
-- a multiple of 2^16 - 1, and is 0xffff only for the sum 0.
pub value-add_all :
    (buffers : List (List ℕ)) (sum : ℕ)
    → All IsByte (concat buffers)
    → sum + 65280 * length (concat buffers) < u32
    → let total = sum + word_sum false (concat buffers) in
      (v : ℕ) × (value (add_all buffers (make sum)) ≡ some v)
      × (v < u16)
      × ((total + v) % 0xffff ≡ 0)
      × (v ≡ 0xffff → total ≡ 0)
value-add_all buffers sum hb h =
    let bytes = concat buffers in
    let e =
      ap (λ (c : InternetChecksum). c.sum) (add_all-concat buffers (make sum))
      ∙ add-sum bytes false sum hb (omega (arith, word_sum-le false bytes hb)) in
    let (v, q, b, m, z) =
      value_total (add_all buffers (make sum)) (omega (arith, e, word_sum-le false bytes hb)) in
    (v, q, b, ap (λ (n : ℕ). (n + v) % 0xffff) (sym e) ∙ m, λ k. sym e ∙ z k)
