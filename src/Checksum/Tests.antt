-- ===== src/Checksum/Tests.antt =====
-- `InternetChecksum` on bytes.
use computer_networking.Prelude.{
  ℕ, ◌+◌, ◌%◌, ◌<◌, ◌≡◌, refl, List, [], ◌∷◌, some, false, arith, u16,
}
use computer_networking.Parser.{concat}
use computer_networking.Checksum.{make, add, add_all, fold, value}
use computer_networking.Checksum.Sum.{word_sum, value-add_all}

-- An odd number of bytes, split between two calls.
added : value (add (3 ∷ []) (add (0xff ∷ 0xff ∷ []) (make 0))) ≡ some 0xfcff
unfolding value fold add
added = refl

abbrev two_buffers : List (List ℕ)
two_buffers = (0xff ∷ 0xff ∷ 0xff ∷ []) ∷ (0xfd ∷ 3 ∷ []) ∷ []

value-add_all_example :
    let total = 0x1_0000 + word_sum false (concat two_buffers) in
    (v : ℕ) × (value (add_all two_buffers (make 0x1_0000)) ≡ some v)
    × (v < u16)
    × ((total + v) % 0xffff ≡ 0)
    × (v ≡ 0xffff → total ≡ 0)
value-add_all_example = value-add_all two_buffers 0x1_0000 (ground arith) (omega arith)
