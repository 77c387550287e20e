-- ===== src/ByteStream/Read.antt =====
-- The helper `read` of src/byte_stream_helpers.cc.
use computer_networking.Prelude.{
  ℕ, suc, ◌-◌, ◌≤◌, ◌<◌, ◌≡◌, sym, ap, ◌∙◌, ◌⊎◌, inl, inr, List, [], ◌++◌, length, take, drop,
  length-take, take-eq-take-min, drop-eq-drop-min, min, arith, lt→ltb, ne→==, dec_le,
}
use native.Mathlib.Nat.{sub-zero}
use computer_networking.ByteStream.{ByteStream, pop, bytes_buffered, returned, read_loop, read}
use computer_networking.ByteStream.Inv.{IsValid, pop-IsValid}
use computer_networking.ByteStream.Refine.{contents, length-contents, peek-contents, contents-pop}

-- The loop stops when the stream is empty or enough is read.
read_loop-stop :
    (fuel max_len : ℕ) (out : List ℕ) (s : ByteStream)
    → (bytes_buffered s ≡ 0) ⊎ (max_len ≤ length out)
    → read_loop (suc fuel) max_len out s ≡ returned out s
unfolding read_loop
read_loop-stop fuel max_len out s (inl e) = ground arith
read_loop-stop fuel max_len out s (inr h) = ground arith

-- A round with bytes at hand and room for them.
read_loop-more :
    (fuel max_len : ℕ) (out : List ℕ) {s : ByteStream}
    → IsValid s
    → 0 < bytes_buffered s
    → length out < max_len
    → let part = take (max_len - length out) (contents s) in
      read_loop (suc fuel) max_len out s
      ≡ read_loop fuel max_len (out ++ part) (pop (length part) s)
unfolding read_loop
read_loop-more fuel max_len out {s} v h k =
    let p = peek-contents v in
    let n = length-contents v in
    rw (p, lt→ltb 0 _ h, lt→ltb _ _ k, ne→== (length (contents s)) 0 (omega arith))

nothing_to_read :
    {max_len : ℕ} {s : ByteStream}
    → IsValid s
    → min max_len s.buffer_size ≤ 0
    → (bytes_buffered s ≡ 0) ⊎ (max_len ≤ 0)
unfolding bytes_buffered
nothing_to_read v z = omega arith

read_enough :
    (max_len : ℕ) {s : ByteStream}
    → IsValid s
    → let part = take max_len (contents s) in
      (bytes_buffered (pop (length part) s) ≡ 0) ⊎ (max_len ≤ length part)
unfolding bytes_buffered pop
read_enough max_len {s} v = omega (arith, length-take max_len (contents s), length-contents v)

-- `read` on a valid stream never throws and ends within two rounds: it returns the first `max_len`
-- bytes, or all if there are fewer, and leaves a valid stream that holds the rest.
pub read_lem :
    (fuel max_len : ℕ) {s : ByteStream}
    → IsValid s
    → (s' : ByteStream) × (read (suc (suc fuel)) max_len s
        ≡ returned (take max_len (contents s)) s')
      × (contents s' ≡ drop max_len (contents s))
      × IsValid s'
unfolding read
read_lem fuel max_len {s} v =
    let c = contents s in
    let n = length-contents v in
    elim (dec_le (min max_len s.buffer_size) 0) [
      | yes z ↦
          let k : min max_len (length c) ≡ 0 = omega arith in
          (
            s,
            read_loop-stop (suc fuel) max_len [] s (nothing_to_read v z)
                ∙ ap (λ xs. returned xs s)
                    (sym (sym (take-eq-take-min max_len c) ∙ ap (λ i. take i c) k)),
            sym (sym (drop-eq-drop-min max_len c) ∙ ap (λ i. drop i c) k),
            v,
          )
      | no p ↦
          let part = take max_len c in
          let m = length-take max_len c in
          (
            pop (length part) s,
            (read_loop-more (suc fuel) max_len [] v (unfold bytes_buffered in omega arith)
                    (omega arith)
                  ∙ ap (λ i. read_loop (suc fuel) max_len (take i c) (pop (length (take i c)) s))
                      (sub-zero max_len))
                ∙ read_loop-stop fuel max_len part (pop (length part) s) (read_enough max_len v),
            contents-pop (length part) v ∙ ap (λ i. drop i c) m ∙ drop-eq-drop-min max_len c,
            pop-IsValid (length part) v,
          )
    ]
