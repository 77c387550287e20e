-- ===== src/Parser/Buffers.antt =====
-- The buffers of a `Parser` seen as the bytes that are left to read.
use computer_networking.Prelude.{
  ℕ, ◌+◌, ◌-◌, min, ◌≤◌, ◌<◌, ◌≡◌, refl, sym, ap, ◌∙◌, inl, inr, Bool-cases, false, some, List, [],
  ◌∷◌, ◌++◌, All, length, length-append, length-drop, drop, drop-append, drop-drop,
  drop-append_past, ==→eq, ==→ne, arith, u64, ◌==◌,
}
use computer_networking.Parser.{
  BufferList, Parser, hold_buffers, make, total, remove_loop, remove_prefix, peek, peek_front,
  front_of, next_byte, concat,
}

-- The bytes left.
abbrev pub flat : List (List ℕ) → ℕ → List ℕ
flat [] skip = []
flat (x ∷ xs) skip = drop skip x ++ concat xs

abbrev pub remaining : BufferList → List ℕ
remaining b = flat b.buffer b.skip

-- Some of the front buffer is left.
abbrev pub IsInFront : List (List ℕ) → ℕ → Type 0
IsInFront [] skip = Unit
IsInFront (x ∷ xs) skip = skip < length x

-- No buffer is empty.
abbrev pub IsNonempty : List ℕ → Type 0
IsNonempty x = 0 < length x

pub record IsValid (b : BufferList) : Type 0 where
  pub pieces : All IsNonempty b.buffer
  pub front : IsInFront b.buffer b.skip
  pub sized : b.size ≡ length (remaining b)
  pub small : b.size < u64

IsInFront-zero : (xs : List (List ℕ)) → All IsNonempty xs → IsInFront xs 0
IsInFront-zero [] h = tt
IsInFront-zero (x ∷ xs) h = h.0

flat-zero : (xs : List (List ℕ)) → flat xs 0 ≡ concat xs
flat-zero [] = refl
flat-zero (x ∷ xs) = refl

total-length : (xs : List (List ℕ)) → total xs ≡ length (concat xs)
total-length [] = refl
total-length (x ∷ xs) = omega (arith, total-length xs, length-append x (concat xs))

pub hold_buffers-IsValid :
    (xs : List (List ℕ))
    → All IsNonempty xs
    → length (concat xs) < u64
    → IsValid (hold_buffers xs) × (remaining (hold_buffers xs) ≡ concat xs)
unfolding hold_buffers
hold_buffers-IsValid xs h n = (
  record {
    pieces = h;
    front = IsInFront-zero xs h;
    sized = omega (arith, total-length xs, ap length (flat-zero xs));
    small = omega arith;
  },
  flat-zero xs,
)

-- What removing `n` bytes does to buffers in a valid state.
record Removes (n : ℕ) (xs : List (List ℕ)) (skip : ℕ) (b : BufferList) : Type 0 where
  valid : IsValid b
  dropped : remaining b ≡ drop n (flat xs skip)

Removes-none :
    (xs : List (List ℕ)) (skip size : ℕ) (n : ℕ)
    → All IsNonempty xs
    → IsInFront xs skip
    → size ≡ length (flat xs skip)
    → size < u64
    → n ≡ 0
    → Removes n xs skip (record { size = size; buffer = xs; skip = skip })
Removes-none xs skip size n p f s m z = record {
  valid = record { pieces = p; front = f; sized = s; small = m };
  dropped = ap (λ i. drop i (flat xs skip)) (sym z);
}

-- Within the front buffer.
Removes-some :
    (n : ℕ) (x : List ℕ) (xs : List (List ℕ)) (skip size size' skip' : ℕ)
    → All IsNonempty (x ∷ xs)
    → size ≡ length (flat (x ∷ xs) skip)
    → size < u64
    → skip' ≡ skip + n
    → size' + n ≡ size
    → skip' < length x
    → Removes n (x ∷ xs) skip (record { size = size'; buffer = x ∷ xs; skip = skip' })
Removes-some n x xs skip size size' skip' p s m k e h =
    let d : flat (x ∷ xs) skip' ≡ drop n (flat (x ∷ xs) skip) =
      ap (λ y. y ++ concat xs) (sym (drop-drop skip n skip' x (sym k)))
      ∙ sym (drop-append n (drop skip x) (concat xs) (omega (arith, length-drop skip x))) in
    record {
      valid = record {
        pieces = p;
        front = h;
        sized = omega (
          arith,
          length-append (drop skip x) (concat xs),
          length-append (drop skip' x) (concat xs),
          length-drop skip x,
          length-drop skip' x,
        );
        small = omega arith;
      };
      dropped = d;
    }

Removes-all :
    {n k : ℕ} {x : List ℕ} {xs : List (List ℕ)} {skip : ℕ} {b : BufferList}
    → length (drop skip x) + k ≡ n
    → Removes k xs 0 b
    → Removes n (x ∷ xs) skip b
Removes-all {n} {k} {x} {xs} {skip} h r = record {
  valid = r.valid;
  dropped =
      r.dropped
      ∙ ap (drop k) (flat-zero xs)
      ∙ sym (drop-append_past n k (drop skip x) (concat xs) h);
}

remove_loop-Removes :
    (n : ℕ) (xs : List (List ℕ)) (skip size : ℕ)
    → All IsNonempty xs
    → IsInFront xs skip
    → size ≡ length (flat xs skip)
    → size < u64
    → n ≤ size
    → Removes n xs skip (remove_loop n xs skip size)
unfolding remove_loop
remove_loop-Removes n [] skip size p f s m h = Removes-none [] skip size n tt tt s m (omega arith)
remove_loop-Removes n (x ∷ xs) skip size (p0, p) f s m h =
    let len = length-append (drop skip x) (concat xs) in
    let ld = length-drop skip x in
    let fz = ap length (flat-zero xs) in
    elim (Bool-cases (n == 0)) [
      | inl z ↦ rw z (Removes-none (x ∷ xs) skip size n (p0, p) f s m (==→eq n 0 z))
      | inr z ↦ rw z (elim (Bool-cases (skip + min n (length x - skip) == length x)) [
        | inl e ↦ rw e (
            let e' = ==→eq _ _ e in
            Removes-all (omega arith) (
              remove_loop-Removes (n - min n (length x - skip)) xs 0 _ p (IsInFront-zero xs p)
                (omega arith) (omega arith) (omega arith)))
        | inr e ↦ rw e (
            let e' = ==→ne _ _ e in
            Removes-some n x xs skip size _ _ (p0, p) s m (omega arith) (omega arith) (omega arith))
      ])
    ]

-- Removing a prefix that is there removes it from the bytes left.
pub remove_prefix-IsValid :
    (n : ℕ) {b : BufferList}
    → IsValid b
    → n ≤ b.size
    → IsValid (remove_prefix n b) × (remaining (remove_prefix n b) ≡ drop n (remaining b))
unfolding remove_prefix
remove_prefix-IsValid n {b} v h =
    let r = remove_loop-Removes n b.buffer b.skip b.size v.pieces v.front v.sized v.small h in
    (r.valid, r.dropped)

front-of_flat :
    (xs : List (List ℕ)) (skip : ℕ) (y : ℕ) (ys : List ℕ)
    → IsInFront xs skip
    → flat xs skip ≡ y ∷ ys
    → front_of (peek_front xs skip) ≡ some y
unfolding front_of peek_front
front-of_flat [] skip y ys f e = cc
front-of_flat (x ∷ xs) skip y ys f e = go (drop skip x) (omega (arith, length-drop skip x)) e
  where
    go : (z : List ℕ) → 0 < length z → z ++ concat xs ≡ y ∷ ys → front_of (some z) ≡ some y
    go [] h q = absurd (omega arith)
    go (w ∷ ws) h q = cc

-- A parser without an error that has exactly these bytes left.
pub record Holds (p : Parser) (bytes : List ℕ) : Type 0 where
  pub valid : IsValid p.input
  pub no_error : p.error ≡ false
  pub left : remaining p.input ≡ bytes

pub next_byte-Holds :
    (y : ℕ) (ys : List ℕ) {p : Parser}
    → Holds p (y ∷ ys)
    → (p' : Parser) × (next_byte p ≡ some (y, p')) × Holds p' ys
unfolding next_byte peek
next_byte-Holds y ys {p} h =
    let r = remove_prefix-IsValid 1 h.valid (omega (arith, h.valid.sized, ap length h.left)) in
    (
      record p { input = remove_prefix 1 p.input },
      rw (front-of_flat p.input.buffer p.input.skip y ys h.valid.front h.left),
      record { valid = r.0; no_error = h.no_error; left = r.1 ∙ ap (drop 1) h.left },
    )

pub make-Holds :
    (xs : List (List ℕ))
    → All IsNonempty xs
    → length (concat xs) < u64
    → Holds (make xs) (concat xs)
unfolding make
make-Holds xs h n =
    let r = hold_buffers-IsValid xs h n in record { valid = r.0; no_error = refl; left = r.1 }
