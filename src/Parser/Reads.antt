-- ===== src/Parser/Reads.antt =====
-- What a parsing step reads: the relation that proofs about `parse` functions compose.
use native.Mathlib.Nat.{
  pow-suc, one-le-pow, mul-add-mod_self_left, mod-eq_of_lt, div-add-mod, mod-lt,
  le-mul_of_pos_right, mod-one,
}
use computer_networking.Prelude.{
  ℕ, zero, suc, ◌+◌, ◌*◌, ◌/◌, ◌%◌, ◌^◌, ◌<◌, ◌≡◌, refl, sym, ap, ap₂, subst, ge→ltb, ◌∙◌, false,
  some, List, [], ◌∷◌, ◌++◌, All, length, length-append, append-nil, append_assoc, arith, ◌==◌,
  ==→eq, ==→ne, ◌≢◌, inl, inr, Bool-cases, drop, drop-append_length, nil-of_length,
}
use computer_networking.Parser.{
  Parser, M, pure, ◌>>=◌, integer_loop, integer, octets, skip_bytes, remove_prefix, check_size,
  next_byte, concat, all_remaining, dump_all, dump_front,
}
use computer_networking.Parser.Buffers.{Holds, remove_prefix-IsValid, next_byte-Holds, flat}
use computer_networking.Serializer.{big_endian}

-- From a parser without an error whose next bytes are `bytes`, the step returns `a` and stops behind them.
pub record Reads {A : Type 0} (m : M A) (bytes : List ℕ) (a : A) : Type 0 where
  pub at :
      (rest : List ℕ) (p : Parser)
      → Holds p (bytes ++ rest)
      → (p' : Parser) × (m p ≡ some (a, p')) × Holds p' rest

pub Reads-pure : {A : Type 0} (a : A) → Reads (pure a) [] a
Reads-pure a = record { at = λ rest p h. (p, refl, h) }

pub Reads-bind :
    {A B : Type 0} (m : M A) (f : A → M B) (xs ys : List ℕ) (a : A) (b : B)
    → Reads m xs a
    → Reads (f a) ys b
    → Reads (m >>= f) (xs ++ ys) b
Reads-bind m f xs ys a b r s = record {
  at = λ rest p h.
      let (p', e, h') = r.at (ys ++ rest) p (rw append_assoc at h) in
      let (p'', e', h'') = s.at rest p' h' in (p'', rw (e, ◌>>=◌) e', h'');
}

Reads-byte : (y : ℕ) → Reads next_byte (y ∷ []) y
Reads-byte y = record { at = λ rest p h. next_byte-Holds y rest h }

-- The number that `k` big-endian bytes of `v` stand for.
low-suc : (k v : ℕ) → v % 256 ^ suc k ≡ v / 256 ^ k % 256 * 256 ^ k + v % 256 ^ k
low-suc k v =
    let p = 256 ^ k in
    let q = v / p in
    let pos = one-le-pow k 256 (omega arith) in
    let small : q % 256 * p + v % p < p * 256 =
      grind (arith, mod-lt v {m = p}, mod-lt q {m = 256}) in
    let e : v ≡ p * 256 * (q / 256) + (q % 256 * p + v % p) =
      omega (arith, div-add-mod v p, ap (λ (x : ℕ). p * x) (div-add-mod q 256)) in
    ap (λ n. v % n) (pow-suc 256 k)
    ∙ ap (λ n. n % (p * 256)) e
    ∙ mul-add-mod_self_left (p * 256) (q / 256) (q % 256 * p + v % p)
    ∙ mod-eq_of_lt small

Reads-loop :
    (width rounds out v : ℕ)
    → out * 256 ^ rounds + v % 256 ^ rounds < 2 ^ (8 * width)
    → Reads
        (integer_loop width rounds out)
        (big_endian rounds v)
        (out * 256 ^ rounds + v % 256 ^ rounds)
unfolding integer_loop
Reads-loop width zero out v h =
    subst (λ a. Reads (pure out) [] a) (omega (arith, mod-one v)) (Reads-pure out)
Reads-loop width (suc k) out v h =
    let p = 256 ^ k in
    let b = v / p % 256 in
    let l = low-suc k v in
    let up : out * 256 ^ suc k ≡ out * 256 * p =
      omega (arith, ap (λ (x : ℕ). out * x) (pow-suc 256 k)) in
    let fits : out * 256 % 2 ^ (8 * width) ≡ out * 256 =
      mod-eq_of_lt
        (omega (arith, le-mul_of_pos_right (out * 256) (one-le-pow k 256 (omega arith)))) in
    let value : (out * 256 % 2 ^ (8 * width) + b) * p + v % p
        ≡ out * 256 ^ suc k + v % 256 ^ suc k =
      omega (arith, ap (λ (x : ℕ). x * p) fits) in
    Reads-bind next_byte (λ x. integer_loop width k (out * 256 % 2 ^ (8 * width) + x)) (b ∷ [])
      (big_endian k v) b _ (Reads-byte b)
      (subst
        (λ a. Reads (integer_loop width k (out * 256 % 2 ^ (8 * width) + b)) (big_endian k v) a)
        value (Reads-loop width k (out * 256 % 2 ^ (8 * width) + b) v (rw value h)))

pub length-big_endian : (k v : ℕ) → length (big_endian k v) ≡ k
length-big_endian zero v = refl
length-big_endian (suc k) v = ap suc (length-big_endian k v)

check_size-Holds :
    (width v : ℕ) (rest : List ℕ) (p : Parser)
    → Holds p (big_endian width v ++ rest)
    → check_size width p ≡ p
unfolding check_size
check_size-Holds width v rest p h = rw (
    ge→ltb p.input.size width (
      omega (
        arith,
        h.valid.sized,
        ap length h.left,
        length-append (big_endian width v) rest,
        length-big_endian width v,
      )))

integer-of_room :
    (width old : ℕ) (p : Parser)
    → check_size width p ≡ p
    → p.error ≡ false
    → integer width old p ≡ integer_loop width width 0 p
unfolding integer
integer-of_room width old p e f = rw e (ground arith)

-- `integer` of a type of `width` bytes reads back a number that fits from its big-endian bytes.
pub Reads-integer :
    (width old v : ℕ)
    → 256 ^ width ≡ 2 ^ (8 * width)
    → v < 256 ^ width
    → Reads (integer width old) (big_endian width v) v
Reads-integer width old v w h =
    let e : 0 * 256 ^ width + v % 256 ^ width ≡ v = omega (arith, mod-eq_of_lt h) in
    let r =
      subst (λ a. Reads (integer_loop width width 0) (big_endian width v) a) e
        (Reads-loop width width 0 v (omega arith)) in
    record {
      at = λ rest p hp.
          let (p', e', h') = r.at rest p hp in
          (
            p',
            integer-of_room width old p (check_size-Holds width v rest p hp) hp.no_error ∙ e',
            h',
          );
    }

-- A byte.
abbrev pub IsByte : ℕ → Type 0
IsByte b = b < 256

abbrev pub octets_of : List ℕ → List ℕ
octets_of [] = []
octets_of (b ∷ bs) = big_endian 1 b ++ octets_of bs

-- Bytes are their own serialization.
pub octets_of_lem : (bs : List ℕ) → All IsByte bs → octets_of bs ≡ bs
octets_of_lem [] h = refl
octets_of_lem (b ∷ bs) (h, hs) = ap₂ ◌∷◌ (omega arith) (octets_of_lem bs hs)

pub length-octets_of : (bs : List ℕ) → length (octets_of bs) ≡ length bs
length-octets_of [] = refl
length-octets_of (b ∷ bs) = ap suc (length-octets_of bs)

-- Reading over an array of the same length reads the array that was written.
pub Reads-octets :
    (olds bs : List ℕ)
    → length olds ≡ length bs
    → All IsByte bs
    → Reads (octets olds) (octets_of bs) bs
unfolding octets
Reads-octets [] [] e h = Reads-pure []
Reads-octets [] (b ∷ bs) e h = absurd (omega arith)
Reads-octets (o ∷ os) [] e h = absurd (omega arith)
Reads-octets (o ∷ os) (b ∷ bs) e (h, hs) =
    Reads-bind (integer 1 o) _ (big_endian 1 b) (octets_of bs) b _ (Reads-integer 1 o b refl h) (
      subst (λ xs. Reads (octets os >>= λ r. pure (b ∷ r)) xs (b ∷ bs)) (append-nil (octets_of bs))
        (Reads-bind (octets os) (λ r. pure (b ∷ r)) (octets_of bs) [] bs _
          (Reads-octets os bs (omega arith) hs) (Reads-pure (b ∷ bs))))

front-concat :
    (xs : List (List ℕ)) (skip : ℕ) (bytes : List ℕ)
    → flat xs skip ≡ bytes
    → length bytes ≢ 0
    → (buffers : List (List ℕ)) × (dump_front xs skip ≡ some buffers) × (concat buffers ≡ bytes)
unfolding dump_front
front-concat [] skip bytes e h = absurd (h (ap length (sym e)))
front-concat (x ∷ xs) skip bytes e h = elim (Bool-cases (skip == 0)) [
  | inl z ↦ (x ∷ xs, rw z, ap (λ i. drop i x ++ concat xs) (sym (==→eq skip 0 z)) ∙ e)
  | inr z ↦ (drop skip x ∷ xs, rw z, e)
]

-- `all_remaining` gives the bytes left.
pub all_remaining-concat :
    (p : Parser) (bytes : List ℕ)
    → Holds p bytes
    → (buffers : List (List ℕ)) × (all_remaining p ≡ some (buffers, p)) × (concat buffers ≡ bytes)
unfolding all_remaining dump_all
all_remaining-concat p bytes h = elim (Bool-cases (p.input.size == 0)) [
  | inl z ↦ (
    [],
    rw z,
    sym (
        nil-of_length bytes
          (omega (arith, ==→eq p.input.size 0 z, h.valid.sized, ap length h.left))),
  )
  | inr z ↦
      let (buffers, e, c) =
        front-concat p.input.buffer p.input.skip bytes h.left
          (omega (arith, ==→ne p.input.size 0 z, h.valid.sized, ap length h.left)) in
      (buffers, rw (z, e), c)
]

-- Skipping bytes reads them and forgets them.
pub Reads-skip : (bytes : List ℕ) → Reads (skip_bytes (length bytes)) bytes tt
unfolding skip_bytes
Reads-skip bytes = record {
  at = λ rest p h.
      let (v, e) =
        remove_prefix-IsValid (length bytes) h.valid
          (omega (arith, h.valid.sized, ap length h.left, length-append bytes rest)) in
      (
        record p { input = remove_prefix (length bytes) p.input },
        refl,
        record {
          valid = v;
          no_error = h.no_error;
          left =
              e
              ∙ ap (drop (length bytes)) h.left
              ∙ drop-append_length bytes rest (length bytes) refl;
        },
      );
}
