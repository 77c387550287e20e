-- ===== src/Serializer/Borrowed.antt =====
-- Which of the references that `finish` returns borrow, and what a parser makes of them.
use computer_networking.Prelude.{
  ℕ, ◌≡◌, refl, ap, true, false, Option, none, some, List, [], ◌∷◌, ◌++◌, length, inl, inr,
  Bool-cases, ==→eq, ◌<◌, ◌==◌, if◌then◌else◌, arith,
}
use computer_networking.Ref.{Ref, own, borrow, objects, copies}
use computer_networking.Parser.{
  concat, take_over, held, prepend, make_buffers, over_input, make, construct,
}
use computer_networking.Serializer.{
  Serializer, flushed, flush, put_nonempty, put_ref, put_buffers, finish_refs, finish,
}

-- Owned copies of references are taken over.
take_over-copies : (rs : List Ref) → take_over (copies rs) ≡ some (objects rs)
unfolding take_over
take_over-copies [] = refl
take_over-copies (r ∷ rs) = ap (prepend r.object) (take_over-copies rs)

construct-of_taken :
    (rs : List Ref) (o : Option (List (List ℕ)))
    → take_over rs ≡ o
    → construct rs ≡ over_input (held o)
unfolding construct make_buffers
construct-of_taken rs o h = ap (λ (x : Option (List (List ℕ))). over_input (held x)) h

pub construct-copies :
    (s : Serializer) → construct (copies (finish_refs s)) ≡ some (make (finish s))
unfolding finish make
construct-copies s =
    construct-of_taken (copies (finish_refs s)) (some (objects (finish_refs s)))
      (take_over-copies (finish_refs s))

-- A borrowed reference is refused, wherever it stands.
take_over-borrowed :
    (rs : List Ref) (b : Ref) → b.is_borrowed ≡ true → take_over (rs ++ b ∷ []) ≡ none
unfolding take_over
take_over-borrowed [] b h = rw h refl
take_over-borrowed (r ∷ rs) b h = rw (take_over-borrowed rs b h) (ground arith)

prepend-none : (x : List ℕ) (o : Option (List (List ℕ))) → prepend x o ≡ none → o ≡ none
prepend-none x none h = refl
prepend-none x (some xs) h = absurd cc

take_over-append : (rs : List Ref) (r : Ref) → take_over rs ≡ none → take_over (rs ++ r ∷ []) ≡ none
unfolding take_over
take_over-append [] r h = absurd cc
take_over-append (x ∷ rs) r h = elim (Bool-cases x.is_borrowed) [
  | inl e ↦ rw e refl
  | inr e ↦ rw e (
      ap (prepend x.object)
        (take_over-append rs r (prepend-none x.object (take_over rs) (rw e at h))))
]

take_over-flushed :
    (output : List Ref) (buffer : List ℕ)
    → take_over output ≡ none
    → take_over (flushed output buffer) ≡ none
take_over-flushed output [] h = h
take_over-flushed output (b ∷ bs) h = take_over-append output (own (b ∷ bs)) h

positive : (n : ℕ) → (n == 0) ≡ false → 0 < n
positive n h = ground arith

-- Once the output has a borrowed reference, it stays refused.
put_buffers-refused :
    (bufs : List (List ℕ)) (s : Serializer)
    → take_over s.output ≡ none
    → take_over (finish_refs (put_buffers bufs s)) ≡ none
unfolding put_buffers put_ref put_nonempty finish_refs flush
put_buffers-refused [] s h = take_over-flushed s.output s.buffer h
put_buffers-refused ([] ∷ bufs) s h = put_buffers-refused bufs s h
put_buffers-refused ((x ∷ xs) ∷ bufs) s h =
    put_buffers-refused bufs (put_nonempty (x ∷ xs) (borrow (own (x ∷ xs))) s) (
      take_over-append (flushed s.output s.buffer) (borrow (own (x ∷ xs)))
        (take_over-flushed s.output s.buffer h))

put_buffers-borrows :
    (bufs : List (List ℕ)) (s : Serializer)
    → 0 < length (concat bufs)
    → take_over (finish_refs (put_buffers bufs s)) ≡ none
unfolding put_buffers put_ref put_nonempty finish_refs flush
put_buffers-borrows [] s h = absurd (omega arith)
put_buffers-borrows ([] ∷ bufs) s h = put_buffers-borrows bufs s h
put_buffers-borrows ((x ∷ xs) ∷ bufs) s h =
    put_buffers-refused bufs (put_nonempty (x ∷ xs) (borrow (own (x ∷ xs))) s)
      (take_over-borrowed (flushed s.output s.buffer) (borrow (own (x ∷ xs))) refl)

-- Empty buffers leave no trace.
put_buffers-empty :
    (bufs : List (List ℕ)) (s : Serializer) → length (concat bufs) ≡ 0 → put_buffers bufs s ≡ s
unfolding put_buffers put_ref put_nonempty
put_buffers-empty [] s h = refl
put_buffers-empty ([] ∷ bufs) s h = put_buffers-empty bufs s h
put_buffers-empty ((x ∷ xs) ∷ bufs) s h = absurd (omega arith)

-- A serializer without output so far owns what it has.
take_over-buffer :
    (buffer : List ℕ) → take_over (flushed [] buffer) ≡ some (objects (flushed [] buffer))
unfolding take_over
take_over-buffer [] = refl
take_over-buffer (b ∷ bs) = refl

construct-unflushed :
    (s : Serializer) → s.output ≡ [] → construct (finish_refs s) ≡ some (make (finish s))
unfolding finish finish_refs flush make
construct-unflushed s h = rw h (construct-of_taken _ _ (take_over-buffer s.buffer))

-- The references to buffers behind headers are refused if the buffers hold a byte, since they borrow.
pub construct-put_buffers :
    (bufs : List (List ℕ)) (s : Serializer)
    → s.output ≡ []
    → construct (finish_refs (put_buffers bufs s))
      ≡ (if length (concat bufs) == 0 then some (make (finish (put_buffers bufs s))) else none)
construct-put_buffers bufs s h = elim (Bool-cases (length (concat bufs) == 0)) [
  | inl e ↦
      rw (e, put_buffers-empty bufs s (==→eq (length (concat bufs)) 0 e)) (construct-unflushed s h)
  | inr e ↦ rw e (
      construct-of_taken (finish_refs (put_buffers bufs s)) none
        (put_buffers-borrows bufs s (positive (length (concat bufs)) e)))
]
