-- ===== src/Serializer/Writes.antt =====
-- What a serializing step writes: the relation that proofs about `serialize` functions compose.
use computer_networking.Prelude.{
  ℕ, ◌<◌, ◌≡◌, refl, sym, ap, ◌∙◌, subst, Bool, true, false, List, [], ◌∷◌, ◌++◌, All, length,
  All-append, append-nil, append_assoc, arith, some, u64,
}
use computer_networking.Ref.{Ref, own, borrow, objects}
use computer_networking.Parser.{Parser, M, make, concat}
use computer_networking.Parser.Buffers.{IsNonempty, Holds, make-Holds}
use computer_networking.Parser.Reads.{Reads, octets_of}
use computer_networking.Serializer.{
  Serializer, empty, flushed, integer, put_nonempty, put_ref, put_buffer, finish_refs, put_buffers,
  put_octets, finish, big_endian,
}

-- All that is written so far.
abbrev pub written : Serializer → List ℕ
written s = concat (objects s.output) ++ s.buffer

-- The step appends `bytes`, and passes no empty buffer on.
pub record Writes (f : Serializer → Serializer) (bytes : List ℕ) : Type 0 where
  pub appends : (s : Serializer) → written (f s) ≡ written s ++ bytes
  pub pieces :
      (s : Serializer) → All IsNonempty (objects s.output) → All IsNonempty (objects (f s).output)

pub Writes-then :
    (f g : Serializer → Serializer) (xs ys : List ℕ)
    → Writes f xs
    → Writes g ys
    → Writes (λ s. g (f s)) (xs ++ ys)
Writes-then f g xs ys u v = record {
  appends =
      λ s. v.appends (f s) ∙ ap (λ zs. zs ++ ys) (u.appends s) ∙ append_assoc (written s) xs ys;
  pieces = λ s h. v.pieces (f s) (u.pieces s h);
}

pub Writes-integer : (width val : ℕ) → Writes (integer width val) (big_endian width val)
unfolding integer
Writes-integer width val = record {
  appends = λ s. sym (append_assoc (concat (objects s.output)) s.buffer (big_endian width val));
  pieces = λ s h. h;
}

pub Writes-octets : (bs : List ℕ) → Writes (put_octets bs) (octets_of bs)
unfolding put_octets
Writes-octets [] = record { appends = λ s. sym (append-nil (written s)); pieces = λ s h. h }
Writes-octets (b ∷ bs) =
    Writes-then (integer 1 b) (put_octets bs) (big_endian 1 b) (octets_of bs) (Writes-integer 1 b)
      (Writes-octets bs)

pub concat-append : (xs ys : List (List ℕ)) → concat (xs ++ ys) ≡ concat xs ++ concat ys
concat-append [] ys = refl
concat-append (x ∷ xs) ys =
    ap (◌++◌ x) (concat-append xs ys) ∙ sym (append_assoc x (concat xs) (concat ys))

pub objects-append : (xs ys : List Ref) → objects (xs ++ ys) ≡ objects xs ++ objects ys
objects-append [] ys = refl
objects-append (x ∷ xs) ys = ap (◌∷◌ x.object) (objects-append xs ys)

-- One more element in the output.
put-last :
    (output : List Ref) (r : Ref)
    → 0 < length r.object
    → (concat (objects (output ++ r ∷ [])) ≡ concat (objects output) ++ r.object)
      × (All IsNonempty (objects output) → All IsNonempty (objects (output ++ r ∷ [])))
put-last output r n = (
  ap concat (objects-append output (r ∷ []))
      ∙ concat-append (objects output) (r.object ∷ [])
      ∙ ap (λ zs. concat (objects output) ++ zs) (append-nil r.object),
  λ h.
      subst (All IsNonempty) (sym (objects-append output (r ∷ [])))
        (All-append IsNonempty (objects output) (r.object ∷ []) h (n, tt)),
)

flushed_lem :
    (output : List Ref) (buffer : List ℕ)
    → (concat (objects (flushed output buffer)) ≡ concat (objects output) ++ buffer)
      × (All IsNonempty (objects output) → All IsNonempty (objects (flushed output buffer)))
flushed_lem output [] = (sym (append-nil (concat (objects output))), λ h. h)
flushed_lem output (b ∷ bs) = put-last output (own (b ∷ bs)) (omega arith)

-- An object of a `Ref`, owned or borrowed.
Writes-object :
    (borrowed : Bool) (bs : List ℕ)
    → Writes (put_nonempty bs (record { is_borrowed = borrowed; object = bs })) bs
unfolding put_nonempty
Writes-object borrowed [] = record {
  appends = λ s. sym (append-nil (written s));
  pieces = λ s h. h;
}
Writes-object borrowed (b ∷ bs) =
    let r : Ref = record { is_borrowed = borrowed; object = b ∷ bs } in
    record {
      appends = λ s.
          append-nil _
          ∙ (put-last (flushed s.output s.buffer) r (omega arith)).0
          ∙ ap (λ zs. zs ++ (b ∷ bs)) ((flushed_lem s.output s.buffer).0);
      pieces = λ s h.
          (put-last (flushed s.output s.buffer) r (omega arith)).1
            ((flushed_lem s.output s.buffer).1 h);
    }

pub Writes-buffer : (bs : List ℕ) → Writes (put_buffer bs) bs
unfolding put_buffer put_ref
Writes-buffer bs = Writes-object false bs

pub Writes-buffers : (bufs : List (List ℕ)) → Writes (put_buffers bufs) (concat bufs)
unfolding put_buffers put_ref
Writes-buffers [] = record { appends = λ s. sym (append-nil (written s)); pieces = λ s h. h }
Writes-buffers (b ∷ bs) =
    Writes-then (put_nonempty b (borrow (own b))) (put_buffers bs) b (concat bs)
      (Writes-object true b) (Writes-buffers bs)

-- The buffers of a serialization made from nothing hold what was written, and none is empty.
pub finish-Writes :
    (f : Serializer → Serializer) (bytes : List ℕ)
    → Writes f bytes
    → (concat (finish (f empty)) ≡ bytes) × All IsNonempty (finish (f empty))
unfolding finish finish_refs
finish-Writes f bytes w =
    let (e, k) = flushed_lem (f empty).output (f empty).buffer in
    (e ∙ w.appends empty, k (w.pieces empty tt))

-- Steps in a row write what each of them writes.
pub record WritesAll (f : Serializer → Serializer) (parts : List (List ℕ)) : Type 0 where
  pub joined : Writes f (concat parts)

pub WritesAll-none : WritesAll (λ s. s) []
WritesAll-none = record {
  joined = record { appends = λ s. sym (append-nil (written s)); pieces = λ s h. h };
}

pub WritesAll-more :
    {f g : Serializer → Serializer} {parts : List (List ℕ)} {xs : List ℕ}
    → WritesAll f parts
    → Writes g xs
    → WritesAll (λ s. g (f s)) (parts ++ xs ∷ [])
WritesAll-more {f} {g} {parts} {xs} u v = record {
  joined =
      subst (Writes (λ s. g (f s)))
        (sym (concat-append parts (xs ∷ []) ∙ ap (◌++◌ (concat parts)) (append-nil xs)))
        (Writes-then f g (concat parts) xs u.joined v);
}

-- What a step writes from nothing is read back by a step that reads those bytes.
pub read-written :
    {A : Type 0} (f : Serializer → Serializer) (m : M A) (bytes : List ℕ) (a : A)
    → Writes f bytes
    → Reads m bytes a
    → length bytes < u64
    → (p : Parser) × (m (make (finish (f empty))) ≡ some (a, p)) × Holds p []
read-written f m bytes a w r small =
    let (e, pieces) = finish-Writes f bytes w in
    let start = make-Holds (finish (f empty)) pieces (rw e small) in
    r.at [] (make (finish (f empty)))
      (subst (Holds (make (finish (f empty)))) (e ∙ sym (append-nil bytes)) start)
