-- ===== src/StreamCopy/Moves.antt =====
-- What moves between a descriptor and a byte stream.
use computer_networking.Prelude.{
  subst, ℕ, ◌-◌, ◌≤◌, ◌<◌, ◌≡◌, refl, sym, ap, ◌∙◌, ◌&&◌, Option, none, some, List, ◌++◌, inl, inr,
  Bool-cases, length, replicate, length-replicate, take-of_le, take-append-drop, append-nil, ltb,
  ltb→ge, ◌==◌, ne→==, arith,
}
use computer_networking.ByteStream
use computer_networking.ByteStream.{ByteStream}
use computer_networking.ByteStream.Inv.{
  IsValid, available_capacity_lem, push-IsValid, pop-IsValid, close-IsValid,
}
use computer_networking.ByteStream.Refine.{
  contents, length-contents, peek-contents, contents-push, contents-pop,
}
use computer_networking.FileDescriptor
use computer_networking.FileDescriptor.{FdWrapper, Returned, Outcome}
use computer_networking.StreamCopy.{
  Moved, close_at_eof, after_read, fill_stream, after_write, drain_stream,
}

-- A read returns no more than the buffer takes.
IsRead : ℕ → Option (List ℕ) → Type 0
IsRead n none = Unit
IsRead n (some bytes) = length bytes ≤ n

read-IsRead :
    (r : Returned (List ℕ)) (buffer : List ℕ) (fd : FdWrapper)
    → 0 < length buffer
    → IsRead (length buffer) (FileDescriptor.read r buffer fd).1
unfolding FileDescriptor.read IsRead
read-IsRead (Returned.fails again) buffer fd h = elim (Bool-cases (fd.non_blocking && again)) [
  | inl e ↦ rw e (omega arith)
  | inr e ↦ rw e tt
]
read-IsRead (Returned.returns bytes) buffer fd h =
    rw (ne→== (length buffer) 0 (λ e. omega arith))
      (elim (Bool-cases (ltb (length buffer) (length bytes))) [
        | inl e ↦ rw e tt
        | inr e ↦ rw e (ltb→ge (length buffer) (length bytes) e)
      ])

close_at_eof-IsValid : (fd : FdWrapper) {s : ByteStream} → IsValid s → IsValid (close_at_eof fd s)
close_at_eof-IsValid fd {s} v = elim (Bool-cases fd.eof) [
  | inl e ↦ rw e (close-IsValid v)
  | inr e ↦ rw e v
]

contents-close_at_eof :
    (fd : FdWrapper) (s : ByteStream) → contents (close_at_eof fd s) ≡ contents s
contents-close_at_eof fd s = unfold ByteStream.close in ground arith

-- What is read joins the stream.
pub record Fills (s : ByteStream) (m : Moved) : Type 0 where
  pub valid : IsValid m.stream
  pub joined : contents m.stream ≡ contents s ++ m.bytes

after_read-Fills :
    (s : ByteStream) (o : Outcome (List ℕ))
    → IsValid s
    → IsRead (ByteStream.available_capacity s) o.1
    → Fills s (after_read s o)
unfolding IsRead
after_read-Fills s (fd, none) v h = record { valid = v; joined = sym (append-nil (contents s)) }
after_read-Fills s (fd, some bytes) v h = record {
  valid = close_at_eof-IsValid fd (push-IsValid bytes v);
  joined =
      contents-close_at_eof fd (ByteStream.push bytes s)
      ∙ contents-push bytes v
      ∙ ap (λ (xs : List ℕ). contents s ++ xs)
          (take-of_le (s.capacity - length (contents s)) bytes
            (omega (arith, available_capacity_lem v, length-contents v)));
}

pub fill_stream-Fills :
    (r : Returned (List ℕ)) (fd : FdWrapper) (s : ByteStream)
    → IsValid s
    → 0 < ByteStream.available_capacity s
    → Fills s (fill_stream r fd s)
unfolding fill_stream
fill_stream-Fills r fd s v h =
    let n = ByteStream.available_capacity s in
    let l = length-replicate n 0 in
    after_read-Fills s (FileDescriptor.read r (replicate n 0) fd) v (
      subst (λ (i : ℕ). IsRead i (FileDescriptor.read r (replicate n 0) fd).1) l
        (read-IsRead r (replicate n 0) fd (omega (arith, l))))

-- What is written was at the front of the stream.
pub record Drains (s : ByteStream) (m : Moved) : Type 0 where
  pub valid : IsValid m.stream
  pub split : contents s ≡ m.bytes ++ contents m.stream

after_write-Drains : (s : ByteStream) (o : Outcome ℕ) → IsValid s → Drains s (after_write s o)
after_write-Drains s (fd, none) v = record { valid = v; split = refl }
after_write-Drains s (fd, some n) v = record {
  valid = pop-IsValid n v;
  split = rw (contents-pop n v, peek-contents v) (sym (take-append-drop n (contents s)));
}

pub drain_stream-Drains :
    (r : Returned ℕ) (fd : FdWrapper) (s : ByteStream) → IsValid s → Drains s (drain_stream r fd s)
unfolding drain_stream
drain_stream-Drains r fd s v = elim (Bool-cases (ByteStream.bytes_buffered s == 0)) [
  | inl e ↦ rw e (record { valid = v; split = refl })
  | inr e ↦ rw e (after_write-Drains s (FileDescriptor.write r (ByteStream.peek s) fd) v)
]
