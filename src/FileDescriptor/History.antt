-- ===== src/FileDescriptor/History.antt =====
-- What every sequence of calls leaves of a descriptor.
use computer_networking.Prelude.{
  ℕ, ◌≡◌, refl, sym, Bool-cases, inl, inr, ◌∙◌, Bool, true, false, ◌&&◌, Option, none, some, List,
  [], ◌∷◌, ◌==◌, if◌then◌else◌, length,
}
use computer_networking.Parser.{total}
use computer_networking.FileDescriptor
use computer_networking.FileDescriptor.{FdWrapper, Returned, Outcome}

-- One call of an operation, with what the system returns.
pub data Call : Type 0 where
  read : Returned (List ℕ) → List ℕ → Call
  read_buffers : Returned (List ℕ) → List (List ℕ) → Call
  write_buffers : Returned ℕ → List (List ℕ) → Call
  set_blocking : Bool → Returned ℕ → Returned ℕ → Call
  close : Returned ℕ → Call

-- The descriptor after it, an exception caught.
abbrev pub step : Call → FdWrapper → FdWrapper
step (read r buffer) w = (FileDescriptor.read r buffer w).0
step (read_buffers r buffers) w = (FileDescriptor.read_buffers r buffers w).0
step (write_buffers r buffers) w = (FileDescriptor.write_buffers r buffers w).0
step (set_blocking blocking r s) w = (FileDescriptor.set_blocking blocking r s w).0
step (close r) w = (FileDescriptor.close r w).0

abbrev pub run : List Call → FdWrapper → FdWrapper
run [] w = w
run (c ∷ cs) w = run cs (step c w)

-- What the later state owes to the earlier one.
pub record Follows (w v : FdWrapper) : Type 0 where
  pub same_fd : v.fd ≡ w.fd
  pub eof_stays : w.eof ≡ true → v.eof ≡ true
  pub closed_stays : w.closed ≡ true → v.closed ≡ true
  pub closed_eof : (w.closed ≡ true → w.eof ≡ true) → v.closed ≡ true → v.eof ≡ true

Follows-refl : (w : FdWrapper) → Follows w w
Follows-refl w = record {
  same_fd = refl;
  eof_stays = λ h. h;
  closed_stays = λ h. h;
  closed_eof = λ h. h;
}

Follows-trans : (u v w : FdWrapper) → Follows u v → Follows v w → Follows u w
Follows-trans u v w p q = record {
  same_fd = q.same_fd ∙ p.same_fd;
  eof_stays = λ h. q.eof_stays (p.eof_stays h);
  closed_stays = λ h. q.closed_stays (p.closed_stays h);
  closed_eof = λ h. q.closed_eof (p.closed_eof h);
}

-- The three ways in which an operation changes the flags.
Follows-flags : (w v : FdWrapper) → v.fd ≡ w.fd → v.eof ≡ w.eof → v.closed ≡ w.closed → Follows w v
Follows-flags w v f e c = record {
  same_fd = f;
  eof_stays = λ h. e ∙ h;
  closed_stays = λ h. c ∙ h;
  closed_eof = λ h k. e ∙ h (sym c ∙ k);
}

Follows-eof : (w v : FdWrapper) → v.fd ≡ w.fd → v.eof ≡ true → v.closed ≡ w.closed → Follows w v
Follows-eof w v f e c = record {
  same_fd = f;
  eof_stays = λ h. e;
  closed_stays = λ h. c ∙ h;
  closed_eof = λ h k. e;
}

Follows-if :
    {A : Type 0} (b : Bool) (w : FdWrapper) (x y : Outcome A)
    → Follows w x.0
    → Follows w y.0
    → Follows w (if b then x else y).0
Follows-if true w x y p q = p
Follows-if false w x y p q = q

Follows-read :
    (n : ℕ) (w : FdWrapper) → Follows w (FileDescriptor.note_eof n (FileDescriptor.register_read w))
Follows-read n w = elim (Bool-cases (n == 0)) [
  | inl z ↦ rw z (Follows-eof w _ refl refl refl)
  | inr z ↦ rw z (Follows-flags w _ refl refl refl)
]

read-Follows :
    (r : Returned (List ℕ)) (buffer : List ℕ) (w : FdWrapper)
    → Follows w (FileDescriptor.read r buffer w).0
unfolding FileDescriptor.read
read-Follows (Returned.fails again) buffer w =
    Follows-if (w.non_blocking && again) w (w, some []) (w, none) (Follows-refl w) (Follows-refl w)
read-Follows (Returned.returns bytes) buffer w =
    Follows-if _ w (_, none) (_, some bytes) (Follows-read (length bytes) w)
      (Follows-read (length bytes) w)

fill-Follows :
    (r : Returned (List ℕ)) (sizes : List ℕ) (w : FdWrapper)
    → Follows w (FileDescriptor.fill r sizes w).0
unfolding FileDescriptor.fill
fill-Follows (Returned.fails again) sizes w =
    Follows-if (w.non_blocking && again) w (w, some []) (w, none) (Follows-refl w) (Follows-refl w)
fill-Follows (Returned.returns bytes) sizes w =
    Follows-if _ w (_, none) (_, some _) (Follows-flags w _ refl refl refl)
      (Follows-flags w _ refl refl refl)

after_write-Follows :
    (size : ℕ) (w : FdWrapper) (o : Option ℕ) → Follows w (FileDescriptor.after_write size w o).0
after_write-Follows size w none = Follows-refl w
after_write-Follows size w (some n) =
    let v = Follows-flags w (FileDescriptor.register_write w) refl refl refl in
    Follows-if _ w (_, none) _ v (Follows-if _ w (_, none) (_, some n) v v)

after_flags-Follows :
    (blocking : Bool) (w : FdWrapper) (o p : Option ℕ)
    → Follows w (FileDescriptor.after_flags blocking w o p).0
after_flags-Follows blocking w none p = Follows-refl w
after_flags-Follows blocking w (some n) none = Follows-refl w
after_flags-Follows blocking w (some n) (some k) = Follows-flags w _ refl refl refl

after_close-Follows : (w : FdWrapper) (o : Option ℕ) → Follows w (FileDescriptor.after_close w o).0
after_close-Follows w none = Follows-refl w
after_close-Follows w (some n) = record {
  same_fd = refl;
  eof_stays = λ h. refl;
  closed_stays = λ h. refl;
  closed_eof = λ h k. refl;
}

step-Follows : (c : Call) (w : FdWrapper) → Follows w (step c w)
unfolding FileDescriptor.read_buffers FileDescriptor.write_buffers FileDescriptor.set_blocking
    FileDescriptor.close
step-Follows (Call.read r buffer) w = read-Follows r buffer w
step-Follows (Call.read_buffers r []) w = Follows-refl w
step-Follows (Call.read_buffers r (x ∷ xs)) w = fill-Follows r (FileDescriptor.sizes_of (x ∷ xs)) w
step-Follows (Call.write_buffers r buffers) w =
    after_write-Follows (total buffers) w (FileDescriptor.check_system_call r w)
step-Follows (Call.set_blocking blocking r s) w =
    after_flags-Follows blocking w (FileDescriptor.check_system_call r w)
      (FileDescriptor.check_system_call s w)
step-Follows (Call.close r) w = after_close-Follows w (FileDescriptor.check_system_call r w)

run-Follows : (calls : List Call) (w : FdWrapper) → Follows w (run calls w)
run-Follows [] w = Follows-refl w
run-Follows (c ∷ cs) w =
    Follows-trans w (step c w) (run cs (step c w)) (step-Follows c w) (run-Follows cs (step c w))

-- Once a descriptor has been closed, in any history of calls, exceptions caught, it is still closed,
-- at its end and of the same number after any further calls.
pub run-closed :
    (fd : ℕ) (flag : Bool) (xs ys : List Call)
    → (run xs (FileDescriptor.init fd flag)).closed ≡ true
    → ((run ys (run xs (FileDescriptor.init fd flag))).closed ≡ true)
      × ((run ys (run xs (FileDescriptor.init fd flag))).eof ≡ true)
      × ((run ys (run xs (FileDescriptor.init fd flag))).fd ≡ fd)
run-closed fd flag xs ys h =
    let start = FileDescriptor.init fd flag in
    let p = run-Follows xs start in
    let q = run-Follows ys (run xs start) in
    (q.closed_stays h, q.eof_stays (p.closed_eof (λ k. absurd cc) h), q.same_fd ∙ p.same_fd)
