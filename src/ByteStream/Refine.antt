-- ===== src/ByteStream/Refine.antt =====
-- A valid `ByteStream` behaves as the queue of the bytes that it holds.
use computer_networking.Prelude.{
  ℕ, ◌+◌, ◌-◌, min, ◌≡◌, refl, sym, ap, ap₂, ◌∙◌, List, [], ◌∷◌, ◌++◌, length, take, drop,
  append-nil, append_assoc, length-drop, take-of_le, drop-append, drop-drop, take-eq-take-min,
  drop-eq-drop-min, take-append-drop, drop-nil, arith,
}
use computer_networking.ByteStream.{
  ByteStream, set_error, available_capacity, compact, append, push, close, pop, peek,
  bytes_buffered, is_finished,
}
use computer_networking.ByteStream.Inv.{
  IsValid, available_capacity_lem, compact-IsValid, capacity-compact, push-IsValid, pop-IsValid,
  close-IsValid, set_error-IsValid,
}
use computer_networking.ByteStream.Fifo
use computer_networking.ByteStream.Fifo.{Fifo, Call, pushes, pops, closes, fails, accepts}

-- The bytes that are pushed and not popped.
abbrev pub contents : ByteStream → List ℕ
contents s = drop s.start_index s.buffer

abbrev pub view : ByteStream → Fifo
view s = record { capacity = s.capacity; held = contents s; closed = s.closed; error = s.error }

pub length-contents : {s : ByteStream} → IsValid s → length (contents s) ≡ s.buffer_size
length-contents {s} v = omega (arith, length-drop s.start_index s.buffer)

-- `peek` shows all the bytes held.
pub peek-contents : {s : ByteStream} → IsValid s → peek s ≡ contents s
unfolding peek
peek-contents {s} v = go s.buffer (length-contents v)
  where
    go :
        (b : List ℕ)
        → length (drop s.start_index b) ≡ s.buffer_size
        → peek (record s { buffer = b }) ≡ drop s.start_index b
    go [] h = sym (drop-nil s.start_index)
    go (x ∷ b) h = take-of_le s.buffer_size (drop s.start_index (x ∷ b)) (omega arith)

contents-compact : (s : ByteStream) → contents (compact s) ≡ contents s
unfolding compact
contents-compact s = ground arith

contents-append :
    (bytes : List ℕ) {s : ByteStream}
    → IsValid s
    → contents (append bytes s) ≡ contents s ++ take (s.capacity - s.buffer_size) bytes
unfolding append
contents-append bytes {s} v =
    drop-append s.start_index s.buffer (take (min (available_capacity s) (length bytes)) bytes)
      (omega arith)
    ∙ ap (◌++◌ (contents s)) (
        take-eq-take-min (available_capacity s) bytes
        ∙ ap (λ n. take n bytes) (available_capacity_lem v))

flags-push :
    (bytes : List ℕ) (s : ByteStream)
    → ((push bytes s).capacity ≡ s.capacity)
      × ((push bytes s).closed ≡ s.closed)
      × ((push bytes s).error ≡ s.error)
unfolding push
flags-push bytes s = ground arith

pub contents-push :
    (bytes : List ℕ) {s : ByteStream}
    → IsValid s
    → contents (push bytes s) ≡ contents s ++ take (s.capacity - length (contents s)) bytes
contents-push bytes {s} v =
    unfold push in
    contents-append bytes (compact-IsValid v).0
    ∙ ap₂ (λ c n. c ++ take n bytes) (contents-compact s)
        (ground (arith, capacity-compact s, length-contents v))

pub contents-pop : (n : ℕ) {s : ByteStream} → IsValid s → contents (pop n s) ≡ drop n (contents s)
unfolding pop bytes_buffered
contents-pop n {s} v =
    sym (drop-drop s.start_index (min n s.buffer_size) _ s.buffer (omega arith))
    ∙ ap (λ k. drop (min n k) (contents s)) (sym (length-contents v))
    ∙ drop-eq-drop-min n (contents s)

-- The stream after a call.
abbrev pub step : ByteStream → Call → ByteStream
step s (pushes bytes) = push bytes s
step s (pops n) = pop n s
step s closes = close s
step s fails = set_error s

pub step-IsValid : (c : Call) {s : ByteStream} → IsValid s → IsValid (step s c)
step-IsValid (pushes bytes) v = push-IsValid bytes v
step-IsValid (pops n) v = pop-IsValid n v
step-IsValid closes v = close-IsValid v
step-IsValid fails v = set_error-IsValid v

-- Each of `push`, `pop`, `close` and `set_error` on a valid stream does to the bytes, the capacity
-- and the flags of the stream what the call does to a bounded queue of bytes, and leaves a valid
-- stream.
pub step_refines :
    (c : Call) {s : ByteStream}
    → IsValid s
    → (view (step s c) ≡ Fifo.step (view s) c) × IsValid (step s c)
step_refines (pushes bytes) {s} v =
    (ground (arith, flags-push bytes s, contents-push bytes v), push-IsValid bytes v)
step_refines (pops n) v = (rw (contents-pop n v) (unfold pop in refl), pop-IsValid n v)
step_refines closes v = (unfold close in refl, close-IsValid v)
step_refines fails v = (unfold set_error in refl, set_error-IsValid v)

-- On a valid stream `peek`, `bytes_buffered`, `available_capacity` and `is_finished` answer what the
-- bounded queue of its bytes determines.
pub observe_refines :
    {s : ByteStream}
    → IsValid s
    → (peek s ≡ (view s).held)
      × (bytes_buffered s ≡ length (view s).held)
      × (available_capacity s + length (view s).held ≡ (view s).capacity)
      × (is_finished s ≡ Fifo.finished (view s))
unfolding is_finished bytes_buffered
observe_refines {s} v = (
  peek-contents v,
  sym (length-contents v),
  omega (arith, available_capacity_lem v, length-contents v),
  rw (length-contents v),
)

-- The stream after a history of calls, with the bytes that it accepted and those that it gave out.
abbrev pub run : List Call → ByteStream → ByteStream
run [] s = s
run (c ∷ cs) s = run cs (step s c)

abbrev taken_in : ByteStream → Call → List ℕ
taken_in s (pushes bytes) = take (available_capacity s) bytes
taken_in s _ = []

abbrev given_out : ByteStream → Call → List ℕ
given_out s (pops n) = take n (peek s)
given_out s _ = []

abbrev pub all_in : List Call → ByteStream → List ℕ
all_in [] s = []
all_in (c ∷ cs) s = taken_in s c ++ all_in cs (step s c)

abbrev pub all_out : List Call → ByteStream → List ℕ
all_out [] s = []
all_out (c ∷ cs) s = given_out s c ++ all_out cs (step s c)

step-conserves :
    (c : Call) {s : ByteStream}
    → IsValid s
    → contents s ++ taken_in s c ≡ given_out s c ++ contents (step s c)
step-conserves (pushes bytes) {s} v =
    rw (contents-push bytes v, available_capacity_lem v, length-contents v)
step-conserves (pops n) {s} v =
    rw (contents-pop n v, peek-contents v, append-nil) (sym (take-append-drop n (contents s)))
step-conserves closes v = rw append-nil (unfold close in refl)
step-conserves fails v = rw append-nil (unfold set_error in refl)

-- Over any sequence of calls on a valid stream, the bytes that it held and then accepted are, in
-- order, the bytes that it gave out and those that it holds at the end; and the stream stays valid.
pub run-conserves :
    (cs : List Call) {s : ByteStream}
    → IsValid s
    → (contents s ++ all_in cs s ≡ all_out cs s ++ contents (run cs s)) × IsValid (run cs s)
run-conserves [] v = (append-nil _, v)
run-conserves (c ∷ cs) {s} v =
    let (e, w) = run-conserves cs (step-IsValid c v) in
    (
      sym (append_assoc (contents s) (taken_in s c) _)
          ∙ ap (λ xs. xs ++ all_in cs (step s c)) (step-conserves c v)
          ∙ append_assoc (given_out s c) (contents (step s c)) _
          ∙ ap (◌++◌ (given_out s c)) e
          ∙ sym (append_assoc (given_out s c) _ _),
      w,
    )
