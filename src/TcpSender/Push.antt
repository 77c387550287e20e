-- ===== src/TcpSender/Push.antt =====
-- `TCPSender::push` as a whole: it ends, keeps the invariant, sends the next bytes of the stream within
-- the window, and stops only when nothing more can be sent.
use computer_networking.Prelude.{
  ℕ, zero, suc, ◌+◌, ◌≤◌, ◌<◌, ◌≡◌, refl, sym, ap, ap₂, ◌∙◌, subst, true, false, ◌⊎◌, inl, inr,
  Bool-cases, some, List, [], ◌∷◌, ◌++◌, append-nil, append_assoc, nil-of_length, length, All,
  arith, u64,
}
use computer_networking.ByteStream
use computer_networking.ByteStream.Refine.{contents, peek-contents}
use computer_networking.TcpMessage.{TcpSenderMessage, sequence_length, max_payload_size}
use computer_networking.TcpSender.{
  TcpSender, Loop, goes_on, round, push_loop, push, start, usable_window, total_length,
}
use computer_networking.TcpSender.Inv.{IsValid, Chain, total_length-append}
use computer_networking.Wrapping.{Wrap32}
use computer_networking.TcpSender.Filling.{AtHead}
use computer_networking.TcpSender.Round.{HasSent, round-HasSent}

-- The stream bytes and the sequence numbers of a list of messages.
abbrev pub payloads : List TcpSenderMessage → List ℕ
payloads [] = []
payloads (m ∷ ms) = m.payload ++ payloads ms

abbrev pub lengths : List TcpSenderMessage → ℕ
lengths [] = 0
lengths (m ∷ ms) = sequence_length m + lengths ms

-- A message that may be sent: it takes up sequence numbers, and its payload is limited.
abbrev pub IsSegment : TcpSenderMessage → Type 0
IsSegment m = (0 < sequence_length m) × (length m.payload ≤ max_payload_size)

-- The messages with the absolute sequence numbers that they have if the first one has number i.
abbrev pub with_numbers : ℕ → List TcpSenderMessage → List (ℕ × TcpSenderMessage)
with_numbers i [] = []
with_numbers i (m ∷ ms) = (i, m) ∷ with_numbers (i + sequence_length m) ms

-- What the loop has done from `l` to `r`: it sent `ms`.
pub record HasRun (l r : Loop) (ms : List TcpSenderMessage) : Type 0 where
  pub head : AtHead r
  pub stopped : goes_on r ≡ false
  pub out : r.transmitted ≡ l.transmitted ++ ms
  pub window : r.temp_receive_window + lengths ms ≡ l.temp_receive_window
  pub room : r.sender.receive_window + lengths ms ≡ l.sender.receive_window
  pub flight : total_length r.sender.send_buffer ≡ total_length l.sender.send_buffer + lengths ms
  pub carried : contents l.sender.input ≡ payloads ms ++ contents r.sender.input
  pub segments : All IsSegment ms
  pub next : r.sender.abs_seqno ≡ l.sender.abs_seqno + lengths ms
  pub closed : r.sender.input.closed ≡ l.sender.input.closed
  pub same_isn : r.sender.isn ≡ l.sender.isn
  pub kept : r.sender.send_buffer ≡ l.sender.send_buffer ++ with_numbers l.sender.abs_seqno ms
  pub in_sequence :
      Chain l.sender.isn l.sender.abs_seqno (with_numbers l.sender.abs_seqno ms) r.sender.abs_seqno

run-more :
    {l m r : Loop} {x : TcpSenderMessage} {ms : List TcpSenderMessage}
    → HasSent l m x
    → HasRun m r ms
    → HasRun l r (x ∷ ms)
run-more {l} {m} {r} {x} {ms} h k = record {
  head = k.head;
  stopped = k.stopped;
  out = k.out ∙ ap (λ o. o ++ ms) h.out ∙ append_assoc l.transmitted (x ∷ []) ms;
  window = omega (arith, h.window, k.window);
  room = omega (arith, h.room, k.room);
  flight = omega (
    arith,
    k.flight,
    ap total_length h.kept,
    total_length-append l.sender.send_buffer l.sender.abs_seqno x,
  );
  carried =
      h.carried
      ∙ ap (◌++◌ x.payload) k.carried
      ∙ sym (append_assoc x.payload (payloads ms) (contents r.sender.input));
  segments = ((h.nonempty, h.limited), k.segments);
  next = omega (arith, h.next, k.next);
  closed = k.closed ∙ h.closed;
  same_isn = k.same_isn ∙ h.same_isn;
  kept =
      k.kept
      ∙ ap₂ ◌++◌ h.kept (ap (λ (i : ℕ). with_numbers i ms) h.next)
      ∙ append_assoc l.sender.send_buffer ((l.sender.abs_seqno, x) ∷ [])
          (with_numbers (l.sender.abs_seqno + sequence_length x) ms);
  in_sequence = (
    refl,
    h.stamped,
    h.nonempty,
    subst (λ (i : ℕ). Chain l.sender.isn i (with_numbers i ms) r.sender.abs_seqno) h.next
        (subst
          (λ (z : Wrap32).
            Chain z m.sender.abs_seqno (with_numbers m.sender.abs_seqno ms) r.sender.abs_seqno)
          h.same_isn k.in_sequence),
  );
}

run-none : {l : Loop} → AtHead l → goes_on l ≡ false → HasRun l l []
run-none {l} h e = record {
  head = h;
  stopped = e;
  out = sym (append-nil l.transmitted);
  window = omega arith;
  room = omega arith;
  flight = omega arith;
  carried = refl;
  segments = tt;
  next = omega arith;
  closed = refl;
  same_isn = refl;
  kept = sym (append-nil l.sender.send_buffer);
  in_sequence = refl;
}

push_loop-HasRun :
    (fuel : ℕ) (l : Loop)
    → AtHead l
    → l.temp_receive_window < fuel
    → (r : Loop) × (ms : List TcpSenderMessage) × (push_loop fuel l ≡ some r) × HasRun l r ms
unfolding push_loop
push_loop-HasRun zero l h f = absurd (omega arith)
push_loop-HasRun (suc fuel) l h f = elim (Bool-cases (goes_on l)) [
  | inr stop ↦ (l, [], rw stop, run-none h stop)
  | inl go ↦
      let (m, sent) = round-HasSent l h go in
      let (r, ms, e, ran) =
        push_loop-HasRun fuel (round l) sent.head (omega (arith, sent.window, sent.nonempty)) in
      (r, m ∷ ms, rw (go, e), run-more sent ran)
]

start-AtHead : {s : TcpSender} → IsValid s → s.abs_seqno + s.receive_window < u64 → AtHead (start s)
unfolding start usable_window
start-AtHead {s} v n = record {
  valid = v;
  fresh = refl;
  bytes = peek-contents v.input_valid;
  room = ground arith;
  to_open = λ e. ground (arith, v.unopened e);
  no_wrap = ground arith;
}

-- What `push` has done to a sender: it sent `ms`.
pub record HasPushed (s s' : TcpSender) (ms : List TcpSenderMessage) : Type 0 where
  pub valid : IsValid s'
  pub carried : contents s.input ≡ payloads ms ++ contents s'.input
  pub segments : All IsSegment ms
  pub next : s'.abs_seqno ≡ s.abs_seqno + lengths ms
  pub same_isn : s'.isn ≡ s.isn
  pub in_sequence : Chain s.isn s.abs_seqno (with_numbers s.abs_seqno ms) s'.abs_seqno
  pub kept : s'.send_buffer ≡ s.send_buffer ++ with_numbers s.abs_seqno ms
  pub room : s'.receive_window + lengths ms ≡ s.receive_window
  pub flight : total_length s'.send_buffer ≡ total_length s.send_buffer + lengths ms
  pub within : lengths ms ≤ usable_window s
  pub opened : s'.syn_set ≡ true
  pub maximal :
      (lengths ms ≡ usable_window s)
      ⊎ ((contents s'.input ≡ []) × ((s.input.closed ≡ false) ⊎ (s'.fin_set ≡ true)))

-- Why the loop stops.
stop-reason :
    (l : Loop)
    → AtHead l
    → goes_on l ≡ false
    → (l.sender.syn_set ≡ true)
      × ((l.temp_receive_window ≡ 0)
          ⊎ ((contents l.sender.input ≡ [])
              × ((l.sender.input.closed ≡ false) ⊎ (l.sender.fin_set ≡ true))))
unfolding goes_on ByteStream.is_closed
stop-reason l h e = ground (arith, nil-of_length l.stream_bytes)

maximal-of :
    (s : TcpSender) (r : Loop) (ms : List TcpSenderMessage)
    → HasRun (start s) r ms
    → (r.temp_receive_window ≡ 0)
      ⊎ ((contents r.sender.input ≡ [])
          × ((r.sender.input.closed ≡ false) ⊎ (r.sender.fin_set ≡ true)))
    → (lengths ms ≡ usable_window s)
      ⊎ ((contents r.sender.input ≡ []) × ((s.input.closed ≡ false) ⊎ (r.sender.fin_set ≡ true)))
unfolding start
maximal-of s r ms ran (inl z) = inl (omega (arith, ran.window))
maximal-of s r ms ran (inr (e, inl c)) = inr (e, inl (sym ran.closed ∙ c))
maximal-of s r ms ran (inr (e, inr f)) = inr (e, inr f)

-- On a valid sender with abs_seqno + receive_window below 2^64, `push` ends; it sends SYN, stream
-- bytes and FIN as segments of at most 1000 bytes, each with the wrapped form of its absolute
-- number, which is abs_seqno for the first one and then follows on without a gap; it takes exactly
-- their bytes off the stream, appends exactly these messages with their numbers to those kept for
-- retransmission, stays within the usable window, and stops only when that window is used up or
-- nothing is left to send; the sender stays valid.
pub push-HasPushed :
    {s : TcpSender}
    → IsValid s
    → s.abs_seqno + s.receive_window < u64
    → (s' : TcpSender) × (ms : List TcpSenderMessage) × (push s ≡ some (s', ms)) × HasPushed s s' ms
unfolding push start
push-HasPushed {s} v n =
    let (r, ms, e, ran) =
      push_loop-HasRun (suc (suc (usable_window s))) (start s) (start-AtHead v n) (omega arith) in
    let (begun, why) = stop-reason r ran.head ran.stopped in
    (
      r.sender,
      ms,
      rw e (ap (λ o. some (r.sender, o)) ran.out),
      record {
        valid = ran.head.valid;
        carried = ran.carried;
        segments = ran.segments;
        next = ran.next;
        same_isn = ran.same_isn;
        in_sequence = ran.in_sequence;
        kept = ran.kept;
        room = ran.room;
        flight = ran.flight;
        within = omega (arith, ran.window);
        opened = begun;
        maximal = maximal-of s r ms ran why;
      },
    )
