-- ===== src/TcpSender/Inv.antt =====
-- The invariant of `TCPSender`: what it keeps for retransmission is the unacknowledged end of a
-- gapless numbering of SYN, stream bytes and FIN.
use computer_networking.Prelude.{
  ℕ, ◌+◌, ◌-◌, ◌^◌, ◌≤◌, ◌<◌, ◌≡◌, refl, sym, ap, ◌∙◌, true, false, List, [], ◌∷◌, ◌++◌, arith,
  to_num, u16,
}
use computer_networking.Wrapping.{Wrap32, IsWrap32, wrap}
use computer_networking.ByteStream
use computer_networking.ByteStream.Inv
use computer_networking.TcpMessage.{TcpSenderMessage, sequence_length}
use computer_networking.TcpSender.{TcpSender, init, total_length}

-- Messages that follow one another without a gap from absolute number `i` to `j`; none is empty, and
-- each carries the wrapped form of its number.
abbrev pub Chain : Wrap32 → ℕ → List (ℕ × TcpSenderMessage) → ℕ → Type 0
Chain isn i [] j = i ≡ j
Chain isn i ((k, m) ∷ rest) j =
    (k ≡ i)
    × (m.seqno ≡ wrap i isn)
    × (0 < sequence_length m)
    × Chain isn (i + sequence_length m) rest j

-- The number of the oldest byte that is not acknowledged.
abbrev pub oldest : TcpSender → ℕ
oldest s = s.abs_seqno - total_length s.send_buffer

pub record IsValid (s : TcpSender) : Type 0 where
  pub input_valid : ByteStream.Inv.IsValid s.input
  pub isn_word : IsWrap32 s.isn
  pub window_word : s.receive_window < u16
  pub outstanding : total_length s.send_buffer ≤ s.abs_seqno
  pub chained : Chain s.isn (oldest s) s.send_buffer s.abs_seqno
  pub numbered : s.abs_seqno ≡ to_num s.syn_set + s.input.num_bytes_poped + to_num s.fin_set
  pub next_seqno : s.syn_set ≡ true → s.seqno ≡ wrap s.abs_seqno s.isn
  pub unopened :
      s.syn_set ≡ false
      → (s.fin_set ≡ false)
        × (s.input.num_bytes_poped ≡ 0)
        × (0 < s.receive_window)
        × (s.receive_window ≡ s.max_receive_window)
  pub ended : s.fin_set ≡ true → (s.input.closed ≡ true) × (s.input.buffer_size ≡ 0)

pub Chain-append :
    (isn : Wrap32) (i j k : ℕ) (xs : List (ℕ × TcpSenderMessage)) (m : TcpSenderMessage)
    → Chain isn i xs j
    → m.seqno ≡ wrap j isn
    → 0 < sequence_length m
    → j + sequence_length m ≡ k
    → Chain isn i (xs ++ (j, m) ∷ []) k
Chain-append isn i j k [] m c e h n = (sym c, e ∙ ap (λ x. wrap x isn) (sym c), h, omega arith)
Chain-append isn i j k ((a, b) ∷ rest) m (c0, c1, c2, c3) e h n =
    (c0, c1, c2, Chain-append isn (i + sequence_length b) j k rest m c3 e h n)

pub total_length-append :
    (xs : List (ℕ × TcpSenderMessage)) (i : ℕ) (m : TcpSenderMessage)
    → total_length (xs ++ (i, m) ∷ []) ≡ total_length xs + sequence_length m
total_length-append [] i m = omega arith
total_length-append ((a, b) ∷ rest) i m = omega (arith, total_length-append rest i m)

pub Chain-total :
    (isn : Wrap32) (i j : ℕ) (xs : List (ℕ × TcpSenderMessage))
    → Chain isn i xs j
    → i + total_length xs ≡ j
Chain-total isn i j [] c = omega arith
Chain-total isn i j ((a, b) ∷ rest) (c0, c1, c2, c3) =
    omega (arith, Chain-total isn (i + sequence_length b) j rest c3)

-- A sender that is made over a fresh stream is valid.
pub init-IsValid :
    (capacity : ℕ) (isn : Wrap32) (initial_rto_ms : ℕ)
    → capacity < 2 ^ 62
    → IsWrap32 isn
    → IsValid (init (ByteStream.init capacity) isn initial_rto_ms)
unfolding init ByteStream.init
init-IsValid capacity isn rto h w = record {
  input_valid = ground arith;
  isn_word = w;
  window_word = omega arith;
  outstanding = omega arith;
  chained = omega arith;
  numbered = omega arith;
  next_seqno = λ e. cc;
  unopened = λ e. (refl, refl, omega arith, refl);
  ended = λ e. cc;
}
