-- ===== src/TcpSender/Tick.antt =====
-- `TCPSender::tick`: when the oldest outstanding message is sent again, and exponential backoff.
use computer_networking.Prelude.{
  ℕ, zero, suc, ◌+◌, ◌*◌, ◌^◌, ◌<◌, ◌≡◌, refl, sym, ap, ap₂, false, List, [], ◌∷◌, ◌++◌, arith, u64,
}
use native.Mathlib.Nat.{pow-suc, one-le-pow, le-mul_of_pos_right}
use computer_networking.TcpMessage.{TcpSenderMessage}
use computer_networking.TcpSender.{TcpSender, tick, tick_first, tick_buffer}

-- The sender and what it has sent after each of some ticks.
pub ticks : List ℕ → TcpSender → TcpSender × List TcpSenderMessage
ticks [] s = (s, [])
ticks (t ∷ ts) s = let (s', ms) = tick t s in let (s'', ms') = ticks ts s' in (s'', ms ++ ms')

abbrev pub sum : List ℕ → ℕ
sum [] = 0
sum (t ∷ ts) = t + sum ts

-- `k` waits, each as long as the timeout that then stands.
pub timeouts : ℕ → TcpSender → TcpSender × List TcpSenderMessage
timeouts zero s = (s, [])
timeouts (suc k) s =
    let (s', ms) = tick s.current_rto s in let (s'', ms') = timeouts k s' in (s'', ms ++ ms')

pub copies : ℕ → TcpSenderMessage → List TcpSenderMessage
copies zero m = []
copies (suc k) m = m ∷ copies k m

-- A wait that is shorter than what is left of the timeout sends nothing and only moves the timer.
tick-early :
    (t i : ℕ) (m : TcpSenderMessage) (rest : List (ℕ × TcpSenderMessage)) (s : TcpSender)
    → s.send_buffer ≡ (i, m) ∷ rest
    → s.timer + t < s.current_rto
    → s.current_rto < u64
    → tick t s ≡ (record s { timer = s.timer + t }, [])
unfolding tick tick_buffer tick_first
tick-early t i m rest s e h r = ground arith

-- With a message outstanding and a timeout below 2^64, as long as the timer and the sum of the ticks
-- stay below the timeout, however the time is divided, nothing is sent again and the timer has moved
-- by the sum.
pub ticks-early :
    (ts : List ℕ) (i : ℕ) (m : TcpSenderMessage) (rest : List (ℕ × TcpSenderMessage))
    (s : TcpSender)
    → s.send_buffer ≡ (i, m) ∷ rest
    → s.timer + sum ts < s.current_rto
    → s.current_rto < u64
    → ticks ts s ≡ (record s { timer = s.timer + sum ts }, [])
unfolding ticks
ticks-early [] i m rest s e h r = ap (λ t. (record s { timer = t }, [])) (omega arith)
ticks-early (t ∷ ts) i m rest s e h r =
    let later = record s { timer = s.timer + t } in
    rw (tick-early t i m rest s e (omega arith) r) (
      rw (ticks-early ts i m rest later e (omega arith) r)
        (ap (λ n. (record s { timer = n }, [])) (omega arith)))

-- A tick that reaches the timeout sends the oldest message again and doubles the timeout.
tick-late :
    (i : ℕ) (m : TcpSenderMessage) (rest : List (ℕ × TcpSenderMessage)) (s : TcpSender)
    → s.send_buffer ≡ (i, m) ∷ rest
    → s.receiver_full ≡ false
    → s.timer + s.current_rto < u64
    → 2 * s.current_rto < u64
    → s.num_consecutive_retran + 1 < u64
    → tick s.current_rto s ≡ (
      record s {
        num_consecutive_retran = s.num_consecutive_retran + 1;
        current_rto = 2 * s.current_rto;
        timer = 0;
      },
      m ∷ [],
    )
unfolding tick tick_buffer tick_first
tick-late i m rest s e f h r n = ground arith

-- While the receiver has room and nothing is acknowledged, k timeouts in a row, from a timer at 0
-- and with the doubled timeout and the count below 2^64, send the oldest message k times, count k
-- retransmissions, and multiply the timeout by 2^k.
pub timeouts-backoff :
    (k i : ℕ) (m : TcpSenderMessage) (rest : List (ℕ × TcpSenderMessage)) (s : TcpSender)
    → s.send_buffer ≡ (i, m) ∷ rest
    → s.receiver_full ≡ false
    → s.timer ≡ 0
    → s.current_rto * 2 ^ k < u64
    → s.num_consecutive_retran + k < u64
    → timeouts k s ≡ (
      record s {
        num_consecutive_retran = s.num_consecutive_retran + k;
        current_rto = s.current_rto * 2 ^ k;
        timer = 0;
      },
      copies k m,
    )
unfolding timeouts copies
timeouts-backoff zero i m rest s e f t h n = ground arith
timeouts-backoff (suc k) i m rest s e f t h n =
    let later = record s {
      num_consecutive_retran = s.num_consecutive_retran + 1;
      current_rto = 2 * s.current_rto;
      timer = 0;
    } in
    let p : s.current_rto * 2 ^ suc k ≡ 2 * s.current_rto * 2 ^ k =
      omega (arith, ap (λ (x : ℕ). s.current_rto * x) (pow-suc 2 k)) in
    let q = le-mul_of_pos_right (2 * s.current_rto) (one-le-pow k 2 (omega arith)) in
    rw (tick-late i m rest s e f (omega arith) (omega arith) (omega arith)) (
      rw (timeouts-backoff k i m rest later e f refl (rw p at h) (omega arith)) (
        ap₂
          (λ a b.
            (record s { num_consecutive_retran = a; current_rto = b; timer = 0 }, m ∷ copies k m))
          (omega arith) (sym p)))
