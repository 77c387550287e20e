-- ===== src/ByteStream/Fifo.antt =====
-- What src/byte_stream.hh promises of a stream: a bounded queue of bytes that can be closed.
use computer_networking.Prelude.{ℕ, ◌-◌, Bool, true, ◌&&◌, List, ◌++◌, length, take, drop, ◌==◌}

pub record Fifo : Type 0 where
  pub capacity : ℕ
  pub held : List ℕ
  pub closed : Bool
  pub error : Bool

-- The calls that change a stream, from either side.
pub data Call : Type 0 where
  pushes : List ℕ → Call
  pops : ℕ → Call
  closes fails : Call

-- As many bytes as fit.
abbrev pub accepts : Fifo → List ℕ → List ℕ
accepts q bytes = take (q.capacity - length q.held) bytes

abbrev pub step : Fifo → Call → Fifo
step q (pushes bytes) = record q { held = q.held ++ accepts q bytes }
step q (pops n) = record q { held = drop n q.held }
step q closes = record q { closed = true }
step q fails = record q { error = true }

abbrev pub finished : Fifo → Bool
finished q = q.closed && (length q.held == 0)
