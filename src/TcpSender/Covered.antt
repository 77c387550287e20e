-- ===== src/TcpSender/Covered.antt =====
-- Which messages an acknowledgment covers: the loop over the messages kept splits them there.
use computer_networking.Prelude.{
  ℕ, ◌+◌, ◌≤◌, ◌<◌, ◌≡◌, refl, ap, inl, inr, Bool-cases, List, [], ◌∷◌, ◌++◌, length, All, arith,
  u16, u64, add_w, leb,
}
use computer_networking.Wrapping.{Wrap32}
use computer_networking.TcpMessage.{TcpSenderMessage, sequence_length}
use computer_networking.TcpSender.{TcpSender, Acked, reopen, acknowledge, total_length}
use computer_networking.TcpSender.Inv.{Chain, Chain-total, oldest}

-- Is the whole message below the acknowledged number?
abbrev pub IsCovered : ℕ → ℕ × TcpSenderMessage → Type 0
IsCovered abs_ackno (i, m) = i + sequence_length m ≤ abs_ackno

-- The first message left, if any, is not wholly acknowledged.
abbrev pub IsPending : ℕ → List (ℕ × TcpSenderMessage) → Type 0
IsPending abs_ackno [] = Unit
IsPending abs_ackno ((i, m) ∷ rest) = abs_ackno < i + sequence_length m

-- How the loop over the messages splits them.
pub record IsSplit (isn : Wrap32) (i j abs_ackno : ℕ) (xs : List (ℕ × TcpSenderMessage))
    (a b : Acked) : Type 0 where
  pub front : List (ℕ × TcpSenderMessage)
  pub back : List (ℕ × TcpSenderMessage)
  pub split : xs ≡ front ++ back
  pub count : b.erase_count ≡ a.erase_count + length front
  pub covered : All (IsCovered abs_ackno) front
  pub pending : IsPending abs_ackno back
  pub chained : Chain isn (i + total_length front) back j
  pub window_word : b.window < u16
  pub unmoved : front ≡ [] → b ≡ a

reopen_lem :
    (w : ℕ) (m : TcpSenderMessage) (a : Acked)
    → w < u16
    → ((reopen w m a).window < u16) × ((reopen w m a).erase_count ≡ a.erase_count + 1)
unfolding reopen
reopen_lem w m a h = ground arith

Chain-at :
    (isn : Wrap32) {i k : ℕ} (xs : List (ℕ × TcpSenderMessage)) (j : ℕ)
    → i ≡ k
    → Chain isn i xs j
    → Chain isn k xs j
Chain-at isn xs j e c = rw (← e) c

IsSplit-none :
    (isn : Wrap32) (i j k : ℕ) (xs : List (ℕ × TcpSenderMessage)) (a : Acked)
    → Chain isn i xs j
    → a.window < u16
    → IsPending k xs
    → IsSplit isn i j k xs a a
IsSplit-none isn i j k xs a c h p = record {
  front = [];
  back = xs;
  split = refl;
  count = omega arith;
  covered = tt;
  pending = p;
  chained = Chain-at isn xs j (omega arith) c;
  window_word = h;
  unmoved = λ _. refl;
}

IsSplit-more :
    (isn : Wrap32) (i j k w : ℕ) (m : TcpSenderMessage) (xs : List (ℕ × TcpSenderMessage))
    (a : Acked) {b : Acked}
    → w < u16
    → IsCovered k (i, m)
    → IsSplit isn (i + sequence_length m) j k xs (reopen w m a) b
    → IsSplit isn i j k ((i, m) ∷ xs) a b
IsSplit-more isn i j k w m xs a hw v s = record {
  front = (i, m) ∷ s.front;
  back = s.back;
  split = ap (◌∷◌ (i, m)) s.split;
  count = omega (arith, s.count, reopen_lem w m a hw);
  covered = (v, s.covered);
  pending = s.pending;
  chained = Chain-at isn s.back j (omega arith) s.chained;
  window_word = s.window_word;
  unmoved = λ e. cc;
}

pub acknowledge-IsSplit :
    (isn : Wrap32) (i j k w : ℕ) (xs : List (ℕ × TcpSenderMessage)) (a : Acked)
    → Chain isn i xs j
    → j < u64
    → a.window < u16
    → w < u16
    → IsSplit isn i j k xs a (acknowledge k w xs a)
unfolding acknowledge
acknowledge-IsSplit isn i j k w [] a c n h hw = IsSplit-none isn i j k [] a c h tt
acknowledge-IsSplit isn i j k w ((x, m) ∷ rest) a (c0, c1, c2, c3) n h hw =
    let t = Chain-total isn (i + sequence_length m) j rest c3 in
    elim (Bool-cases (leb (add_w u64 x (sequence_length m)) k)) [
      | inr e ↦ rw e (IsSplit-none isn i j k ((x, m) ∷ rest) a (c0, c1, c2, c3) h (ground arith))
      | inl e ↦ rw e (
          rw c0 (
            IsSplit-more isn i j k w m rest a hw (ground arith) (
              acknowledge-IsSplit isn (i + sequence_length m) j k w rest (reopen w m a) c3 n
                (reopen_lem w m a hw).0 hw)))
    ]

-- What an acknowledgment does to the messages kept: a prefix is dropped, each of whose messages is
-- wholly acknowledged, and the next one is not.
pub record HasAcked (abs_ackno : ℕ) (s s' : TcpSender) : Type 0 where
  pub front : List (ℕ × TcpSenderMessage)
  pub split : s.send_buffer ≡ front ++ s'.send_buffer
  pub covered : All (IsCovered abs_ackno) front
  pub pending : IsPending abs_ackno s'.send_buffer
  pub advanced : oldest s' ≡ oldest s + total_length front

pub total_length-append :
    (xs ys : List (ℕ × TcpSenderMessage))
    → total_length (xs ++ ys) ≡ total_length xs + total_length ys
total_length-append [] ys = omega arith
total_length-append ((i, m) ∷ xs) ys = omega (arith, total_length-append xs ys)

pub Chain-empty :
    (isn : Wrap32) (i j : ℕ) (xs : List (ℕ × TcpSenderMessage))
    → Chain isn i xs j
    → total_length xs ≡ 0
    → xs ≡ []
Chain-empty isn i j [] c h = refl
Chain-empty isn i j ((k, m) ∷ xs) (c0, c1, c2, c3) h = absurd (omega arith)

pub nil-of_append : (xs ys : List (ℕ × TcpSenderMessage)) → [] ≡ xs ++ ys → xs ≡ []
nil-of_append [] ys e = refl
nil-of_append (x ∷ xs) ys e = cc
