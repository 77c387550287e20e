-- ===== src/StreamCopy/Reads.antt =====
-- What a copy in both directions conserves, over its cancellations and its reads.
use computer_networking.Prelude.{
  ℕ, zero, suc, ◌<◌, ◌≡◌, refl, sym, ap, ◌∙◌, Bool, true, false, List, ◌++◌, append_assoc, arith,
}
use computer_networking.ByteStream
use computer_networking.ByteStream.{ByteStream}
use computer_networking.ByteStream.Inv.{IsValid, close-IsValid, set_error-IsValid}
use computer_networking.ByteStream.Refine.{contents}
use computer_networking.EventLoop.{FdRule}
use computer_networking.StreamCopy.{
  Kernel, StreamCopy, Moved, read_input, read_socket, and_then, close_outbound, close_inbound,
  set_errors, can_fill,
}
use computer_networking.StreamCopy.Moves.{Fills, Drains, fill_stream-Fills}

-- One direction: what went in came out or is held.
pub record Conserves (stream : ByteStream) (taken given : List ℕ) : Type 0 where
  pub valid : IsValid stream
  pub all : taken ≡ given ++ contents stream

Conserves-Fills :
    {s : ByteStream} {m : Moved} {taken given : List ℕ}
    → Conserves s taken given
    → Fills s m
    → Conserves m.stream (taken ++ m.bytes) given
Conserves-Fills {s} {m} {taken} {given} c f = record {
  valid = f.valid;
  all =
      ap (λ (xs : List ℕ). xs ++ m.bytes) c.all
      ∙ append_assoc given (contents s) m.bytes
      ∙ ap (λ (xs : List ℕ). given ++ xs) (sym f.joined);
}

pub Conserves-Drains :
    {s : ByteStream} {m : Moved} {taken given : List ℕ}
    → Conserves s taken given
    → Drains s m
    → Conserves m.stream taken (given ++ m.bytes)
Conserves-Drains {s} {m} {taken} {given} c d = record {
  valid = d.valid;
  all =
      c.all
      ∙ ap (λ (xs : List ℕ). given ++ xs) d.split
      ∙ sym (append_assoc given m.bytes (contents m.stream));
}

Conserves-close :
    {s : ByteStream} {taken given : List ℕ}
    → Conserves s taken given
    → Conserves (ByteStream.close s) taken given
unfolding ByteStream.close
Conserves-close c = record { valid = close-IsValid c.valid; all = c.all }

Conserves-set_error :
    {s : ByteStream} {taken given : List ℕ}
    → Conserves s taken given
    → Conserves (ByteStream.set_error s) taken given
unfolding ByteStream.set_error
Conserves-set_error c = record { valid = set_error-IsValid c.valid; all = c.all }

-- Both directions.
pub record BothConserve (s : StreamCopy) : Type 0 where
  pub outward : Conserves s.outbound s.from_input s.to_socket
  pub inward : Conserves s.inbound s.from_socket s.to_output

-- A stream is read into only where it has room: the rules of categories 0 and 2.
abbrev Room : ℕ → StreamCopy → Type 0
Room zero s = 0 < ByteStream.available_capacity s.outbound
Room (suc (suc zero)) s = 0 < ByteStream.available_capacity s.inbound
Room (suc zero) s = Unit
Room (suc (suc (suc n))) s = Unit

abbrev pub HasRoom : FdRule StreamCopy → StreamCopy → Type 0
HasRoom r s = Room r.base.category_id s

Room-same :
    (n : ℕ) (s s' : StreamCopy)
    → ByteStream.available_capacity s'.outbound ≡ ByteStream.available_capacity s.outbound
    → ByteStream.available_capacity s'.inbound ≡ ByteStream.available_capacity s.inbound
    → Room n s
    → Room n s'
Room-same zero s s' e f h = omega (arith, e)
Room-same (suc zero) s s' e f h = tt
Room-same (suc (suc zero)) s s' e f h = omega (arith, f)
Room-same (suc (suc (suc n))) s s' e f h = tt

pub close_outbound-ready :
    (q : FdRule StreamCopy) (s : StreamCopy) → HasRoom q s → HasRoom q (close_outbound s).0
unfolding close_outbound ByteStream.close ByteStream.available_capacity
close_outbound-ready q s h = Room-same q.base.category_id s (close_outbound s).0 refl refl h

pub close_inbound-ready :
    (q : FdRule StreamCopy) (s : StreamCopy) → HasRoom q s → HasRoom q (close_inbound s).0
unfolding close_inbound ByteStream.close ByteStream.available_capacity
close_inbound-ready q s h = Room-same q.base.category_id s (close_inbound s).0 refl refl h

pub set_errors-ready :
    (q : FdRule StreamCopy) (s : StreamCopy) → HasRoom q s → HasRoom q (set_errors s).0
unfolding set_errors ByteStream.set_error ByteStream.available_capacity
set_errors-ready q s h = Room-same q.base.category_id s (set_errors s).0 refl refl h

pub close_outbound-BothConserve :
    (s : StreamCopy) → BothConserve s → BothConserve (close_outbound s).0
unfolding close_outbound
close_outbound-BothConserve s c = record { outward = Conserves-close c.outward; inward = c.inward }

pub close_inbound-BothConserve :
    (s : StreamCopy) → BothConserve s → BothConserve (close_inbound s).0
unfolding close_inbound
close_inbound-BothConserve s c = record { outward = c.outward; inward = Conserves-close c.inward }

pub set_errors-BothConserve : (s : StreamCopy) → BothConserve s → BothConserve (set_errors s).0
unfolding set_errors
set_errors-BothConserve s c = record {
  outward = Conserves-set_error c.outward;
  inward = Conserves-set_error c.inward;
}

pub can_fill-room :
    (stream other : ByteStream)
    → can_fill stream other ≡ true
    → 0 < ByteStream.available_capacity stream
can_fill-room stream other h = ground arith

pub read_input-BothConserve :
    (k : Kernel) (s : StreamCopy)
    → BothConserve s
    → 0 < ByteStream.available_capacity s.outbound
    → BothConserve (read_input k s).0
unfolding read_input
read_input-BothConserve k s c h = record {
  outward =
      Conserves-Fills c.outward
        (fill_stream-Fills (k.reads s.calls) s.input s.outbound c.outward.valid h);
  inward = c.inward;
}

pub read_socket-BothConserve :
    (k : Kernel) (s : StreamCopy)
    → BothConserve s
    → 0 < ByteStream.available_capacity s.inbound
    → BothConserve (read_socket k s).0
unfolding read_socket
read_socket-BothConserve k s c h = record {
  outward = c.outward;
  inward =
      Conserves-Fills c.inward
        (fill_stream-Fills (k.reads s.calls) s.socket s.inbound c.inward.valid h);
}

pub and_then-BothConserve :
    (o : StreamCopy × Bool) (f : StreamCopy → StreamCopy × Bool)
    → BothConserve o.0
    → BothConserve (f o.0).0
    → BothConserve (and_then o f).0
and_then-BothConserve (s, true) f c d = d
and_then-BothConserve (s, false) f c d = c
