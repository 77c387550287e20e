-- ===== src/Reassembler/AnyOrder.antt =====
-- Substrings of a stream in any order, with any overlap and repetition, and reads between them: what the reader
-- gets are the bytes of the stream.
use computer_networking.Prelude.{
  All, drop-eq-drop-min, ℕ, ◌+◌, ◌-◌, ◌≤◌, ◌<◌, min, ◌≡◌, refl, sym, ap, ◌∙◌, Bool, Option, none,
  some, List, [], ◌∷◌, length, drop, arith, u64, ◌^◌,
}
use computer_networking.ByteStream
use computer_networking.ByteStream.{ByteStream}
use computer_networking.ByteStream.Inv.{IsValid, pop-IsValid, init-IsValid}
use computer_networking.ByteStream.Refine.{contents, length-contents, contents-pop}
use computer_networking.Reassembler
use computer_networking.Reassembler.{
  Segment, Reassembler, Work, init, store, append_rest, collect, deliver, is_empty, window_end,
  note_last, clamp_int, insert_within, insert, bind_work, with_work, deliver_some,
}
use computer_networking.Reassembler.Slices.{slice, slice-drop}
use computer_networking.Reassembler.Cache.{IsCache-weaken}
use computer_networking.Reassembler.Inv.{Reassembles}
use computer_networking.Reassembler.Insert.{insert-Reassembles}

-- A substring arrives, by its index and its length, or bytes are popped.
pub data Step : Type 0 where
  inserts : ℕ → ℕ → Bool → Step
  pops : ℕ → Step

abbrev pub IsStep : List ℕ → Step → Type 0
IsStep source (inserts first n is_last) = (0 < n) × (first + n ≤ length source)
IsStep source (pops k) = Unit

abbrev pub step : List ℕ → Step → Reassembler → Option Reassembler
step source (inserts first n is_last) r =
    Reassembler.insert first (slice source first (first + n)) is_last r
step source (pops k) r = some (record r { output = ByteStream.pop k r.output })

abbrev pub bind : Option Reassembler → (Reassembler → Option Reassembler) → Option Reassembler
bind none f = none
bind (some r) f = f r

abbrev pub run : List ℕ → List Step → Reassembler → Option Reassembler
run source [] r = some r
run source (s ∷ ss) r = bind (step source s r) (run source ss)

pop-counts :
    (k : ℕ) {s : ByteStream}
    → IsValid s
    → s.num_bytes_poped + s.buffer_size < u64
    → ((ByteStream.pop k s).num_bytes_poped ≡ s.num_bytes_poped + min k s.buffer_size)
      × ((ByteStream.pop k s).buffer_size ≡ s.buffer_size - min k s.buffer_size)
unfolding ByteStream.pop ByteStream.bytes_buffered
pop-counts k v h = (omega arith, omega arith)

pop-same :
    (k : ℕ) (s : ByteStream)
    → ((ByteStream.pop k s).num_bytes_pushed ≡ s.num_bytes_pushed)
      × ((ByteStream.pop k s).capacity ≡ s.capacity)
unfolding ByteStream.pop
pop-same k s = (refl, refl)

pop-Reassembles :
    (source : List ℕ) (r : Reassembler) (k : ℕ)
    → Reassembles source r
    → Reassembles source (record r { output = ByteStream.pop k r.output })
pop-Reassembles source r k v =
    let s = r.output in
    let t = ByteStream.pop k s in
    let (p, z) = pop-counts k v.valid (omega (arith, v.counted, v.within, v.short)) in
    let (q, c) = pop-same k s in
    let len = length-contents v.valid in
    record {
      valid = pop-IsValid k v.valid;
      room = omega (arith, c, v.room);
      short = omega (arith, c, v.short);
      held =
          contents-pop k v.valid
          ∙ sym (drop-eq-drop-min k (contents s))
          ∙ ap (drop (min k (length (contents s)))) v.held
          ∙ slice-drop source s.num_bytes_poped s.num_bytes_pushed (min k (length (contents s)))
              t.num_bytes_poped (omega (arith, p, len))
          ∙ ap (slice source t.num_bytes_poped) (sym q);
      counted = omega (arith, p, z, q, v.counted, v.valid.within);
      within = omega (arith, q, v.within);
      cache =
          IsCache-weaken source s.num_bytes_pushed t.num_bytes_pushed
            (s.num_bytes_pushed + (s.capacity - s.buffer_size))
            (t.num_bytes_pushed + (t.capacity - t.buffer_size)) r.cache (omega (arith, q))
            (omega (arith, q, c, z)) v.cache;
    }

step-Reassembles :
    (source : List ℕ) (s : Step) (r : Reassembler)
    → IsStep source s
    → Reassembles source r
    → (r' : Reassembler) × (step source s r ≡ some r') × Reassembles source r'
step-Reassembles source (inserts first n is_last) r (h, k) v =
    insert-Reassembles source r first n is_last v h k
step-Reassembles source (pops k) r h v =
    (record r { output = ByteStream.pop k r.output }, refl, pop-Reassembles source r k v)

pub run-Reassembles :
    (source : List ℕ) (ss : List Step) (r : Reassembler)
    → All (IsStep source) ss
    → Reassembles source r
    → (r' : Reassembler) × (run source ss r ≡ some r') × Reassembles source r'
run-Reassembles source [] r h v = (r, refl, v)
run-Reassembles source (s ∷ ss) r (h, hs) v =
    let (r1, e, v1) = step-Reassembles source s r h v in
    let (r2, f, v2) = run-Reassembles source ss r1 hs v1 in
    (r2, ap (λ (o : Option Reassembler). bind o (run source ss)) e ∙ f, v2)

pub init-Reassembles :
    (source : List ℕ) (capacity : ℕ)
    → 0 < capacity
    → length source + capacity < 2 ^ 31
    → Reassembles source (init (ByteStream.init capacity))
init-Reassembles source capacity h k = record {
  valid = init-IsValid capacity (omega arith);
  room = unfold ByteStream.init in h;
  short = unfold ByteStream.init in k;
  held = unfold ByteStream.init in refl;
  counted = unfold ByteStream.init in refl;
  within = unfold ByteStream.init in omega arith;
  cache = unfold ByteStream.init in omega arith;
}

-- A new reassembler, whose capacity is not 0 and is below 2^31 together with the length of the
-- source stream, never throws on substrings of the source, each not empty, however they are ordered,
-- repeated and overlapped and whatever is popped between them; and what its output then holds are
-- the bytes of the source from the number of bytes popped to the number of bytes pushed, which is at
-- most the length of the source.
pub run-in_order :
    (source : List ℕ) (capacity : ℕ) (steps : List Step)
    → 0 < capacity
    → length source + capacity < 2 ^ 31
    → All (IsStep source) steps
    → (r : Reassembler) × (run source steps (init (ByteStream.init capacity)) ≡ some r)
      × (contents r.output ≡ slice source r.output.num_bytes_poped r.output.num_bytes_pushed)
      × (r.output.num_bytes_pushed ≤ length source)
run-in_order source capacity steps h k hs =
    let (r, e, v) =
      run-Reassembles source steps (init (ByteStream.init capacity)) hs
        (init-Reassembles source capacity h k) in
    (r, e, v.held, v.within)
