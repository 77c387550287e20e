-- ===== src/Reassembler/Bounds.antt =====
-- How many bytes a reassembler holds.
use computer_networking.Prelude.{
  All, ℕ, ◌+◌, ◌-◌, ◌≤◌, ◌<◌, ◌≡◌, refl, sym, ap, ◌∙◌, Bool, true, false, Option, none, some, List,
  [], ◌∷◌, inl, inr, Bool-cases, length, if◌then◌else◌, arith, u64, ◌^◌, ◌&&◌, ◌||◌, leb, ltb,
  add_w, sub_w,
}
use computer_networking.ByteStream
use computer_networking.ByteStream.{ByteStream}
use computer_networking.Reassembler.{
  Segment, Reassembler, Work, init, collect, deliver, is_empty, window_end, note_last, clamp_int,
  insert_within, insert, with_work, deliver_some, bytes_in, count_bytes_pending,
}
use computer_networking.Reassembler.Slices.{length-slice}
use computer_networking.Reassembler.Cache.{IsCache, IsCache-le}
use computer_networking.Reassembler.AnyOrder.{
  Step, inserts, pops, IsStep, step, bind, run, run-Reassembles, init-Reassembles,
}

-- Segments that are apart hold no more bytes than there are indices.
bytes_in-le :
    (source : List ℕ) (lo hi : ℕ) (ss : List Segment)
    → IsCache source lo hi ss
    → hi < u64
    → bytes_in ss ≤ hi - lo
unfolding bytes_in
bytes_in-le source lo hi [] h k = omega arith
bytes_in-le source lo hi (s ∷ ss) (h, p, hs) k =
    let len : length s.bytes ≡ s.last + 1 - s.start =
      ap length p.right ∙ length-slice source s.start (s.last + 1) (omega (arith, p.within)) in
    omega (
      arith,
      len,
      bytes_in-le source (s.last + 1) hi ss hs k,
      IsCache-le source (s.last + 1) hi ss hs,
      p.ordered,
    )

-- No operation changes the capacity.
capacity-push : (bytes : List ℕ) (s : ByteStream) → (ByteStream.push bytes s).capacity ≡ s.capacity
unfolding ByteStream.push ByteStream.compact ByteStream.append
capacity-push bytes s = ground arith

capacity-if :
    (b : Bool) (s t : ByteStream)
    → s.capacity ≡ t.capacity
    → (if b then s else t).capacity ≡ t.capacity
capacity-if true s t h = h
capacity-if false s t h = refl

capacity-deliver : (n : ℕ) (r : Reassembler) → (deliver n r).output.capacity ≡ r.output.capacity
unfolding deliver ByteStream.close
capacity-deliver n r =
    let (bytes, next, rest) = collect n r.cache in
    let pushed = if is_empty bytes then r.output else ByteStream.push bytes r.output in
    capacity-if (r.finish && is_empty rest && leb r.finish_set next) (ByteStream.close pushed)
      pushed refl
    ∙ elim (Bool-cases (is_empty bytes)) [
      | inl e ↦ rw e refl
      | inr e ↦ rw e (capacity-push bytes r.output)
    ]

capacity-deliver_some :
    (n : ℕ) (r r' : Reassembler) (o : Option Work)
    → deliver_some n (with_work r o) ≡ some r'
    → r'.output.capacity ≡ r.output.capacity
capacity-deliver_some n r r' none h = absurd cc
capacity-deliver_some n r r' (some w) h =
    let e = capacity-deliver n (record r { cache = w.cache }) in cc

capacity-note_last :
    (first size : ℕ) (is_last : Bool) (r : Reassembler)
    → (note_last first size is_last r).output.capacity ≡ r.output.capacity
unfolding note_last
capacity-note_last first size is_last r =
    elim (Bool-cases (
      is_last
      && leb (clamp_int (sub_w u64 (add_w u64 first size) 1)) (clamp_int (window_end r.output)))) [
        | inl e ↦ rw e refl
        | inr e ↦ rw e refl
      ]

capacity-insert :
    (first : ℕ) (bytes : List ℕ) (is_last : Bool) (r r' : Reassembler)
    → insert first bytes is_last r ≡ some r'
    → r'.output.capacity ≡ r.output.capacity
unfolding insert insert_within
capacity-insert first bytes is_last r r' h =
    let r1 = note_last first (length bytes) is_last r in
    let same = capacity-note_last first (length bytes) is_last r in
    elim (Bool-cases (
      ltb (window_end r.output) first
      || ltb (add_w u64 (length bytes) first) (ByteStream.bytes_pushed r.output))) [
        | inl e ↦ (let h' : some r1 ≡ some r' = rw e at h in cc)
        | inr e ↦ capacity-deliver_some _ r1 r' _ (rw e at h) ∙ same
      ]

capacity-step :
    (source : List ℕ) (s : Step) (r r' : Reassembler)
    → step source s r ≡ some r'
    → r'.output.capacity ≡ r.output.capacity
unfolding ByteStream.pop
capacity-step source (inserts first n is_last) r r' h = capacity-insert first _ is_last r r' h
capacity-step source (pops k) r r' h = sym (ap (λ (o : Option Reassembler). capacity_of o) h)
  where
    capacity_of : Option Reassembler → ℕ
    capacity_of none = 0
    capacity_of (some q) = q.output.capacity

some_of-bind :
    (o : Option Reassembler) (f : Reassembler → Option Reassembler) (r' : Reassembler)
    → bind o f ≡ some r'
    → (r : Reassembler) × (o ≡ some r) × (f r ≡ some r')
some_of-bind none f r' h = absurd cc
some_of-bind (some r) f r' h = (r, refl, h)

capacity-run :
    (source : List ℕ) (ss : List Step) (r r' : Reassembler)
    → run source ss r ≡ some r'
    → r'.output.capacity ≡ r.output.capacity
capacity-run source [] r r' h = cc
capacity-run source (s ∷ ss) r r' h =
    let (r1, e, f) = some_of-bind (step source s r) (run source ss) r' h in
    capacity-run source ss r1 r' f ∙ capacity-step source s r r1 e

-- A new reassembler, whose capacity is not 0 and is below 2^31 together with the length of the
-- source stream, never holds more bytes than its capacity, those that wait for earlier ones and
-- those in the output together, after any substrings of the source, each not empty, and any pops, in
-- any order.
pub run-pending_bound :
    (source : List ℕ) (capacity : ℕ) (steps : List Step)
    → 0 < capacity
    → length source + capacity < 2 ^ 31
    → All (IsStep source) steps
    → (r : Reassembler) × (run source steps (init (ByteStream.init capacity)) ≡ some r)
      × (count_bytes_pending r + ByteStream.bytes_buffered r.output ≤ capacity)
unfolding count_bytes_pending ByteStream.bytes_buffered
run-pending_bound source capacity steps h k hs =
    let r0 = init (ByteStream.init capacity) in
    let (r, e, v) = run-Reassembles source steps r0 hs (init-Reassembles source capacity h k) in
    let lo = r.output.num_bytes_pushed in
    let hi = lo + (r.output.capacity - r.output.buffer_size) in
    let same : r.output.capacity ≡ capacity =
      capacity-run source steps r0 r e ∙ unfold ByteStream.init in refl in
    (
      r,
      e,
      omega (
        arith,
        same,
        bytes_in-le source lo hi r.cache v.cache (omega (arith, v.within, v.short)),
        v.valid.within,
      ),
    )
