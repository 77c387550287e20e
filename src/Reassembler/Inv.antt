-- ===== src/Reassembler/Inv.antt =====
-- The invariant of a reassembler of a stream, and the end of `insert`.
use computer_networking.Prelude.{
  ℕ, ◌+◌, ◌-◌, ◌≤◌, ◌<◌, ◌≡◌, refl, sym, ap, ap₂, ◌∙◌, subst, Bool, true, false, ◌&&◌, List, [],
  ◌++◌, inl, inr, Bool-cases, append-nil, length, leb, take-of_le, nil-of_length, ==→eq,
  if◌then◌else◌, arith, u64, ◌^◌,
}
use computer_networking.ByteStream
use computer_networking.ByteStream.{ByteStream}
use computer_networking.ByteStream.Inv.{IsValid, push-IsValid, close-IsValid}
use computer_networking.ByteStream.Refine.{contents, length-contents, contents-push}
use computer_networking.Reassembler.{Segment, Reassembler, collect, deliver, is_empty}
use computer_networking.Reassembler.Slices.{slice, length-slice, slice-append}
use computer_networking.Reassembler.Cache.{IsCache, IsCache-le, IsCache-weaken}
use computer_networking.Reassembler.Delivered.{IsCollected, collect-IsCollected}

-- A stream that has had some more bytes.
record Pushed (s t : ByteStream) (bytes : List ℕ) : Type 0 where
  valid : IsValid t
  capacity : t.capacity ≡ s.capacity
  popped : t.num_bytes_poped ≡ s.num_bytes_poped
  size : t.buffer_size ≡ s.buffer_size + length bytes
  pushed : t.num_bytes_pushed ≡ s.num_bytes_pushed + length bytes
  held : contents t ≡ contents s ++ bytes

Pushed-push :
    (s : ByteStream) (bytes : List ℕ)
    → IsValid s
    → length bytes ≤ s.capacity - s.buffer_size
    → s.num_bytes_pushed + length bytes < u64
    → Pushed s (ByteStream.push bytes s) bytes
Pushed-push s bytes v h k = record {
  valid = push-IsValid bytes v;
  capacity = unfold ByteStream.push ByteStream.compact ByteStream.append in ground arith;
  popped = unfold ByteStream.push ByteStream.compact ByteStream.append in ground arith;
  size =
      unfold ByteStream.push ByteStream.compact ByteStream.append ByteStream.available_capacity in
      ground arith;
  pushed =
      unfold ByteStream.push ByteStream.compact ByteStream.append ByteStream.available_capacity in
      ground arith;
  held =
      contents-push bytes v
      ∙ ap (λ (xs : List ℕ). contents s ++ xs)
          (take-of_le (s.capacity - length (contents s)) bytes (omega (arith, length-contents v)));
}

Pushed-none : (s : ByteStream) (bytes : List ℕ) → IsValid s → bytes ≡ [] → Pushed s s bytes
Pushed-none s bytes v h =
    let e = ap length h in
    record {
      valid = v;
      capacity = refl;
      popped = refl;
      size = omega arith;
      pushed = omega arith;
      held = sym (append-nil (contents s)) ∙ ap (λ (xs : List ℕ). contents s ++ xs) (sym h);
    }

Pushed-close :
    (s t : ByteStream) (bytes : List ℕ) (b : Bool)
    → Pushed s t bytes
    → Pushed s (if b then ByteStream.close t else t) bytes
unfolding ByteStream.close
Pushed-close s t bytes false p = p
Pushed-close s t bytes true p = record {
  valid = close-IsValid p.valid;
  capacity = p.capacity;
  popped = p.popped;
  size = p.size;
  pushed = p.pushed;
  held = p.held;
}

-- The reassembler of a stream: its output holds what comes after the bytes popped, and its cache stretches of what
-- comes later and fits.
pub record Reassembles (source : List ℕ) (r : Reassembler) : Type 0 where
  pub valid : IsValid r.output
  pub room : 0 < r.output.capacity
  pub short : length source + r.output.capacity < 2 ^ 31
  pub held : contents r.output ≡ slice source r.output.num_bytes_poped r.output.num_bytes_pushed
  pub counted : r.output.num_bytes_poped + r.output.buffer_size ≡ r.output.num_bytes_pushed
  pub within : r.output.num_bytes_pushed ≤ length source
  pub cache :
      IsCache source r.output.num_bytes_pushed
        (r.output.num_bytes_pushed + (r.output.capacity - r.output.buffer_size))
        r.cache

Reassembles-Pushed :
    (source : List ℕ) (r r' : Reassembler) (bytes : List ℕ) (next : ℕ)
    → Reassembles source r
    → Pushed r.output r'.output bytes
    → bytes ≡ slice source r.output.num_bytes_pushed next
    → r.output.num_bytes_pushed ≤ next
    → next ≤ length source
    → IsCache source next
        (r.output.num_bytes_pushed + (r.output.capacity - r.output.buffer_size))
        r'.cache
    → Reassembles source r'
Reassembles-Pushed source r r' bytes next v p e f w c =
    let len : length bytes ≡ next - r.output.num_bytes_pushed =
      ap length e ∙ length-slice source r.output.num_bytes_pushed next w in
    let to : r'.output.num_bytes_pushed ≡ next = p.pushed ∙ omega arith in
    let room_for =
      IsCache-le source next
        (r.output.num_bytes_pushed + (r.output.capacity - r.output.buffer_size)) r'.cache c in
    record {
      valid = p.valid;
      room = omega (arith, p.capacity, v.room);
      short = omega (arith, p.capacity, v.short);
      held =
          p.held
          ∙ ap₂ ◌++◌ v.held e
          ∙ slice-append source r.output.num_bytes_poped r.output.num_bytes_pushed next
              (omega (arith, v.counted)) f
          ∙ ap₂ (slice source) (sym p.popped) (sym to);
      counted = omega (arith, p.popped, p.size, p.pushed, v.counted);
      within = omega (arith, to);
      cache =
          IsCache-weaken source next r'.output.num_bytes_pushed
            (r.output.num_bytes_pushed + (r.output.capacity - r.output.buffer_size))
            (r'.output.num_bytes_pushed + (r'.output.capacity - r'.output.buffer_size)) r'.cache
            (omega (arith, to)) (omega (arith, to, p.capacity, p.size, room_for)) c;
    }

-- The end of `insert`, on a cache that gives what a cache in order gives.
pub deliver-Reassembles :
    (source : List ℕ) (r : Reassembler) (c c' : List Segment)
    → Reassembles source (record r { cache = c' })
    → collect r.output.num_bytes_pushed c ≡ collect r.output.num_bytes_pushed c'
    → Reassembles source (deliver r.output.num_bytes_pushed (record r { cache = c }))
unfolding deliver
deliver-Reassembles source r c c' v same =
    let s = r.output in
    let n = s.num_bytes_pushed in
    let hi = n + (s.capacity - s.buffer_size) in
    let k =
      subst (IsCollected source n hi) (sym same)
        (collect-IsCollected source n hi c' v.cache (omega (arith, v.short, v.within))) in
    let bytes = (collect n c).0 in
    let len : length bytes ≡ (collect n c).1 - n =
      ap length k.right
      ∙ length-slice source n (collect n c).1 (omega (arith, k.within, v.within)) in
    let room_for = IsCache-le source (collect n c).1 hi (collect n c).2 k.left in
    let pushed : Pushed s (if is_empty bytes then s else ByteStream.push bytes s) bytes =
      elim (Bool-cases (is_empty bytes)) [
        | inl e ↦
            rw e (Pushed-none s bytes v.valid (nil-of_length bytes (==→eq (length bytes) 0 e)))
        | inr e ↦ rw e (
            Pushed-push s bytes v.valid (omega (arith, v.valid.within))
              (omega (arith, v.short, v.within)))
      ] in
    Reassembles-Pushed source (record r { cache = c' }) _ bytes (collect n c).1 v
      (Pushed-close s _ bytes
        (r.finish && is_empty (collect n c).2 && leb r.finish_set (collect n c).1) pushed)
      k.right k.forward (omega (arith, k.within, v.within)) k.left
