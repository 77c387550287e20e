-- ===== src/Reassembler/Cache.antt =====
-- The cache holds stretches of the stream that do not overlap, in order, and the loop over it keeps that.
use computer_networking.Prelude.{
  ℕ, ◌+◌, ◌-◌, ◌≤◌, ◌<◌, min, max, ◌≡◌, refl, ap, ap₂, ◌∙◌, true, false, some, List, [], ◌∷◌, ◌++◌,
  length, leb, lt→ltb, ge→ltb, ne→==, arith, u64, add_w, sub_w, ◌^◌,
}
use computer_networking.Reassembler.{
  Segment, Work, Round, put, substr, next_round, put_before, after_put, overlap_from_before,
  overlap_from_within, round,
}
use computer_networking.Reassembler.Slices.{slice, length-slice, slice-slice}

pub le→leb : (a b : ℕ) → a ≤ b → leb a b ≡ true
le→leb a b h = ground arith

pub gt→leb : (a b : ℕ) → b < a → leb a b ≡ false
gt→leb a b h = ground arith

module _ (source : List ℕ) where
  -- A segment is the stretch of the stream that its indices say.
  pub record IsPart (s : Segment) : Type 0 where
    pub ordered : s.start ≤ s.last
    pub within : s.last < length source
    pub right : s.bytes ≡ slice source s.start (s.last + 1)

  -- The segments lie between lo and hi, in order and apart.
  abbrev pub IsCache : ℕ → ℕ → List Segment → Type 0
  IsCache lo hi [] = lo ≤ hi
  IsCache lo hi (s ∷ ss) = (lo ≤ s.start) × IsPart s × IsCache (s.last + 1) hi ss

  pub IsCache-le : (lo hi : ℕ) (ss : List Segment) → IsCache lo hi ss → lo ≤ hi
  IsCache-le lo hi [] h = h
  IsCache-le lo hi (s ∷ ss) (h, p, hs) = omega (arith, IsCache-le (s.last + 1) hi ss hs, p.ordered)

  pub IsCache-weaken :
      (lo lo' hi hi' : ℕ) (ss : List Segment)
      → lo' ≤ lo
      → hi ≤ hi'
      → IsCache lo hi ss
      → IsCache lo' hi' ss
  IsCache-weaken lo lo' hi hi' [] a b h = omega arith
  IsCache-weaken lo lo' hi hi' (s ∷ ss) a b (h, p, hs) =
      (omega arith, p, IsCache-weaken (s.last + 1) (s.last + 1) hi hi' ss (omega arith) b hs)

  pub IsCache-append :
      (lo mid hi : ℕ) (xs ys : List Segment)
      → IsCache lo mid xs
      → IsCache mid hi ys
      → IsCache lo hi (xs ++ ys)
  IsCache-append lo mid hi [] ys h k = IsCache-weaken mid lo hi hi ys h (omega arith) k
  IsCache-append lo mid hi (x ∷ xs) ys (h, p, hs) k =
      (h, p, IsCache-append (x.last + 1) mid hi xs ys hs k)

  -- A new segment goes behind those that end before it and ahead of those that start after it.
  pub put-append :
      (lo mid hi : ℕ) (s : Segment) (xs ys : List Segment)
      → IsCache lo mid xs
      → mid ≤ s.start
      → IsCache (s.start + 1) hi ys
      → put s (xs ++ ys) ≡ xs ++ s ∷ ys
  unfolding put
  put-append lo mid hi s [] [] h m k = refl
  put-append lo mid hi s [] (y ∷ ys) h m (k, p, ks) =
      rw (ne→== s.start y.start (λ e. omega arith), lt→ltb s.start y.start (omega arith)) refl
  put-append lo mid hi s (x ∷ xs) ys (h, p, hs) m k =
      let b = IsCache-le (x.last + 1) mid xs hs in
      rw
        (
          ne→== s.start x.start (λ e. omega (arith, p.ordered)),
          ge→ltb s.start x.start (omega (arith, p.ordered)),
        )
        (ap (◌∷◌ x) (put-append (x.last + 1) mid hi s xs ys hs m k))

  pub substr-slice :
      (a b pos n c d : ℕ)
      → b ≤ length source
      → a + pos ≡ c
      → c ≤ b
      → d - c ≡ min n (b - c)
      → substr (slice source a b) pos n ≡ some (slice source c d)
  substr-slice a b pos n c d h e k m =
      rw (ge→ltb (length (slice source a b)) pos (omega (arith, length-slice source a b h)))
        (ap some (slice-slice source a b pos n c d e m))

  -- The work on data that end at the index l.
  abbrev pub work : ℕ → ℕ → List Segment → Work
  work l w cache = record { write_index = w; trimmed_data = slice source w (l + 1); cache = cache }

  abbrev pub part : ℕ → ℕ → Segment
  part a l = record { start = a; last = l; bytes = slice source a (l + 1) }

  -- The rounds of the loop.
  module _ (l w : ℕ) (s : Segment) (cache : List Segment) (in_source : l < length source)
      (short : l < 2 ^ 31) (w_short : w ≤ l) (last_short : s.last < 2 ^ 31)
      (ordered : s.start ≤ s.last) where
    pub round-ahead :
        w < s.start
        → l < s.start
        → round l s (work l w cache) ≡ Round.break_off (work l w (put (part w l) cache))
    unfolding round
    round-ahead h k = rw (lt→ltb w s.start h, lt→ltb l s.start k)

    put_before-part :
        w < s.start
        → s.start ≤ l
        → put_before w
            (sub_w u64 s.start 1)
            (work l w cache)
            (substr (slice source w (l + 1)) 0 (sub_w u64 s.start w))
          ≡ some (work l w (put (part w (s.start - 1)) cache))
    put_before-part h k =
        ap (put_before w (sub_w u64 s.start 1) (work l w cache)) (
          substr-slice w (l + 1) 0 (sub_w u64 s.start w) w s.start (omega arith) (omega arith)
            (omega arith) (omega arith))
        ∙ ap₂
            (λ (i j : ℕ).
              some
                (work l w (put (record { start = w; last = i; bytes = slice source w j }) cache)))
            (omega arith) (omega arith)

    -- Where the data go on behind the segment.
    abbrev behind : ℕ
    behind = max (add_w u64 w (sub_w u64 s.start w)) (add_w u64 s.last 1)

    after_put-last :
        (c : List Segment)
        → w < s.start
        → l ≤ s.last
        → after_put l s (some (work l w c)) ≡ Round.break_off (work l w c)
    after_put-last c h k = rw (lt→ltb l behind (omega arith))

    after_put-more :
        (c : List Segment)
        → w < s.start
        → s.last < l
        → after_put l s (some (work l w c)) ≡ Round.go_on (work l (s.last + 1) c)
    after_put-more c h k = rw (ge→ltb l behind (omega arith)) (
        ap (next_round behind (work l w c)) (
          substr-slice w (l + 1) (sub_w u64 behind w) (add_w u64 (sub_w u64 l behind) 1)
            (s.last + 1) (l + 1) (omega arith) (omega arith) (omega arith) (omega arith))
        ∙ ap
            (λ (i : ℕ). Round.go_on (record {
              write_index = i;
              trimmed_data = slice source (s.last + 1) (l + 1);
              cache = c;
            }))
            (omega arith))

    pub round-before_last :
        w < s.start
        → s.start ≤ l
        → l ≤ s.last
        → round l s (work l w cache) ≡ Round.break_off (work l w (put (part w (s.start - 1)) cache))
    unfolding round overlap_from_before
    round-before_last h k m =
        rw (lt→ltb w s.start h, ge→ltb l s.start k)
          (ap (after_put l s) (put_before-part h k)
            ∙ after_put-last (put (part w (s.start - 1)) cache) h m)

    pub round-before :
        w < s.start
        → s.last < l
        → round l s (work l w cache)
          ≡ Round.go_on (work l (s.last + 1) (put (part w (s.start - 1)) cache))
    unfolding round overlap_from_before
    round-before h k =
        rw (lt→ltb w s.start h, ge→ltb l s.start (omega arith))
          (ap (after_put l s) (put_before-part h (omega arith))
            ∙ after_put-more (put (part w (s.start - 1)) cache) h k)

    pub round-within_last :
        s.start ≤ w → l ≤ s.last → round l s (work l w cache) ≡ Round.break_off (work l w cache)
    unfolding round overlap_from_within
    round-within_last h k = rw (ge→ltb w s.start h, le→leb l s.last k)

    pub round-within :
        s.start ≤ w
        → s.last < l
        → round l s (work l w cache) ≡ Round.go_on (work l (max (s.last + 1) w) cache)
    unfolding round overlap_from_within
    round-within h k =
        let new = max (add_w u64 s.last 1) w in
        rw (ge→ltb w s.start h, gt→leb l s.last k)
          (ap (next_round new (work l w cache)) (
              substr-slice w (l + 1) (sub_w u64 new w) (add_w u64 (sub_w u64 l s.start) 1)
                (max (s.last + 1) w) (l + 1) (omega arith) (omega arith) (omega arith)
                (omega arith))
            ∙ ap
                (λ (i : ℕ). Round.go_on (record {
                  write_index = i;
                  trimmed_data = slice source (max (s.last + 1) w) (l + 1);
                  cache = cache;
                }))
                (omega arith))
