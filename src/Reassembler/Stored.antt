-- ===== src/Reassembler/Stored.antt =====
-- What the loop over the cache makes of the cache.
use computer_networking.Prelude.{
  ℕ, ◌+◌, ◌-◌, ◌≤◌, ◌<◌, max, ◌≡◌, refl, sym, ap, ◌∙◌, subst, Option, some, List, [], ◌∷◌, ◌++◌,
  inl, inr, Bool-cases, append_assoc, length, ltb, leb, ltb→lt, ltb→ge, ge→ltb, leb→le, leb→gt,
  arith, ◌^◌,
}
use computer_networking.Reassembler.{Segment, Work, Round, put, after_round, visit}
use computer_networking.Reassembler.Cache.{
  IsPart, IsCache, IsCache-le, IsCache-append, put-append, work, part, round-ahead,
  round-before_last, round-before, round-within_last, round-within,
}

-- The cache is in order after the loop, and what is left of the data are the bytes of the stream there.
pub record IsStored (source : List ℕ) (lo hi l : ℕ) (o : Option Work) : Type 0 where
  pub write_index : ℕ
  pub cache : List Segment
  pub result : o ≡ some (work source l write_index cache)
  pub in_order : IsCache source lo hi cache

module _ (source : List ℕ) (lo hi l : ℕ) (in_source : l < length source) (below : l < hi)
    (short : hi < 2 ^ 31) where
  pub IsPart-part : (a b : ℕ) → a ≤ b → b < length source → IsPart source (part source a b)
  IsPart-part a b h k = record { ordered = h; within = k; right = refl }

  after_round-go_on :
      (ss : List Segment) (w : Work)
      → w.write_index ≤ l
      → after_round l (Round.go_on w) (visit l ss) ≡ visit l ss w
  after_round-go_on ss w h = rw (ge→ltb l w.write_index h)

  -- One round, at a segment of the cache: those ahead of it end before the data start.
  module _ (s : Segment) (ss pre : List Segment) (w e : ℕ) (p : IsCache source lo e pre) (h : e ≤ w)
      (es : e ≤ s.start) (q : IsPart source s) (rest : IsCache source (s.last + 1) hi ss)
      (b : w ≤ l) where
    ahead : Segment
    ahead = part source w l

    before : Segment
    before = part source w (s.start - 1)

    last_below : s.last + 1 ≤ hi
    last_below = IsCache-le source (s.last + 1) hi ss rest

    put-ahead :
        w < s.start
        → l < s.start
        → IsStored source lo hi l (visit l (s ∷ ss) (work source l w (pre ++ s ∷ ss)))
    unfolding visit ahead
    put-ahead c d = record {
      write_index = w;
      cache = pre ++ ahead ∷ s ∷ ss;
      result =
          ap (λ (r : Round). after_round l r (visit l ss))
            (round-ahead source l w s (pre ++ s ∷ ss) in_source (omega arith) b
              (omega (arith, last_below)) q.ordered c d)
          ∙ ap (λ (x : List Segment). some (work source l w x))
              (put-append source lo e hi ahead pre (s ∷ ss) p h (omega arith, q, rest));
      in_order =
          IsCache-append source lo e hi pre (ahead ∷ s ∷ ss) p
            (h, IsPart-part w l b in_source, (omega arith, q, rest));
    }

    before-IsCache : w < s.start → IsCache source e hi (before ∷ s ∷ ss)
    unfolding before
    before-IsCache c = (
      h,
      IsPart-part w (s.start - 1) (omega arith) (omega (arith, q.ordered, q.within)),
      (omega arith, q, rest),
    )

    put-before : w < s.start → put before (pre ++ s ∷ ss) ≡ pre ++ before ∷ s ∷ ss
    unfolding before
    put-before c = put-append source lo e hi before pre (s ∷ ss) p h (omega arith, q, rest)

    put-before_last :
        w < s.start
        → s.start ≤ l
        → l ≤ s.last
        → IsStored source lo hi l (visit l (s ∷ ss) (work source l w (pre ++ s ∷ ss)))
    unfolding visit before
    put-before_last c d k = record {
      write_index = w;
      cache = pre ++ before ∷ s ∷ ss;
      result =
          ap (λ (r : Round). after_round l r (visit l ss))
            (round-before_last source l w s (pre ++ s ∷ ss) in_source (omega arith) b
              (omega (arith, last_below)) q.ordered c d k)
          ∙ ap (λ (x : List Segment). some (work source l w x)) (put-before c);
      in_order = IsCache-append source lo e hi pre (before ∷ s ∷ ss) p (before-IsCache c);
    }

    go-before :
        w < s.start
        → s.last < l
        → visit l (s ∷ ss) (work source l w (pre ++ s ∷ ss))
          ≡ visit l ss (work source l (s.last + 1) ((pre ++ before ∷ s ∷ []) ++ ss))
    unfolding visit before
    go-before c d =
        ap (λ (r : Round). after_round l r (visit l ss))
          (round-before source l w s (pre ++ s ∷ ss) in_source (omega arith) b
            (omega (arith, last_below)) q.ordered c d)
        ∙ after_round-go_on ss (work source l (s.last + 1) (put before (pre ++ s ∷ ss)))
            (omega arith)
        ∙ ap (λ (x : List Segment). visit l ss (work source l (s.last + 1) x))
            (put-before c ∙ sym (append_assoc pre (before ∷ s ∷ []) ss))

    go-before-IsCache : w < s.start → IsCache source lo (s.last + 1) (pre ++ before ∷ s ∷ [])
    unfolding before
    go-before-IsCache c = IsCache-append source lo e (s.last + 1) pre (before ∷ s ∷ []) p (
      h,
      IsPart-part w (s.start - 1) (omega arith) (omega (arith, q.ordered, q.within)),
      (omega arith, q, omega arith),
    )

    stay-within :
        s.start ≤ w
        → l ≤ s.last
        → IsStored source lo hi l (visit l (s ∷ ss) (work source l w (pre ++ s ∷ ss)))
    unfolding visit
    stay-within c d = record {
      write_index = w;
      cache = pre ++ s ∷ ss;
      result =
          ap (λ (r : Round). after_round l r (visit l ss))
            (round-within_last source l w s (pre ++ s ∷ ss) in_source (omega arith) b
              (omega (arith, last_below)) q.ordered c d);
      in_order = IsCache-append source lo e hi pre (s ∷ ss) p (es, q, rest);
    }

    go-within :
        s.start ≤ w
        → s.last < l
        → visit l (s ∷ ss) (work source l w (pre ++ s ∷ ss))
          ≡ visit l ss (work source l (max (s.last + 1) w) ((pre ++ s ∷ []) ++ ss))
    unfolding visit
    go-within c d =
        ap (λ (r : Round). after_round l r (visit l ss))
          (round-within source l w s (pre ++ s ∷ ss) in_source (omega arith) b
            (omega (arith, last_below)) q.ordered c d)
        ∙ after_round-go_on ss (work source l (max (s.last + 1) w) (pre ++ s ∷ ss)) (omega arith)
        ∙ ap (λ (x : List Segment). visit l ss (work source l (max (s.last + 1) w) x))
            (sym (append_assoc pre (s ∷ []) ss))

    go-within-IsCache : IsCache source lo (s.last + 1) (pre ++ s ∷ [])
    go-within-IsCache = IsCache-append source lo e (s.last + 1) pre (s ∷ []) p (es, q, omega arith)

  pub visit-IsStored :
      (ss pre : List Segment) (w e : ℕ)
      → IsCache source lo e pre
      → e ≤ w
      → IsCache source e hi ss
      → w ≤ l
      → IsStored source lo hi l (visit l ss (work source l w (pre ++ ss)))
  unfolding visit
  visit-IsStored [] pre w e p h k b = record {
    write_index = w;
    cache = pre ++ [];
    result = refl;
    in_order = IsCache-append source lo e hi pre [] p k;
  }
  visit-IsStored (s ∷ ss) pre w e p h (es, q, rest) b = elim (Bool-cases (ltb w s.start)) [
    | inl c ↦
        let w_lt = ltb→lt w s.start c in
        elim (Bool-cases (ltb l s.start)) [
          | inl d ↦ put-ahead s ss pre w e p h es q rest b w_lt (ltb→lt l s.start d)
          | inr d ↦
              let l_ge = ltb→ge l s.start d in
              elim (Bool-cases (leb l s.last)) [
                | inl k ↦ put-before_last s ss pre w e p h es q rest b w_lt l_ge (leb→le l s.last k)
                | inr k ↦
                    let l_gt = leb→gt l s.last k in
                    subst (IsStored source lo hi l)
                      (sym (go-before s ss pre w e p h es q rest b w_lt l_gt))
                      (visit-IsStored ss (pre ++ before s ss pre w e p h es q rest b ∷ s ∷ [])
                        (s.last + 1) (s.last + 1)
                        (go-before-IsCache s ss pre w e p h es q rest b w_lt) (omega arith) rest
                        (omega arith))
              ]
        ]
    | inr c ↦
        let w_ge = ltb→ge w s.start c in
        elim (Bool-cases (leb l s.last)) [
          | inl k ↦ stay-within s ss pre w e p h es q rest b w_ge (leb→le l s.last k)
          | inr k ↦
              let l_gt = leb→gt l s.last k in
              subst (IsStored source lo hi l)
                (sym (go-within s ss pre w e p h es q rest b w_ge l_gt))
                (visit-IsStored ss (pre ++ s ∷ []) (max (s.last + 1) w) (s.last + 1)
                  (go-within-IsCache s ss pre w e p h es q rest b) (omega arith) rest (omega arith))
        ]
  ]
