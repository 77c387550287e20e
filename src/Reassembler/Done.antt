-- ===== src/Reassembler/Done.antt =====
-- From the choice before the loop over the cache to the cache behind it.
use computer_networking.Prelude.{
  ℕ, ◌+◌, ◌≤◌, ◌<◌, max, ◌≡◌, refl, sym, ap, ◌∙◌, subst, Bool, true, false, ◌&&◌, Option, none,
  some, List, [], ◌∷◌, ◌++◌, inl, inr, Bool-cases, append-nil, length, not, ltb, ltb→lt, ltb→ge,
  lt→ltb, ==_self, arith, u64, add_w, sub_w, ◌^◌, ◌==◌,
}
use computer_networking.Reassembler.{
  Segment, Work, put, visit, store, last_of, put_last, append_to, append_rest, round,
  overlap_from_within, substr, collect, bind_work,
}
use computer_networking.Reassembler.Slices.{slice, length-slice, slice-nil}
use computer_networking.Reassembler.Cache.{
  IsCache, IsCache-append, put-append, work, part, substr-slice, le→leb, gt→leb,
}
use computer_networking.Reassembler.Stored.{IsStored, visit-IsStored, IsPart-part}

-- The work is done, and the bytes that it has next are those of a cache in order.
pub record IsDone (source : List ℕ) (lo hi : ℕ) (o : Option Work) : Type 0 where
  pub done : Work
  pub result : o ≡ some done
  pub cache : List Segment
  pub same : collect lo done.cache ≡ collect lo cache
  pub in_order : IsCache source lo hi cache

and_both : (a b : Bool) → (a && b) ≡ true → (a ≡ true) × (b ≡ true)
and_both true b h = (refl, h)
and_both false b h = absurd cc

not_zero : (n : ℕ) → not (n == 0) ≡ true → 0 < n
not_zero n h = ground arith

module _ (source : List ℕ) (lo hi l : ℕ) (in_source : l < length source) (below : l < hi)
    (short : hi < 2 ^ 31) where
  pub store-IsStored :
      (cache : List Segment) (w : ℕ)
      → IsCache source lo hi cache
      → lo ≤ w
      → w ≤ l
      → IsStored source lo hi l (store l (work source l w cache))
  unfolding store put
  store-IsStored [] w h k b = record {
    write_index = w;
    cache = part source w l ∷ [];
    result = rw (le→leb w l b);
    in_order = (k, IsPart-part source lo hi l in_source below short w l b in_source, omega arith);
  }
  store-IsStored (s ∷ ss) w h k b =
      visit-IsStored source lo hi l in_source below short (s ∷ ss) [] w lo (omega arith) k h b

  -- A cache that ends at `last`.
  last_of-IsCache :
      (a last : ℕ) (ss : List Segment)
      → IsCache source a hi ss
      → last_of ss ≡ some last
      → IsCache source a (last + 1) ss
  last_of-IsCache a last [] h e = absurd cc
  last_of-IsCache a last (s ∷ []) (h, p, k) e = let f : s.last ≡ last = cc in (h, p, omega arith)
  last_of-IsCache a last (s ∷ t ∷ ts) (h, p, k) e =
      (h, p, last_of-IsCache (s.last + 1) last (t ∷ ts) k e)

  -- What reaches beyond the last segment joins the cache behind it.
  put_last-IsDone :
      (last w : ℕ) (cache : List Segment)
      → IsCache source lo hi cache
      → last_of cache ≡ some last
      → last < l
      → w ≤ l
      → IsDone source lo hi (
          put_last (max w (add_w u64 last 1)) l (work source l w cache) (
            substr
              (slice source w (l + 1))
              (sub_w u64 (max w (add_w u64 last 1)) w)
              (add_w u64 (sub_w u64 l (max w (add_w u64 last 1))) 1)))
  put_last-IsDone last w cache h e c d =
      let from = max w (add_w u64 last 1) in
      let start = max w (last + 1) in
      let same_start : from ≡ start = omega arith in
      let tight = last_of-IsCache lo last cache h e in
      let placed : put (part source start l) cache ≡ cache ++ part source start l ∷ [] =
        ap (put (part source start l)) (sym (append-nil cache))
        ∙ put-append source lo (last + 1) hi (part source start l) cache [] tight (omega arith)
            (omega arith) in
      record {
        done = record {
          write_index = w;
          trimmed_data = slice source start (l + 1);
          cache = put (record { start = from; last = l; bytes = slice source start (l + 1) }) cache;
        };
        result = ap (put_last from l (work source l w cache)) (
            substr-slice source w (l + 1) (sub_w u64 from w) (add_w u64 (sub_w u64 l from) 1) start
              (l + 1) (omega arith) (omega arith) (omega arith) (omega arith));
        cache = cache ++ part source start l ∷ [];
        same = ap (collect lo) (
            ap
              (λ (i : ℕ).
                put (record { start = i; last = l; bytes = slice source start (l + 1) }) cache)
              same_start
            ∙ placed);
        in_order = IsCache-append source lo (last + 1) hi cache (part source start l ∷ []) tight (
          omega arith,
          IsPart-part source lo hi l in_source below short start l (omega arith) in_source,
          omega arith,
        );
      }

  append_to-IsDone :
      (o : Option ℕ) (w : ℕ) (cache : List Segment)
      → IsCache source lo hi cache
      → last_of cache ≡ o
      → IsDone source lo hi (append_to l o (work source l w cache))
  append_to-IsDone none w cache h e = record {
    done = work source l w cache;
    result = refl;
    cache = cache;
    same = refl;
    in_order = h;
  }
  append_to-IsDone (some last) w cache h e =
      elim (Bool-cases (ltb last l && not (length (slice source w (l + 1)) == 0))) [
        | inr c ↦ rw c (record {
          done = work source l w cache;
          result = refl;
          cache = cache;
          same = refl;
          in_order = h;
        })
        | inl c ↦
            let (c', d) = and_both (ltb last l) _ c in
            let some_left = not_zero (length (slice source w (l + 1))) d in
            rw c (
              put_last-IsDone last w cache h e (ltb→lt last l c')
                (omega (arith, some_left, length-slice source w (l + 1) (omega arith))))
      ]

  pub append_rest-IsDone :
      (o : Option Work)
      → IsStored source lo hi l o
      → IsDone source lo hi (bind_work o (append_rest l))
  unfolding append_rest
  append_rest-IsDone o s =
      subst (λ (x : Option Work). IsDone source lo hi (bind_work x (append_rest l))) (sym s.result)
        (append_to-IsDone (last_of s.cache) s.write_index s.cache s.in_order refl)

  append_to-nil : (o : Option ℕ) (w : Work) → length w.trimmed_data ≡ 0 → append_to l o w ≡ some w
  append_to-nil none w h = refl
  append_to-nil (some last) w h = elim (Bool-cases (ltb last l)) [
    | inl c ↦ rw (c, h)
    | inr c ↦ rw c
  ]

  append_rest-nil :
      (w : ℕ) (cache : List Segment)
      → w ≡ l + 1
      → append_rest l (work source l w cache) ≡ some (work source l w cache)
  unfolding append_rest
  append_rest-nil w cache h =
      append_to-nil (last_of cache) (work source l w cache)
        (ap length (slice-nil source w (l + 1) (omega arith)))

  store-old_nil :
      (w : ℕ)
      → l < w
      → bind_work (store l (work source l w [])) (append_rest l) ≡ some (work source l w [])
  unfolding store append_rest
  store-old_nil w h = rw (gt→leb w l h)

  store-old_ahead :
      (s : Segment) (ss : List Segment) (w : ℕ)
      → ltb w s.start ≡ true
      → l < s.start
      → store l (work source l w (s ∷ ss)) ≡ some (work source l w (put (part source w l) (s ∷ ss)))
  unfolding store visit round
  store-old_ahead s ss w c h = rw (c, lt→ltb l s.start h)

  store-old_within :
      (s : Segment) (ss : List Segment) (w : ℕ)
      → ltb w s.start ≡ false
      → l ≤ s.last
      → store l (work source l w (s ∷ ss)) ≡ some (work source l w (s ∷ ss))
  unfolding store visit round overlap_from_within
  store-old_within s ss w c h = rw (c, le→leb l s.last h)

  collect-empty :
      (cache : List Segment) → lo ≡ l + 1 → collect lo (part source lo l ∷ cache) ≡ collect lo cache
  unfolding collect
  collect-empty cache h =
      let next : add_w u64 lo (add_w u64 (sub_w u64 l lo) 1) ≡ lo = omega arith in
      rw (==_self lo, next, slice-nil source lo (l + 1) (omega arith)) refl

  -- Data that the stream has had already: at most an empty segment joins the cache.
  pub old-IsDone :
      (cache : List Segment) (w : ℕ)
      → IsCache source lo hi cache
      → lo ≡ w
      → w ≡ l + 1
      → IsDone source lo hi (bind_work (store l (work source l w cache)) (append_rest l))
  old-IsDone [] w h k b = record {
    done = work source l w [];
    result = store-old_nil w (omega arith);
    cache = [];
    same = refl;
    in_order = h;
  }
  old-IsDone (s ∷ ss) w (h, p, hs) k b = elim (Bool-cases (ltb w s.start)) [
    | inl c ↦
        let c' = ltb→lt w s.start c in
        record {
          done = work source l w (put (part source w l) (s ∷ ss));
          result =
              ap (λ (o : Option Work). bind_work o (append_rest l))
                (store-old_ahead s ss w c (omega arith))
              ∙ append_rest-nil w (put (part source w l) (s ∷ ss)) b;
          cache = s ∷ ss;
          same =
              ap (collect lo) (
                put-append source lo lo hi (part source w l) [] (s ∷ ss) (omega arith) (omega arith)
                  (omega arith, p, hs))
              ∙ ap (λ (i : ℕ). collect lo (part source i l ∷ s ∷ ss)) (sym k)
              ∙ collect-empty (s ∷ ss) (omega arith);
          in_order = (h, p, hs);
        }
    | inr c ↦ record {
      done = work source l w (s ∷ ss);
      result =
          ap (λ (o : Option Work). bind_work o (append_rest l))
            (store-old_within s ss w c (omega (arith, p.ordered, ltb→ge w s.start c)))
          ∙ append_rest-nil w (s ∷ ss) b;
      cache = s ∷ ss;
      same = refl;
      in_order = (h, p, hs);
    }
  ]
