-- ===== src/Reassembler/Delivered.antt =====
-- The segments that are next in the stream, taken off the cache.
use computer_networking.Prelude.{
  ℕ, ◌+◌, ◌≤◌, ◌<◌, max, ◌≡◌, sym, ap, ap₂, ◌∙◌, subst, List, [], ◌∷◌, ◌++◌, inl, inr, Bool-cases,
  length, ==→eq, arith, u64, add_w, sub_w, ◌^◌, ◌==◌,
}
use computer_networking.Reassembler.{Segment, collect}
use computer_networking.Reassembler.Slices.{slice, slice-nil, slice-append}
use computer_networking.Reassembler.Cache.{IsCache, IsCache-le}

-- The bytes that go to the stream, the index behind them, and the cache that is left.
pub record IsCollected (source : List ℕ) (lo hi : ℕ) (o : List ℕ × ℕ × List Segment) : Type 0 where
  pub forward : lo ≤ o.1
  pub within : o.1 ≤ max lo (length source)
  pub right : o.0 ≡ slice source lo o.1
  pub left : IsCache source o.1 hi o.2

pub collect-IsCollected :
    (source : List ℕ) (lo hi : ℕ) (ss : List Segment)
    → IsCache source lo hi ss
    → hi < 2 ^ 31
    → IsCollected source lo hi (collect lo ss)
unfolding collect
collect-IsCollected source lo hi [] h b = record {
  forward = omega arith;
  within = omega arith;
  right = sym (slice-nil source lo lo (omega arith));
  left = h;
}
collect-IsCollected source lo hi (s ∷ ss) (h, p, k) b = elim (Bool-cases (s.start == lo)) [
  | inr e ↦ rw e (record {
    forward = omega arith;
    within = omega arith;
    right = sym (slice-nil source lo lo (omega arith));
    left = (h, p, k);
  })
  | inl e ↦ rw e (
      let same : s.start ≡ lo = ==→eq s.start lo e in
      let next : add_w u64 lo (add_w u64 (sub_w u64 s.last s.start) 1) ≡ s.last + 1 =
        omega (arith, p.ordered, IsCache-le source (s.last + 1) hi ss k) in
      let r = collect-IsCollected source (s.last + 1) hi ss k b in
      subst
        (λ (i : ℕ).
          IsCollected source lo hi
            (s.bytes ++ (collect i ss).0, (collect i ss).1, (collect i ss).2))
        (sym next)
        (record {
          forward = omega (arith, r.forward, p.ordered);
          within = omega (arith, r.within, p.within);
          right =
              ap₂ ◌++◌ p.right r.right
              ∙ slice-append source s.start (s.last + 1) (collect (s.last + 1) ss).1
                  (omega (arith, p.ordered)) r.forward
              ∙ ap (λ (i : ℕ). slice source i (collect (s.last + 1) ss).1) same;
          left = r.left;
        }))
]
