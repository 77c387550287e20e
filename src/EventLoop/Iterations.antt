-- ===== src/EventLoop/Iterations.antt =====
-- How often a rule without a descriptor runs.
use computer_networking.Prelude.{
  ℕ, zero, suc, ◌≤◌, ◌<◌, ◌≡◌, refl, ap, ◌∙◌, Bool, true, false, none, some, List, ◌∷◌, arith,
}
use computer_networking.EventLoop.{
  BasicRule, EventLoop, Result, PollFd, Polled, fire, run_rules, max_iterations, wait_next_event,
}

-- The state after so many runs of the callback.
abbrev pub iterate : {S : Type 0} → BasicRule S → ℕ → S → S
iterate r zero s = s
iterate r (suc n) s = iterate r n (r.callback s).0

-- The rule is interested through n runs, which return without an exception.
abbrev pub IsInterested : {S : Type 0} → BasicRule S → ℕ → S → Type 0
IsInterested r zero s = Unit
IsInterested r (suc n) s =
    (r.interest s ≡ true) × ((r.callback s).1 ≡ true) × IsInterested r n (r.callback s).0

abbrev pub has_fired : ℕ → Bool → Bool
has_fired zero fired = fired
has_fired (suc k) fired = true

has_fired-true : (k : ℕ) → has_fired k true ≡ true
has_fired-true zero = refl
has_fired-true (suc k) = refl

fire-iterate :
    {S : Type 0} (r : BasicRule S) (k n : ℕ) (fired : Bool) (s : S)
    → IsInterested r k s
    → r.interest (iterate r k s) ≡ false
    → k ≤ n
    → fire n r fired s ≡ (iterate r k s, some (has_fired k fired))
unfolding fire
fire-iterate r zero zero fired s h e l = rw e
fire-iterate r zero (suc n) fired s h e l = rw e
fire-iterate r (suc k) zero fired s h e l = absurd (omega arith)
fire-iterate r (suc k) (suc n) fired s (i, c, h) e l =
    rw (i, c)
      (fire-iterate r k n true (r.callback s).0 h e (omega arith)
        ∙ ap (λ (b : Bool). (iterate r k (r.callback s).0, some b)) (has_fired-true k))

fire-busy :
    {S : Type 0} (r : BasicRule S) (n : ℕ) (fired : Bool) (s : S)
    → IsInterested r n s
    → r.interest (iterate r n s) ≡ true
    → fire n r fired s ≡ (iterate r n s, none)
unfolding fire
fire-busy r zero fired s h e = rw e
fire-busy r (suc n) fired s (i, c, h) e = rw (i, c) (fire-busy r n true (r.callback s).0 h e)

abbrev pub with_rule : {S : Type 0} → BasicRule S → EventLoop S → EventLoop S
with_rule r l = record l { non_fd_rules = r ∷ l.non_fd_rules }

-- Where the first rule without a descriptor is not cancelled, stays interested through k + 1 runs of
-- its callback, at most 128, that return, and is not interested after them, `wait_next_event` runs
-- it exactly so often, serves no other rule and returns success.
pub wait_next_event-iterates :
    {S : Type 0} (sockopt : ℕ → Bool) (poll : List PollFd → Polled) (r : BasicRule S)
    (l : EventLoop S) (s : S) (k : ℕ)
    → r.cancel_requested s ≡ false
    → IsInterested r (suc k) s
    → r.interest (iterate r (suc k) s) ≡ false
    → k < 128
    → wait_next_event sockopt poll (with_rule r l) s
      ≡ record { loop = with_rule r l; state = iterate r (suc k) s; result = some Result.success }
unfolding wait_next_event run_rules
wait_next_event-iterates sockopt poll r l s k c h e b =
    rw c (rw (fire-iterate r (suc k) max_iterations false s h e (omega arith)))

-- A rule that is still interested after 128 runs is reported as a busy wait.
pub wait_next_event-busy :
    {S : Type 0} (sockopt : ℕ → Bool) (poll : List PollFd → Polled) (r : BasicRule S)
    (l : EventLoop S) (s : S)
    → r.cancel_requested s ≡ false
    → IsInterested r 128 s
    → r.interest (iterate r 128 s) ≡ true
    → wait_next_event sockopt poll (with_rule r l) s
      ≡ record { loop = with_rule r l; state = iterate r 128 s; result = none }
unfolding wait_next_event run_rules
wait_next_event-busy sockopt poll r l s c h e = rw c (rw (fire-busy r max_iterations false s h e))
