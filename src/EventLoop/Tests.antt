-- ===== src/EventLoop/Tests.antt =====
-- A loop over a counter, with a rule that counts down.
use computer_networking.Prelude.{ℕ, ◌-◌, ◌≡◌, refl, List, some, true, false, ltb, arith}
use computer_networking.EventLoop.{BasicRule, Result, PollFd, Polled, init, wait_next_event}
use computer_networking.EventLoop.Iterations.{with_rule, wait_next_event-iterates}

abbrev countdown : BasicRule ℕ
countdown = record {
  category_id = 0;
  interest = λ (s : ℕ). ltb 0 s;
  callback = λ (s : ℕ). (s - 1, true);
  cancel_requested = λ (s : ℕ). false;
}

abbrev nothing : List PollFd → Polled
nothing ps = record {
  count = some 0;
  revents = λ i. record { err = false; hup = false; readable = false; writable = false };
}

wait_next_event-iterates_example :
    wait_next_event (λ fd. true) nothing (with_rule countdown init) 2
    ≡ record { loop = with_rule countdown init; state = 0; result = some Result.success }
wait_next_event-iterates_example =
    wait_next_event-iterates (λ fd. true) nothing countdown init 2 1 refl
      ((refl, refl, (refl, refl, tt))) refl (omega arith)
