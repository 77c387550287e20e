-- ===== src/EventLoop/Invariant.antt =====
-- What all callbacks of a loop keep, the loop keeps.
use computer_networking.Prelude.{
  ◌≡◌, arith, Bool-cases, Option-cases, inl, inr, ℕ, zero, suc, Bool, true, false, Option, none,
  some, List, [], ◌∷◌, All,
}
use computer_networking.EventLoop
use computer_networking.EventLoop.{
  BasicRule, FdRule, EventLoop, Callback, Result, PollFd, Polled, Revents, Waited, Served, fire,
  run_rules, max_iterations, after_fire, after_callback, after_rules, after_set_up, poll_more,
  set_up, serve, serve_ready, serve_polled, wait_fds, wait_next_event, keep,
}

-- Q says when the callback of a rule may run: P and the interest of the rule give it, and the callbacks of an error
-- and of a cancellation leave it, so that it still holds after a poll.
module _ {S : Type 0} (P : S → Type 0) (Q : FdRule S → S → Type 0) where
  -- A callback keeps P.
  abbrev pub Keeps : Callback S → Type 0
  Keeps f = (s : S) → P s → P (f s).0

  abbrev pub KeepsReady : Callback S → Type 0
  KeepsReady f = (q : FdRule S) (s : S) → Q q s → Q q (f s).0

  pub record KeepsRule (r : FdRule S) : Type 0 where
    pub ready : (s : S) → P s → r.base.interest s ≡ true → Q r s
    pub callback : (s : S) → P s → Q r s → P (r.base.callback s).0
    pub cancel : Keeps r.cancel
    pub error : Keeps r.error
    pub cancel_ready : KeepsReady r.cancel
    pub error_ready : KeepsReady r.error

  abbrev pub KeepsBasic : BasicRule S → Type 0
  KeepsBasic r = (s : S) → P s → r.interest s ≡ true → P (r.callback s).0

  -- The rules left and the state of a part of the loop.
  record Good {R A : Type 0} (K : R → Type 0) (o : Served R S A) : Type 0 where
    rules : All K o.rules
    state : P o.state

  fire-keeps :
      (n : ℕ) (r : BasicRule S) (fired : Bool) (s : S) → KeepsBasic r → P s → P (fire n r fired s).0
  unfolding fire
  fire-keeps zero r fired s k p = elim (Bool-cases (r.interest s)) [
    | inl i ↦ rw i p
    | inr i ↦ rw i p
  ]
  fire-keeps (suc n) r fired s k p = elim (Bool-cases (r.interest s)) [
    | inr i ↦ rw i p
    | inl i ↦ rw i (elim (Bool-cases (r.callback s).1) [
      | inl c ↦ rw c (fire-keeps n r true (r.callback s).0 k (k s p i))
      | inr c ↦ rw c (k s p i)
    ])
  ]

  after_fire-Good :
      (r : BasicRule S) (rs : List (BasicRule S)) (o : S × Option Bool)
      (rest : Served (BasicRule S) S Bool)
      → KeepsBasic r
      → All KeepsBasic rs
      → P o.0
      → Good KeepsBasic rest
      → Good KeepsBasic (after_fire r rs o rest)
  after_fire-Good r rs (s, none) rest k ks p g = record { rules = (k, ks); state = p }
  after_fire-Good r rs (s, some true) rest k ks p g = record { rules = (k, ks); state = p }
  after_fire-Good r rs (s, some false) rest k ks p g = record {
    rules = (k, g.rules);
    state = g.state;
  }

  run_rules-Good :
      (rs : List (BasicRule S)) (s : S) → All KeepsBasic rs → P s → Good KeepsBasic (run_rules rs s)
  unfolding run_rules
  run_rules-Good [] s k p = record { rules = tt; state = p }
  run_rules-Good (r ∷ rs) s (k, ks) p =
      let fired = fire-keeps max_iterations r false s k p in
      elim (Bool-cases (r.cancel_requested s)) [
        | inl c ↦ rw c (run_rules-Good rs s ks p)
        | inr c ↦ rw c (
            after_fire-Good r rs (fire max_iterations r false s) _ k ks fired
              (run_rules-Good rs (fire max_iterations r false s).0 ks fired))
      ]

  after_callback-Good :
      {A : Type 0} (rules : List (FdRule S)) (o : S × Bool) (rest : Served (FdRule S) S A)
      → All KeepsRule rules
      → P o.0
      → Good KeepsRule rest
      → Good KeepsRule (after_callback rules o rest)
  after_callback-Good rules (s, false) rest ks p g = record { rules = ks; state = p }
  after_callback-Good rules (s, true) rest ks p g = g

  set_up-Good :
      (rs : List (FdRule S)) (s : S) → All KeepsRule rs → P s → Good KeepsRule (set_up rs s)
  unfolding set_up
  set_up-Good [] s k p = record { rules = tt; state = p }
  set_up-Good (r ∷ rs) s (k, ks) p =
      let erased = set_up-Good rs s ks p in
      elim (Bool-cases (r.base.cancel_requested s)) [
        | inl c ↦ rw c erased
        | inr c ↦ rw c (elim (Bool-cases (EventLoop.is_defunct r s)) [
          | inl d ↦ rw d (
              after_callback-Good (r ∷ rs) (r.cancel s) _ (k, ks) (k.cancel s p)
                (set_up-Good rs (r.cancel s).0 ks (k.cancel s p)))
          | inr d ↦ rw d (record { rules = (k, erased.rules); state = erased.state })
        ])
      ]

  -- What is ready stays so while other rules are cancelled.
  set_up-ready :
      (rs : List (FdRule S)) (q : FdRule S) (s : S)
      → All KeepsRule rs
      → Q q s
      → Q q (set_up rs s).state
  unfolding set_up
  set_up-ready [] q s k h = h
  set_up-ready (r ∷ rs) q s (k, ks) h =
      let dropped = k.cancel_ready q s h in
      elim (Bool-cases (r.base.cancel_requested s)) [
        | inl c ↦ rw c (set_up-ready rs q s ks h)
        | inr c ↦ rw c (elim (Bool-cases (EventLoop.is_defunct r s)) [
          | inl d ↦ rw d (elim (Bool-cases (r.cancel s).1) [
            | inl e ↦ rw e (set_up-ready rs q (r.cancel s).0 ks dropped)
            | inr e ↦ rw e dropped
          ])
          | inr d ↦ rw d (set_up-ready rs q s ks h)
        ])
      ]

  -- Whatever is polled with interest is ready.
  abbrev AllReady : List (FdRule S) → List PollFd → S → Type 0
  AllReady [] ps s = Unit
  AllReady (r ∷ rs) [] s = Unit
  AllReady (r ∷ rs) (p ∷ ps) s = (p.asked ≡ true → Q r s) × AllReady rs ps s

  AllReady-mono :
      (rs : List (FdRule S)) (ps : List PollFd) (s s' : S)
      → ((q : FdRule S) → Q q s → Q q s')
      → AllReady rs ps s
      → AllReady rs ps s'
  AllReady-mono [] ps s s' f h = tt
  AllReady-mono (r ∷ rs) [] s s' f h = tt
  AllReady-mono (r ∷ rs) (p ∷ ps) s s' f (h, hs) = (λ e. f r (h e), AllReady-mono rs ps s s' f hs)

  abbrev ReadyResult : List (FdRule S) → S → Option (List PollFd) → Type 0
  ReadyResult rs s none = Unit
  ReadyResult rs s (some ps) = AllReady rs ps s

  poll_more-ready :
      (r : FdRule S) (p : PollFd) (o : Served (FdRule S) S (List PollFd))
      → (p.asked ≡ true → Q r o.state)
      → ReadyResult o.rules o.state o.result
      → ReadyResult (poll_more r p o).rules (poll_more r p o).state (poll_more r p o).result
  poll_more-ready r p o h g = go o.result g
    where
      go :
          (x : Option (List PollFd))
          → ReadyResult o.rules o.state x
          → ReadyResult (r ∷ o.rules) o.state (elim x [ none ↦ none | some ps ↦ some (p ∷ ps) ])
      go none g = tt
      go (some ps) g = (h, g)

  set_up-AllReady :
      (rs : List (FdRule S)) (s : S)
      → All KeepsRule rs
      → P s
      → ReadyResult (set_up rs s).rules (set_up rs s).state (set_up rs s).result
  unfolding set_up
  set_up-AllReady [] s k p = tt
  set_up-AllReady (r ∷ rs) s (k, ks) p = elim (Bool-cases (r.base.cancel_requested s)) [
    | inl c ↦ rw c (set_up-AllReady rs s ks p)
    | inr c ↦ rw c (elim (Bool-cases (EventLoop.is_defunct r s)) [
      | inl d ↦ rw d (elim (Bool-cases (r.cancel s).1) [
        | inl e ↦ rw e (set_up-AllReady rs (r.cancel s).0 ks (k.cancel s p))
        | inr e ↦ rw e tt
      ])
      | inr d ↦ rw d (
          poll_more-ready r (EventLoop.poll_fd r s) (set_up rs s)
            (λ i. set_up-ready rs r s ks (k.ready s p i)) (set_up-AllReady rs s ks p))
    ])
  ]

  is_ready-asked : (p : PollFd) (e : Revents) → EventLoop.is_ready p e ≡ true → p.asked ≡ true
  is_ready-asked p e h = ground arith

  serve_ready-Good :
      (r : FdRule S) (rs : List (FdRule S)) (s : S)
      → KeepsRule r
      → All KeepsRule rs
      → P s
      → Q r s
      → Good KeepsRule (serve_ready r rs s)
  unfolding serve_ready
  serve_ready-Good r rs s k ks p q = record { rules = (k, ks); state = k.callback s p q }

  serve-Good :
      (sockopt : ℕ → Bool) (revents : ℕ → Revents) (rs : List (FdRule S)) (ps : List PollFd)
      (idx : ℕ) (s : S)
      → All KeepsRule rs
      → P s
      → AllReady rs ps s
      → Good KeepsRule (serve sockopt revents rs ps idx s)
  unfolding serve
  serve-Good sockopt revents [] ps idx s k p a = record { rules = tt; state = p }
  serve-Good sockopt revents (r ∷ rs) [] idx s k p a = record { rules = k; state = p }
  serve-Good sockopt revents (r ∷ rs) (q ∷ qs) idx s (k, ks) p (a, bs) =
      let e = revents idx in
      let failed = k.error s p in
      let dropped = k.cancel (r.error s).0 failed in
      let cancelled = k.cancel s p in
      let more = serve-Good sockopt revents rs qs (suc idx) in
      let after_error = AllReady-mono rs qs s (r.error s).0 (λ v. k.error_ready v s) bs in
      let after_drop =
        AllReady-mono rs qs (r.error s).0 (r.cancel (r.error s).0).0
          (λ v. k.cancel_ready v (r.error s).0) after_error in
      let after_cancel = AllReady-mono rs qs s (r.cancel s).0 (λ v. k.cancel_ready v s) bs in
      elim (Bool-cases e.err) [
        | inl x ↦ rw x (elim (Bool-cases (sockopt q.fd)) [
          | inl y ↦ rw y (
              after_callback-Good (r ∷ rs) (r.error s) _ (k, ks) failed
                (after_callback-Good (r ∷ rs) (r.cancel (r.error s).0) _ (k, ks) dropped
                  (more (r.cancel (r.error s).0).0 ks dropped after_drop)))
          | inr y ↦ rw y (record { rules = (k, ks); state = p })
        ])
        | inr x ↦ rw x (elim (Bool-cases (EventLoop.is_hung_up q e)) [
          | inl y ↦ rw y (
              after_callback-Good (r ∷ rs) (r.cancel s) _ (k, ks) cancelled
                (more (r.cancel s).0 ks cancelled after_cancel))
          | inr y ↦ rw y (elim (Bool-cases (EventLoop.is_ready q e)) [
            | inl z ↦ rw z (serve_ready-Good r rs s k ks p (a (is_ready-asked q e z)))
            | inr z ↦
                rw z (let o = more s ks p bs in record { rules = (k, o.rules); state = o.state })
          ])
        ])
      ]

  -- Every rule of the loop keeps P.
  pub record KeepsLoop (l : EventLoop S) : Type 0 where
    pub fd_rules : All KeepsRule l.fd_rules
    pub non_fd_rules : All KeepsBasic l.non_fd_rules

  pub record GoodWait (w : Waited S) : Type 0 where
    pub loop : KeepsLoop w.loop
    pub state : P w.state

  serve_polled-Good :
      (sockopt : ℕ → Bool) (polled : Polled) (l : EventLoop S) (ps : List PollFd) (s : S)
      → KeepsLoop l
      → P s
      → AllReady l.fd_rules ps s
      → GoodWait (serve_polled sockopt polled l ps s)
  serve_polled-Good sockopt polled l ps s k p a =
      let o = serve-Good sockopt polled.revents l.fd_rules ps 0 s k.fd_rules p a in
      elim (Option-cases polled.count) [
        | inl e ↦ rw e (record { loop = k; state = p })
        | inr (zero, e) ↦ rw e (record { loop = k; state = p })
        | inr (suc n, e) ↦ rw e (record {
          loop = record { fd_rules = o.rules; non_fd_rules = k.non_fd_rules };
          state = o.state;
        })
      ]

  after_set_up-Good :
      (sockopt : ℕ → Bool) (poll : List PollFd → Polled) (l : EventLoop S) (s : S)
      (o : Option (List PollFd))
      → KeepsLoop l
      → P s
      → ReadyResult l.fd_rules s o
      → GoodWait (after_set_up sockopt poll l s o)
  after_set_up-Good sockopt poll l s none k p a = record { loop = k; state = p }
  after_set_up-Good sockopt poll l s (some ps) k p a =
      elim (Bool-cases (EventLoop.something_to_poll ps)) [
        | inl e ↦ rw e (serve_polled-Good sockopt (poll ps) l ps s k p a)
        | inr e ↦ rw e (record { loop = k; state = p })
      ]

  wait_fds-Good :
      (sockopt : ℕ → Bool) (poll : List PollFd → Polled) (l : EventLoop S) (s : S)
      → KeepsLoop l
      → P s
      → GoodWait (wait_fds sockopt poll l s)
  wait_fds-Good sockopt poll l s k p =
      let g = set_up-Good l.fd_rules s k.fd_rules p in
      after_set_up-Good sockopt poll _ (set_up l.fd_rules s).state (set_up l.fd_rules s).result
        (record { fd_rules = g.rules; non_fd_rules = k.non_fd_rules }) g.state
        (set_up-AllReady l.fd_rules s k.fd_rules p)

  -- A call of `wait_next_event` keeps what the callbacks keep.
  pub wait_next_event-Good :
      (sockopt : ℕ → Bool) (poll : List PollFd → Polled) (l : EventLoop S) (s : S)
      → KeepsLoop l
      → P s
      → GoodWait (wait_next_event sockopt poll l s)
  unfolding wait_next_event
  wait_next_event-Good sockopt poll l s k p =
      let o = run_rules l.non_fd_rules s in
      let g = run_rules-Good l.non_fd_rules s k.non_fd_rules p in
      let k' : KeepsLoop (record l { non_fd_rules = o.rules }) = record {
        fd_rules = k.fd_rules;
        non_fd_rules = g.rules;
      } in
      elim (Option-cases o.result) [
        | inl e ↦ rw e (record { loop = k'; state = g.state })
        | inr (true, e) ↦ rw e (record { loop = k'; state = g.state })
        | inr (false, e) ↦ rw e (wait_fds-Good sockopt poll _ o.state k' g.state)
      ]
