-- ===== src/EventLoop.antt =====
-- util/eventloop.hh and util/eventloop.cc: rules whose callbacks run when their descriptor is ready, or, without a
-- descriptor, when they are interested. The callbacks work on a state of a type S, which has all that they
-- capture: the descriptors and the requests to cancel a rule, which handles make, are read from it. What `poll`
-- and `getsockopt` return are arguments. Rules that a callback adds to the loop that runs it are not modelled, nor is
-- the text of the error output.
pub mod Invariant
pub mod Iterations
mod Tests
use computer_networking.Prelude.{
  ℕ, zero, suc, ◌+◌, Bool, true, false, not, ◌&&◌, ◌||◌, Option, none, some, List, [], ◌∷◌, ◌++◌,
  length, ltb, leb, ◌==◌, if◌then◌else◌,
}
use computer_networking.FileDescriptor.{FdWrapper}

-- `enum class Direction` and `enum class Result`.
pub data Direction : Type 0 where
  direction_in : Direction
  direction_out : Direction

pub data Result : Type 0 where
  success : Result
  timeout : Result
  exit : Result

module _ (S : Type 0) where
  -- A callback: the state after it, and whether it returns without an exception.
  abbrev pub Callback : Type 0
  Callback = S → S × Bool

  -- `struct BasicRule` and `struct FDRule`.
  pub record BasicRule : Type 0 where
    pub category_id : ℕ
    pub interest : S → Bool
    pub callback : Callback
    pub cancel_requested : S → Bool

  pub record FdRule : Type 0 where
    pub base : BasicRule
    pub fd : S → FdWrapper
    pub direction : Direction
    pub cancel : Callback
    pub error : Callback

  -- `class EventLoop`; a category is its name, here a number.
  pub record EventLoop : Type 0 where
    pub rule_categories : List ℕ
    pub fd_rules : List FdRule
    pub non_fd_rules : List BasicRule

-- `EventLoop()`, with room for 64 categories.
abbrev pub init : {S : Type 0} → EventLoop S
init = record { rule_categories = []; fd_rules = []; non_fd_rules = [] }

-- `add_category`, and the two of `add_rule`; `none` is an exception.
unfoldable pub add_category : {S : Type 0} → ℕ → EventLoop S → Option (EventLoop S × ℕ)
add_category name l =
    if leb 64 (length l.rule_categories)
    then none
    else some
        (record l { rule_categories = l.rule_categories ++ name ∷ [] }, length l.rule_categories)

unfoldable pub add_fd_rule : {S : Type 0} → FdRule S → EventLoop S → Option (EventLoop S)
add_fd_rule r l =
    if leb (length l.rule_categories) r.base.category_id
    then none
    else some (record l { fd_rules = l.fd_rules ++ r ∷ [] })

unfoldable pub add_rule : {S : Type 0} → BasicRule S → EventLoop S → Option (EventLoop S)
add_rule r l =
    if leb (length l.rule_categories) r.category_id
    then none
    else some (record l { non_fd_rules = l.non_fd_rules ++ r ∷ [] })

-- What `poll` is asked about a descriptor, and what it says of it.
pub record PollFd : Type 0 where
  pub fd : ℕ
  pub asked : Bool
  pub direction : Direction

pub record Revents : Type 0 where
  pub err : Bool
  pub hup : Bool
  pub readable : Bool
  pub writable : Bool

-- The number that `poll` returns, if it does not fail, and the conditions by index.
pub record Polled : Type 0 where
  pub count : Option ℕ
  pub revents : ℕ → Revents

-- `FDRule::service_count`.
abbrev pub service_count : {S : Type 0} → FdRule S → S → ℕ
service_count r s = elim r.direction [
  | direction_in ↦ (r.fd s).read_count
  | direction_out ↦ (r.fd s).write_count
]

-- The state after a part of the loop, what is left of the rules, and what the part returns: `none` is an exception.
pub record Served (R : Type 0) (S : Type 0) (A : Type 0) : Type 0 where
  pub rules : List R
  pub state : S
  pub result : Option A

-- A rule that stays.
abbrev pub keep : {R S A : Type 0} → R → Served R S A → Served R S A
keep r o = record o { rules = r ∷ o.rules }

-- The `while` loop of a rule without a descriptor: whether it has fired; `none` is the exception of a busy wait, where the
-- rule is still interested after as many iterations as are left.
unfoldable pub fire : {S : Type 0} → ℕ → BasicRule S → Bool → S → S × Option Bool
fire zero r fired s = if r.interest s then (s, none) else (s, some fired)
fire (suc n) r fired s =
    let (s', returned) = r.callback s in
    let more = fire n r true s' in
    if r.interest s then (if returned then more else (s', none)) else (s, some fired)

abbrev pub max_iterations : ℕ
max_iterations = 128

-- The first part of `wait_next_event`: whether a rule without a descriptor has fired.
abbrev pub after_fire :
    {S : Type 0}
    → BasicRule S
    → List (BasicRule S)
    → S × Option Bool
    → Served (BasicRule S) S Bool
    → Served (BasicRule S) S Bool
after_fire r rs (s, none) rest = record { rules = r ∷ rs; state = s; result = none }
after_fire r rs (s, some true) rest = record { rules = r ∷ rs; state = s; result = some true }
after_fire r rs (s, some false) rest = keep r rest

unfoldable pub run_rules : {S : Type 0} → List (BasicRule S) → S → Served (BasicRule S) S Bool
run_rules [] s = record { rules = []; state = s; result = some false }
run_rules (r ∷ rs) s =
    let erased = run_rules rs s in
    let fired = fire max_iterations r false s in
    let rest = run_rules rs fired.0 in
    if r.cancel_requested s then erased else after_fire r rs fired rest

-- A callback whose exception ends the part.
abbrev pub after_callback : {R S A : Type 0} → List R → S × Bool → Served R S A → Served R S A
after_callback rules (s, false) rest = record { rules = rules; state = s; result = none }
after_callback rules (s, true) rest = rest

-- The second part: which descriptors are polled. A rule at its end is cancelled and erased.
abbrev pub is_defunct : {S : Type 0} → FdRule S → S → Bool
is_defunct r s = elim r.direction [
  | direction_in ↦ (r.fd s).eof || (r.fd s).closed
  | direction_out ↦ (r.fd s).closed
]

abbrev pub poll_fd : {S : Type 0} → FdRule S → S → PollFd
poll_fd r s = record { fd = (r.fd s).fd; asked = r.base.interest s; direction = r.direction }

abbrev pub poll_more :
    {R S : Type 0} → R → PollFd → Served R S (List PollFd) → Served R S (List PollFd)
poll_more r p o = record {
  rules = r ∷ o.rules;
  state = o.state;
  result = elim o.result [ none ↦ none | some ps ↦ some (p ∷ ps) ];
}

unfoldable pub set_up : {S : Type 0} → List (FdRule S) → S → Served (FdRule S) S (List PollFd)
set_up [] s = record { rules = []; state = s; result = some [] }
set_up (r ∷ rs) s =
    let erased = set_up rs s in
    let cancelled = r.cancel s in
    let rest = set_up rs cancelled.0 in
    if r.base.cancel_requested s
    then erased
    else (if is_defunct r s
        then after_callback (r ∷ rs) cancelled rest
        else poll_more r (poll_fd r s) erased)

abbrev pub something_to_poll : List PollFd → Bool
something_to_poll [] = false
something_to_poll (p ∷ ps) = p.asked || something_to_poll ps

-- The third part: the poll results, with `getsockopt` on a descriptor in error. It succeeds as a whole; `some` is its
-- return, with a rule served or not.
abbrev pub is_ready : PollFd → Revents → Bool
is_ready p e = elim p.direction [
  | direction_in ↦ p.asked && e.readable
  | direction_out ↦ p.asked && e.writable
]

abbrev pub is_out : Direction → Bool
is_out direction_in = false
is_out direction_out = true

abbrev pub is_hung_up : PollFd → Revents → Bool
is_hung_up p e = e.hup && ((p.asked && not (is_ready p e)) || is_out p.direction)

-- The callback of a ready rule, and the test for a busy wait after it.
abbrev pub is_busy : {S : Type 0} → FdRule S → S → S → Bool
is_busy r before after =
    (service_count r before == service_count r after)
    && not (r.fd after).closed
    && r.base.interest after

unfoldable pub serve_ready :
    {S : Type 0} → FdRule S → List (FdRule S) → S → Served (FdRule S) S (Unit {0})
serve_ready r rs s =
    let (s', returned) = r.base.callback s in
    record {
      rules = r ∷ rs;
      state = s';
      result = if not returned || is_busy r s s' then none else some tt;
    }

unfoldable pub serve :
    {S : Type 0}
    → (ℕ → Bool)
    → (ℕ → Revents)
    → List (FdRule S)
    → List PollFd
    → ℕ
    → S
    → Served (FdRule S) S (Unit {0})
serve sockopt revents [] ps idx s = record { rules = []; state = s; result = some tt }
serve sockopt revents (r ∷ rs) [] idx s = record { rules = r ∷ rs; state = s; result = none }
serve sockopt revents (r ∷ rs) (p ∷ ps) idx s =
    let e = revents idx in
    let failed = r.error s in
    let dropped = r.cancel failed.0 in
    let cancelled = r.cancel s in
    let on_error = serve sockopt revents rs ps (suc idx) dropped.0 in
    let on_hangup = serve sockopt revents rs ps (suc idx) cancelled.0 in
    let more = serve sockopt revents rs ps (suc idx) s in
    if e.err
    then (if sockopt p.fd
        then after_callback (r ∷ rs) failed (after_callback (r ∷ rs) dropped on_error)
        else record { rules = r ∷ rs; state = s; result = none })
    else (if is_hung_up p e
        then after_callback (r ∷ rs) cancelled on_hangup
        else (if is_ready p e then serve_ready r rs s else keep r more))

-- The loop after `wait_next_event`, and what it returns.
pub record Waited (S : Type 0) : Type 0 where
  pub loop : EventLoop S
  pub state : S
  pub result : Option Result

abbrev pub to_result : Option (Unit {0}) → Option Result
to_result none = none
to_result (some u) = some success

abbrev pub serve_polled :
    {S : Type 0} → (ℕ → Bool) → Polled → EventLoop S → List PollFd → S → Waited S
serve_polled sockopt polled l ps s =
    let o = serve sockopt polled.revents l.fd_rules ps 0 s in
    elim polled.count [
      | none ↦ record { loop = l; state = s; result = none }
      | some zero ↦ record { loop = l; state = s; result = some timeout }
      | some (suc n) ↦ record {
        loop = record l { fd_rules = o.rules };
        state = o.state;
        result = to_result o.result;
      }
    ]

abbrev pub after_set_up :
    {S : Type 0}
    → (ℕ → Bool)
    → (List PollFd → Polled)
    → EventLoop S
    → S
    → Option (List PollFd)
    → Waited S
after_set_up sockopt poll l s none = record { loop = l; state = s; result = none }
after_set_up sockopt poll l s (some ps) =
    if something_to_poll ps
    then serve_polled sockopt (poll ps) l ps s
    else record { loop = l; state = s; result = some exit }

abbrev pub wait_fds :
    {S : Type 0} → (ℕ → Bool) → (List PollFd → Polled) → EventLoop S → S → Waited S
wait_fds sockopt poll l s =
    let o = set_up l.fd_rules s in
    after_set_up sockopt poll (record l { fd_rules = o.rules }) o.state o.result

abbrev pub after_rules :
    {S : Type 0}
    → (ℕ → Bool)
    → (List PollFd → Polled)
    → EventLoop S
    → Served (BasicRule S) S Bool
    → Waited S
after_rules sockopt poll l o =
    let l' = record l { non_fd_rules = o.rules } in
    elim o.result [
      | none ↦ record { loop = l'; state = o.state; result = none }
      | some true ↦ record { loop = l'; state = o.state; result = some success }
      | some false ↦ wait_fds sockopt poll l' o.state
    ]

-- `EventLoop::wait_next_event`.
unfoldable pub wait_next_event :
    {S : Type 0} → (ℕ → Bool) → (List PollFd → Polled) → EventLoop S → S → Waited S
wait_next_event sockopt poll l s = after_rules sockopt poll l (run_rules l.non_fd_rules s)
