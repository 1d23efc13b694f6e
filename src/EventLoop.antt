-- ===== src/EventLoop.antt =====
-- libsponge/util/eventloop.hh and eventloop.cc: rules that wait for a descriptor to be readable or
-- writable. What the callbacks work on is a state that the loop hands from one to the next, with the
-- kernel in it; a rule's duplicate of a descriptor is a place in that state.
pub mod Keeping
pub mod Polling
pub mod Calling
pub mod Returning
mod Tests
use cs.Prelude.{
  ℕ, suc, ◌≡◌, Bool, true, false, not, ◌&&◌, ◌||◌, Option, none, some, List, [], ◌∷◌, ◌++◌, map,
  ◌==◌, if◌then◌else◌,
}
use cs.Outcome.{Outcome, returned, thrown, ◌>>=◌}
use cs.FileDescriptor.{FileDescriptor}

pub data Direction : Type 0 where
  into : Direction
  out : Direction

pub record Rule (S : Type 0) : Type 0 where
  pub fd : S → FileDescriptor
  pub direction : Direction
  pub callback : S → Outcome S
  pub interest : S → Bool
  pub cancel : S → Outcome S

-- One entry for poll(2): the descriptor's number and the event asked for, if any.
pub record PollFd : Type 0 where
  pub fd : ℕ
  pub events : Option Direction

-- The flags that poll(2) sets for an entry.
pub record Revents : Type 0 where
  pub pollin : Bool
  pub pollout : Bool
  pub pollerr : Bool
  pub pollnval : Bool
  pub pollhup : Bool

-- What poll(2) comes to: a time-out, an error with its number, or the flags of each entry.
pub data Polled : Type 0 where
  timed_out : Polled
  failed : ℕ → Polled
  polled : (ℕ → Revents) → Polled

pub data Result : Type 0 where
  success : Result
  timeout : Result
  exit : Result

abbrev pub no_events : Revents
no_events = record {
  pollin = false;
  pollout = false;
  pollerr = false;
  pollnval = false;
  pollhup = false;
}

-- `EINTR`.
abbrev pub eintr : ℕ
eintr = 4

abbrev pub is_in : Direction → Bool
is_in Direction.into = true
is_in Direction.out = false

-- `revents & events`.
abbrev pub poll_ready : Revents → Option Direction → Bool
poll_ready r none = false
poll_ready r (some Direction.into) = r.pollin
poll_ready r (some Direction.out) = r.pollout

-- `events` as a condition.
abbrev pub asked : Option Direction → Bool
asked none = false
asked (some d) = true

-- A rule that is kept, with the entry that is made for it.
abbrev pub Entry : Type 0 → Type 0
Entry S = Rule S × PollFd

module _ {S : Type 0} where
  unfoldable pub service_count : Rule S → S → ℕ
  service_count rule s =
      if is_in rule.direction then (rule.fd s).read_count else (rule.fd s).write_count

  -- `add_rule`, at the list's end.
  abbrev pub add_rule : Rule S → List (Rule S) → List (Rule S)
  add_rule rule rules = rules ++ rule ∷ []

  -- The rule has nothing more to wait for.
  unfoldable pub finished : Rule S → S → Bool
  finished rule s = is_in rule.direction && (rule.fd s).eof || (rule.fd s).closed

  -- What is asked for a rule that goes on.
  unfoldable pub events_of : Rule S → S → Option Direction
  events_of rule s = if rule.interest s then some rule.direction else none

  unfoldable pub entry : Rule S → S → Entry S
  unfolding events_of
  entry rule s = (rule, record { fd = (rule.fd s).fd; events = events_of rule s })

  abbrev pub with_entry : Entry S → Outcome (List (Entry S) × S) → Outcome (List (Entry S) × S)
  with_entry e m = m >>= (λ (es, s). returned (e ∷ es, s))

  -- The first loop: rules that are finished are cancelled and erased.
  unfoldable pub set_up : List (Rule S) → S → Outcome (List (Entry S) × S)
  unfolding entry finished
  set_up [] s = returned ([], s)
  set_up (rule ∷ rules) s =
      if finished rule s
      then rule.cancel s >>= set_up rules
      else with_entry (entry rule s) (set_up rules s)

  unfoldable pub something_to_poll : List (Entry S) → Bool
  something_to_poll [] = false
  something_to_poll ((rule, p) ∷ es) = asked p.events || something_to_poll es

  -- The callback of a rule that is ready, and the check that it is not called in vain.
  unfoldable pub serve : Rule S → S → Outcome S
  unfolding service_count
  serve rule s = rule.callback s >>= (λ s'.
      if (service_count rule s == service_count rule s') && rule.interest s'
      then thrown
      else returned s')

  abbrev pub with_rule : Rule S → Outcome (List (Rule S) × S) → Outcome (List (Rule S) × S)
  with_rule rule m = m >>= (λ (rules, s). returned (rule ∷ rules, s))

  -- The second loop, from entry `idx` on.
  unfoldable pub go_through : (ℕ → Revents) → ℕ → List (Entry S) → S → Outcome (List (Rule S) × S)
  unfolding serve
  go_through revents idx [] s = returned ([], s)
  go_through revents idx ((rule, p) ∷ es) s =
      let r : Revents = revents idx in
      if r.pollerr || r.pollnval
      then thrown
      else if r.pollhup && asked p.events && not (poll_ready r p.events)
      then rule.cancel s >>= go_through revents (suc idx) es
      else if poll_ready r p.events
      then serve rule s >>= (λ s'. with_rule rule (go_through revents (suc idx) es s'))
      else with_rule rule (go_through revents (suc idx) es s)

  abbrev pub rules_of : List (Entry S) → List (Rule S)
  rules_of [] = []
  rules_of ((rule, p) ∷ es) = rule ∷ rules_of es

  abbrev pub polls_of : List (Entry S) → List PollFd
  polls_of [] = []
  polls_of ((rule, p) ∷ es) = p ∷ polls_of es

  abbrev pub succeeded : Outcome (List (Rule S) × S) → Outcome (Result × List (Rule S) × S)
  succeeded m = m >>= (λ (rules, s). returned (success, rules, s))

  -- From the answer of `poll` on. An error that is not `EINTR` is caught and leaves no flag set.
  unfoldable pub after_poll : List (Entry S) → Polled × S → Outcome (Result × List (Rule S) × S)
  unfolding go_through
  after_poll es (timed_out, s) = returned (timeout, rules_of es, s)
  after_poll es (failed errno, s) =
      if errno == eintr
      then returned (exit, rules_of es, s)
      else succeeded (go_through (λ i. no_events) 0 es s)
  after_poll es (polled revents, s) = succeeded (go_through revents 0 es s)

  -- The time-out is `none` where the source's is negative.
  unfoldable pub wait_next_event :
      (List PollFd → Option ℕ → S → Polled × S)
      → Option ℕ
      → List (Rule S)
      → S
      → Outcome (Result × List (Rule S) × S)
  unfolding set_up after_poll something_to_poll
  wait_next_event poll timeout_ms rules s = set_up rules s >>= (λ (es, s').
      if something_to_poll es
      then after_poll es (poll (polls_of es) timeout_ms s')
      else returned (exit, rules_of es, s'))
