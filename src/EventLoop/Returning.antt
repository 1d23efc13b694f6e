-- ===== src/EventLoop/Returning.antt =====
-- When a turn of the event loop (libsponge/util/eventloop.cc) throws no exception.
use cs.Prelude.{
  All, ℕ, suc, ◌≡◌, refl, false, not, ◌&&◌, ◌||◌, Option, List, [], ◌∷◌, ◌==◌, if◌then◌else◌, inl,
  inr, Bool-cases,
}
use cs.Outcome.{Outcome, returned, Returns, Returns-then, Returns-weaken}
use cs.EventLoop.{
  Rule, PollFd, Polled, Revents, exit, set_up, serve, go_through, after_poll, wait_next_event,
  Entry, rules_of, polls_of, finished, something_to_poll, asked, poll_ready, eintr, no_events,
  timed_out, failed, polled, succeeded, with_rule,
}
use cs.EventLoop.Keeping.{
  Subsequence, Subsequence-same, Subsequence-then, All-Subsequence, Left, LeftEntries, Done, kept,
  dropped,
}

-- No entry has an error.
abbrev pub NoError : Polled → Type 0
NoError timed_out = Unit {0}
NoError (failed errno) = Unit {0}
NoError (polled revents) = (i : ℕ) → ((revents i).pollerr || (revents i).pollnval) ≡ false

module _ {S : Type 0} (I : S → Type 0) where
  -- In a state with the property a rule can be serviced and cancelled, and the property stays.
  pub record Serves (rule : Rule S) : Type 0 where
    pub served : (s : S) → I s → Returns I (serve rule s)
    pub cancelled : (s : S) → I s → Returns I (rule.cancel s)

  set_up-Returns :
      (rules : List (Rule S)) (s : S)
      → All Serves rules
      → I s
      → Returns (LeftEntries I rules) (set_up rules s)
  unfolding set_up
  set_up-Returns [] s h i = (Subsequence.done, i)
  set_up-Returns (rule ∷ rules) s h i = elim (Bool-cases (finished rule s)) [
    | inl over ↦ rw over (
        Returns-then I (LeftEntries I (rule ∷ rules)) (rule.cancel s) (set_up rules)
          (h.0.cancelled s i)
          (λ s' i'.
            Returns-weaken (LeftEntries I rules) (LeftEntries I (rule ∷ rules)) (set_up rules s')
              (λ r l. (dropped rule l.0, l.1)) (set_up-Returns rules s' h.1 i')))
    | inr on ↦ rw on (
        Returns-then (LeftEntries I rules) (LeftEntries I (rule ∷ rules)) (set_up rules s) _
          (set_up-Returns rules s h.1 i) (λ r l. (kept rule l.0, l.1)))
  ]

  go_on :
      (rule : Rule S) (rules : List (Rule S)) (m : Outcome (List (Rule S) × S))
      → Returns (Left I rules) m
      → Returns (Left I (rule ∷ rules)) (with_rule rule m)
  go_on rule rules m h =
      Returns-then (Left I rules) (Left I (rule ∷ rules)) m _ h (λ r l. (kept rule l.0, l.1))

  go_through-Returns :
      (revents : ℕ → Revents) (idx : ℕ) (es : List (Entry S)) (s : S)
      → NoError (polled revents)
      → All Serves (rules_of es)
      → I s
      → Returns (Left I (rules_of es)) (go_through revents idx es s)
  unfolding go_through
  go_through-Returns revents idx [] s ok h i = (Subsequence.done, i)
  go_through-Returns revents idx ((rule, p) ∷ es) s ok h i =
      rw (ok idx)
        (elim (Bool-cases
          ((revents idx).pollhup && asked p.events && not (poll_ready (revents idx) p.events))) [
            | inl hup ↦ rw hup (
                Returns-then I _ (rule.cancel s) _ (h.0.cancelled s i) (λ s' i'.
                  Returns-weaken (Left I (rules_of es)) _ (go_through revents (suc idx) es s')
                    (λ r l. (dropped rule l.0, l.1))
                    (go_through-Returns revents (suc idx) es s' ok h.1 i')))
            | inr no_hup ↦ rw no_hup (elim (Bool-cases (poll_ready (revents idx) p.events)) [
              | inl ready ↦ rw ready (
                  Returns-then I _ (serve rule s) _ (h.0.served s i) (λ s' i'.
                    go_on rule (rules_of es) (go_through revents (suc idx) es s')
                      (go_through-Returns revents (suc idx) es s' ok h.1 i')))
              | inr unready ↦ rw unready (
                  go_on rule (rules_of es) (go_through revents (suc idx) es s)
                    (go_through-Returns revents (suc idx) es s ok h.1 i))
            ])
          ])

  succeeded-Returns :
      (rules : List (Rule S)) (m : Outcome (List (Rule S) × S))
      → Returns (Left I rules) m
      → Returns (Done I rules) (succeeded m)
  succeeded-Returns rules m h = Returns-then (Left I rules) (Done I rules) m _ h (λ r l. l)

  after_poll-Returns :
      (es : List (Entry S)) (a : Polled × S)
      → NoError a.0
      → All Serves (rules_of es)
      → I a.1
      → Returns (Done I (rules_of es)) (after_poll es a)
  unfolding after_poll
  after_poll-Returns es (timed_out, s) ok h i = (Subsequence-same _, i)
  after_poll-Returns es (failed errno, s) ok h i = elim (Bool-cases (errno == eintr)) [
    | inl e ↦ rw e (Subsequence-same _, i)
    | inr e ↦ rw e (
        succeeded-Returns (rules_of es) (go_through (λ j. no_events) 0 es s)
          (go_through-Returns (λ j. no_events) 0 es s (λ j. refl) h i))
  ]
  after_poll-Returns es (polled revents, s) ok h i =
      succeeded-Returns (rules_of es) (go_through revents 0 es s)
        (go_through-Returns revents 0 es s ok h i)

  -- A turn of rules that can be serviced and cancelled returns, where `poll` reports no error of an
  -- entry, and leaves a state with the property and rules from before, in their order.
  pub wait_next_event-Returns :
      (poll : List PollFd → Option ℕ → S → Polled × S) (timeout_ms : Option ℕ)
      (rules : List (Rule S)) (s : S)
      → ((ps : List PollFd) (t : Option ℕ) (s : S) → I s → I (poll ps t s).1)
      → ((ps : List PollFd) (t : Option ℕ) (s : S) → NoError (poll ps t s).0)
      → All Serves rules
      → I s
      → Returns (Done I rules) (wait_next_event poll timeout_ms rules s)
  unfolding wait_next_event
  wait_next_event-Returns poll timeout_ms rules s p ok h i =
      Returns-then (LeftEntries I rules) (Done I rules) (set_up rules s) _
        (set_up-Returns rules s h i) polled_next
    where
      polled_next :
          (r : List (Entry S) × S)
          → LeftEntries I rules r
          → Returns (Done I rules) (
              if something_to_poll r.0
              then after_poll r.0 (poll (polls_of r.0) timeout_ms r.1)
              else returned (exit, rules_of r.0, r.1))
      polled_next (es, s') l = elim (Bool-cases (something_to_poll es)) [
        | inl some_asked ↦ rw some_asked (
            Returns-weaken (Done I (rules_of es)) (Done I rules)
              (after_poll es (poll (polls_of es) timeout_ms s'))
              (λ r d. (Subsequence-then d.0 l.0, d.1))
              (after_poll-Returns es (poll (polls_of es) timeout_ms s')
                (ok (polls_of es) timeout_ms s') (All-Subsequence Serves l.0 h)
                (p (polls_of es) timeout_ms s' l.1)))
        | inr none_asked ↦ rw none_asked l
      ]
