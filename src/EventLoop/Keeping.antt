-- ===== src/EventLoop/Keeping.antt =====
-- What one turn of the event loop (libsponge/util/eventloop.cc) keeps: a property that each rule's
-- callbacks keep, and the order of the rules that are left.
use cs.Prelude.{
  ℕ, suc, All, not, ◌&&◌, ◌||◌, Option, List, [], ◌∷◌, ◌==◌, if◌then◌else◌, inl, inr, Bool-cases,
}
use cs.Outcome.{Outcome, returned, thrown, Holds, Holds-then, Holds-weaken}
use cs.EventLoop.{
  Rule, PollFd, Polled, Revents, Result, exit, set_up, serve, go_through, after_poll,
  wait_next_event, Entry, rules_of, polls_of, finished, something_to_poll, service_count, asked,
  poll_ready, eintr, no_events, timed_out, failed, polled, succeeded, with_rule,
}

-- The first list is the second with some members left out.
pub data Subsequence {ℓ} {A : Type ℓ} : List A → List A → Type ℓ where
  done : Subsequence [] []
  kept : (x : A) {xs ys : List A} → Subsequence xs ys → Subsequence (x ∷ xs) (x ∷ ys)
  dropped : (x : A) {xs ys : List A} → Subsequence xs ys → Subsequence xs (x ∷ ys)

pub Subsequence-same {ℓ} : {A : Type ℓ} (xs : List A) → Subsequence xs xs
Subsequence-same [] = done
Subsequence-same (x ∷ xs) = kept x (Subsequence-same xs)

pub Subsequence-then {ℓ} :
    {A : Type ℓ} {xs ys zs : List A} → Subsequence xs ys → Subsequence ys zs → Subsequence xs zs
Subsequence-then s done = s
Subsequence-then (kept x s) (kept y t) = kept x (Subsequence-then s t)
Subsequence-then (dropped x s) (kept y t) = dropped x (Subsequence-then s t)
Subsequence-then s (dropped y t) = dropped y (Subsequence-then s t)

pub All-Subsequence {ℓ} :
    {A : Type ℓ} (P : A → Type 0) {xs ys : List A} → Subsequence xs ys → All P ys → All P xs
All-Subsequence P done h = tt
All-Subsequence P (kept x s) h = (h.0, All-Subsequence P s h.1)
All-Subsequence P (dropped x s) h = All-Subsequence P s h.1

module _ {S : Type 0} (I : S → Type 0) where
  -- A rule's callbacks keep a property of the state.
  pub record Keeps (rule : Rule S) : Type 0 where
    pub callback : (s : S) → I s → Holds I (rule.callback s)
    pub cancel : (s : S) → I s → Holds I (rule.cancel s)

  -- What a pass leaves of these rules, in order, and of the state.
  abbrev pub Left : List (Rule S) → List (Rule S) × S → Type 0
  Left rules r = Subsequence r.0 rules × I r.1

  abbrev pub LeftEntries : List (Rule S) → List (Entry S) × S → Type 0
  LeftEntries rules r = Subsequence (rules_of r.0) rules × I r.1

  pub set_up-Left :
      (rules : List (Rule S)) (s : S)
      → All Keeps rules
      → I s
      → Holds (LeftEntries rules) (set_up rules s)
  unfolding set_up
  set_up-Left [] s h i = (done, i)
  set_up-Left (rule ∷ rules) s h i = elim (Bool-cases (finished rule s)) [
    | inl over ↦ rw over (
        Holds-then I (LeftEntries (rule ∷ rules)) (rule.cancel s) (set_up rules) (h.0.cancel s i)
          (λ s' i'.
            Holds-weaken (LeftEntries rules) (LeftEntries (rule ∷ rules)) (set_up rules s')
              (λ r l. (dropped rule l.0, l.1)) (set_up-Left rules s' h.1 i')))
    | inr on ↦ rw on (
        Holds-then (LeftEntries rules) (LeftEntries (rule ∷ rules)) (set_up rules s) _
          (set_up-Left rules s h.1 i) (λ r l. (kept rule l.0, l.1)))
  ]

  serve-Keeps : (rule : Rule S) (s : S) → Keeps rule → I s → Holds I (serve rule s)
  unfolding serve
  serve-Keeps rule s h i =
      Holds-then I I (rule.callback s) _ (h.callback s i) (λ s' i'. checked s' i')
    where
      checked :
          (s' : S)
          → I s'
          → Holds I (
              if (service_count rule s == service_count rule s') && rule.interest s'
              then thrown
              else returned s')
      checked s' i' =
          elim (Bool-cases ((service_count rule s == service_count rule s') && rule.interest s')) [
            | inl idle ↦ rw idle tt
            | inr busy ↦ rw busy i'
          ]

  go_on :
      (rule : Rule S) (rules : List (Rule S)) (m : Outcome (List (Rule S) × S))
      → Holds (Left rules) m
      → Holds (Left (rule ∷ rules)) (with_rule rule m)
  go_on rule rules m h =
      Holds-then (Left rules) (Left (rule ∷ rules)) m _ h (λ r l. (kept rule l.0, l.1))

  go_without :
      (rule : Rule S) (rules : List (Rule S)) (m : Outcome (List (Rule S) × S))
      → Holds (Left rules) m
      → Holds (Left (rule ∷ rules)) m
  go_without rule rules m h = Holds-weaken (Left rules) _ m (λ r l. (dropped rule l.0, l.1)) h

  go_through-Left :
      (revents : ℕ → Revents) (idx : ℕ) (es : List (Entry S)) (s : S)
      → All Keeps (rules_of es)
      → I s
      → Holds (Left (rules_of es)) (go_through revents idx es s)
  unfolding go_through
  go_through-Left revents idx [] s h i = (done, i)
  go_through-Left revents idx ((rule, p) ∷ es) s h i =
      elim (Bool-cases ((revents idx).pollerr || (revents idx).pollnval)) [
        | inl bad ↦ rw bad tt
        | inr good ↦
            rw good
              (elim (Bool-cases (
                (revents idx).pollhup
                && asked p.events
                && not (poll_ready (revents idx) p.events))) [
                  | inl hup ↦ rw hup (
                      Holds-then I _ (rule.cancel s) _ (h.0.cancel s i) (λ s' i'.
                        go_without rule (rules_of es) (go_through revents (suc idx) es s')
                          (go_through-Left revents (suc idx) es s' h.1 i')))
                  | inr no_hup ↦ rw no_hup (elim (Bool-cases (poll_ready (revents idx) p.events)) [
                    | inl ready ↦ rw ready (
                        Holds-then I _ (serve rule s) _ (serve-Keeps rule s h.0 i) (λ s' i'.
                          go_on rule (rules_of es) (go_through revents (suc idx) es s')
                            (go_through-Left revents (suc idx) es s' h.1 i')))
                    | inr unready ↦ rw unready (
                        go_on rule (rules_of es) (go_through revents (suc idx) es s)
                          (go_through-Left revents (suc idx) es s h.1 i))
                  ])
                ])
      ]

  abbrev pub Done : List (Rule S) → Result × List (Rule S) × S → Type 0
  Done rules r = Subsequence r.1 rules × I r.2

  succeeded-Done :
      (rules : List (Rule S)) (m : Outcome (List (Rule S) × S))
      → Holds (Left rules) m
      → Holds (Done rules) (succeeded m)
  succeeded-Done rules m h = Holds-then (Left rules) (Done rules) m _ h (λ r l. l)

  after_poll-Done :
      (es : List (Entry S)) (a : Polled × S)
      → All Keeps (rules_of es)
      → I a.1
      → Holds (Done (rules_of es)) (after_poll es a)
  unfolding after_poll
  after_poll-Done es (timed_out, s) h i = (Subsequence-same _, i)
  after_poll-Done es (failed errno, s) h i = elim (Bool-cases (errno == eintr)) [
    | inl e ↦ rw e (Subsequence-same _, i)
    | inr e ↦ rw e (
        succeeded-Done (rules_of es) (go_through (λ j. no_events) 0 es s)
          (go_through-Left (λ j. no_events) 0 es s h i))
  ]
  after_poll-Done es (polled revents, s) h i =
      succeeded-Done (rules_of es) (go_through revents 0 es s) (go_through-Left revents 0 es s h i)

  -- After one turn of the loop that returns, whatever `poll` answers: a property that `poll` and the callbacks of each
  -- rule keep holds of the state at its end, and the rules left are rules from before, in their order.
  pub wait_next_event-Done :
      (poll : List PollFd → Option ℕ → S → Polled × S) (timeout_ms : Option ℕ)
      (rules : List (Rule S)) (s : S)
      → ((ps : List PollFd) (t : Option ℕ) (s : S) → I s → I (poll ps t s).1)
      → All Keeps rules
      → I s
      → Holds (Done rules) (wait_next_event poll timeout_ms rules s)
  unfolding wait_next_event
  wait_next_event-Done poll timeout_ms rules s p h i =
      Holds-then (LeftEntries rules) (Done rules) (set_up rules s) _ (set_up-Left rules s h i)
        asked_next
    where
      asked_next :
          (r : List (Entry S) × S)
          → LeftEntries rules r
          → Holds (Done rules) (
              if something_to_poll r.0
              then after_poll r.0 (poll (polls_of r.0) timeout_ms r.1)
              else returned (exit, rules_of r.0, r.1))
      asked_next (es, s') l = elim (Bool-cases (something_to_poll es)) [
        | inl some_asked ↦ rw some_asked (
            Holds-weaken (Done (rules_of es)) (Done rules)
              (after_poll es (poll (polls_of es) timeout_ms s'))
              (λ r d. (Subsequence-then d.0 l.0, d.1))
              (after_poll-Done es (poll (polls_of es) timeout_ms s') (All-Subsequence Keeps l.0 h)
                (p (polls_of es) timeout_ms s' l.1)))
        | inr none_asked ↦ rw none_asked l
      ]
