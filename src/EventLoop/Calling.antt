-- ===== src/EventLoop/Calling.antt =====
-- Which calls the second loop of libsponge/util/eventloop.cc makes: they are decided by the flags
-- that poll(2) sets and by the events asked for, and then made in the rules' order.
use cs.Prelude.{
  arith, ℕ, suc, ◌≡◌, refl, sym, ap, ◌∙◌, Bool, true, false, not, ◌&&◌, ◌||◌, Option, List, [], ◌∷◌,
  ◌==◌, if◌then◌else◌, inl, inr, Bool-cases,
}
use cs.Outcome.{Outcome, returned, thrown, ◌>>=◌, then_assoc, then_eq}
use cs.EventLoop.{
  Rule, Direction, Revents, Entry, poll_ready, asked, service_count, serve, go_through, with_rule,
}

-- What is done about an entry.
pub data Action : Type 0 where
  failing : Action
  cancelled : Action
  called : Action
  left_alone : Action

abbrev pub broken : Revents → Bool
broken r = r.pollerr || r.pollnval

-- A flag of an error makes the turn fail. A descriptor with the event asked for is served, though it
-- hung up; one that hung up without it has its rule cancelled, where an event was asked for.
abbrev pub action : Revents → Option Direction → Action
action r events =
    if broken r
    then failing
    else if poll_ready r events
    then called
    else if r.pollhup && asked events
    then cancelled
    else left_alone

module _ {S : Type 0} where
  -- The calls that are due, in order.
  abbrev pub calls : (ℕ → Revents) → ℕ → List (Entry S) → List (Rule S × Action)
  calls revents idx [] = []
  calls revents idx ((rule, p) ∷ es) =
      (rule, action (revents idx) p.events) ∷ calls revents (suc idx) es

  -- The rules that stay: those that are not cancelled.
  abbrev pub staying : List (Rule S × Action) → List (Rule S)
  staying [] = []
  staying ((rule, failing) ∷ todo) = rule ∷ staying todo
  staying ((rule, cancelled) ∷ todo) = staying todo
  staying ((rule, called) ∷ todo) = rule ∷ staying todo
  staying ((rule, left_alone) ∷ todo) = rule ∷ staying todo

  -- A call in vain: nothing was read or written, and the rule is still interested.
  abbrev pub in_vain : Rule S → S → S → Bool
  in_vain rule s s' = (service_count rule s == service_count rule s') && rule.interest s'

  abbrev pub call : Rule S → S → Outcome S
  call rule s = rule.callback s >>= (λ s'. if in_vain rule s s' then thrown else returned s')

  abbrev pub make : List (Rule S × Action) → S → Outcome S
  make [] s = returned s
  make ((rule, failing) ∷ todo) s = thrown
  make ((rule, cancelled) ∷ todo) s = rule.cancel s >>= make todo
  make ((rule, called) ∷ todo) s = call rule s >>= make todo
  make ((rule, left_alone) ∷ todo) s = make todo s

  -- The result of the second loop: the rules that stay, and the state after the calls.
  abbrev pub outcome : List (Rule S × Action) → S → Outcome (List (Rule S) × S)
  outcome todo s = make todo s >>= (λ s'. returned (staying todo, s'))

  with_rule-outcome :
      (rule : Rule S) (todo : List (Rule S × Action)) (s : S)
      → with_rule rule (outcome todo s)
        ≡ (make todo s >>= (λ s'. returned (rule ∷ staying todo, s')))
  with_rule-outcome rule todo s = then_assoc (make todo s) _ _

  pub go_through-outcome :
      (revents : ℕ → Revents) (idx : ℕ) (es : List (Entry S)) (s : S)
      → go_through revents idx es s ≡ outcome (calls revents idx es) s
  unfolding go_through serve
  go_through-outcome revents idx [] s = refl
  go_through-outcome revents idx ((rule, p) ∷ es) s =
      let r : Revents = revents idx in
      let todo : List (Rule S × Action) = calls revents (suc idx) es in
      let rest : (s' : S) → go_through revents (suc idx) es s' ≡ outcome todo s' =
        go_through-outcome revents (suc idx) es in
      elim (Bool-cases (broken r)) [
        | inl bad ↦ rw bad refl
        | inr good ↦ elim (Bool-cases (poll_ready r p.events)) [
          | inl ready ↦
              let on : (r.pollhup && asked p.events && not (poll_ready r p.events)) ≡ false =
                ground (arith, ready) in
              rw (good, on, ready)
                (then_eq (serve rule s) _ _
                    (λ s'. ap (with_rule rule) (rest s') ∙ with_rule-outcome rule todo s')
                  ∙ sym (then_assoc (call rule s) (make todo) _))
          | inr unready ↦ elim (Bool-cases (r.pollhup && asked p.events)) [
            | inl hup ↦
                let off : (r.pollhup && asked p.events && not (poll_ready r p.events)) ≡ true =
                  ground (arith, unready, hup) in
                rw (good, off, unready, hup)
                  (then_eq (rule.cancel s) _ _ rest
                    ∙ sym (then_assoc (rule.cancel s) (make todo) _))
            | inr no_hup ↦
                let on : (r.pollhup && asked p.events && not (poll_ready r p.events)) ≡ false =
                  ground (arith, unready, no_hup) in
                rw (good, on, unready, no_hup)
                  (ap (with_rule rule) (rest s) ∙ with_rule-outcome rule todo s)
          ]
        ]
      ]
