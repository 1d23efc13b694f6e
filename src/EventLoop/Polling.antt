-- ===== src/EventLoop/Polling.antt =====
-- What the answer of `poll` makes of a turn of the event loop (libsponge/util/eventloop.cc).
use cs.Prelude.{
  ℕ, suc, ◌≡◌, refl, ap, ◌∙◌, Bool, true, false, not, ◌&&◌, ◌||◌, Option, none, some, List, [], ◌∷◌,
  ◌==◌, if◌then◌else◌, inl, inr, Bool-cases,
}
use cs.Outcome.{Outcome, returned, thrown, ◌>>=◌}
use cs.EventLoop.{
  Direction, Rule, PollFd, Polled, Revents, success, set_up, serve, go_through, after_poll,
  wait_next_event, Entry, rules_of, polls_of, something_to_poll, asked, poll_ready, eintr,
  no_events, failed, with_rule,
}

nothing_ready : (o : Option Direction) → poll_ready no_events o ≡ false
nothing_ready none = refl
nothing_ready (some Direction.into) = refl
nothing_ready (some Direction.out) = refl

or_false : {a b : Bool} → a ≡ false → b ≡ false → a || b ≡ false
or_false e f = rw (e, f) refl

and_false : {a : Bool} (b : Bool) → a ≡ false → a && b ≡ false
and_false b e = rw e refl

module _ {S : Type 0} where
  go_through-no_events :
      (idx : ℕ) (es : List (Entry S)) (s : S)
      → go_through (λ i. no_events) idx es s ≡ returned (rules_of es, s)
  unfolding go_through
  go_through-no_events idx [] s = refl
  go_through-no_events idx ((rule, p) ∷ es) s =
      rw (nothing_ready p.events, go_through-no_events (suc idx) es s)

  -- Where `poll` fails with an error that is not `EINTR`, the turn is a success and no callback is
  -- called: the rules and the state are those that the first loop and `poll` left.
  pub wait_next_event-failed :
      (poll : List PollFd → Option ℕ → S → Polled × S) (timeout_ms : Option ℕ) (errno : ℕ)
      (rules : List (Rule S)) (es : List (Entry S)) (s s' s'' : S)
      → set_up rules s ≡ returned (es, s')
      → something_to_poll es ≡ true
      → poll (polls_of es) timeout_ms s' ≡ (failed errno, s'')
      → errno == eintr ≡ false
      → wait_next_event poll timeout_ms rules s ≡ returned (success, rules_of es, s'')
  unfolding wait_next_event after_poll
  wait_next_event-failed poll timeout_ms errno rules es s s' s'' u some_asked e other =
      rw (u, some_asked, e, other, go_through-no_events 0 es s'')

  -- The callbacks of the entries that are ready, in order.
  unfoldable pub serve_ready : (ℕ → Revents) → ℕ → List (Entry S) → S → Outcome S
  serve_ready revents idx [] s = returned s
  serve_ready revents idx ((rule, p) ∷ es) s =
      if poll_ready (revents idx) p.events
      then serve rule s >>= serve_ready revents (suc idx) es
      else serve_ready revents (suc idx) es s

  -- No entry from this one on has an error or a hang-up.
  abbrev pub Sound : (ℕ → Revents) → ℕ → List (Entry S) → Type 0
  Sound revents idx [] = Unit {0}
  Sound revents idx (e ∷ es) =
      ((revents idx).pollerr ≡ false)
      × ((revents idx).pollnval ≡ false)
      × ((revents idx).pollhup ≡ false)
      × Sound revents (suc idx) es

  push_rule :
      (rule : Rule S) (es : List (Entry S)) (m : Outcome S)
      → with_rule rule (m >>= (λ s. returned (rules_of es, s)))
        ≡ (m >>= (λ s. returned (rule ∷ rules_of es, s)))
  push_rule rule es (returned s) = refl
  push_rule rule es thrown = refl
  push_rule rule es Outcome.undefined = refl

  served :
      (m : Outcome S) (f : S → Outcome (List (Rule S) × S)) (g : S → Outcome S)
      (k : S → Outcome (List (Rule S) × S))
      → ((s : S) → f s ≡ (g s >>= k))
      → (m >>= f) ≡ ((m >>= g) >>= k)
  served (returned s) f g k e = e s
  served thrown f g k e = refl
  served Outcome.undefined f g k e = refl

  -- Where no entry has an error or a hang-up, the second loop calls the callbacks of the entries that
  -- are ready, each once and in order, and keeps every rule.
  pub go_through-Sound :
      (revents : ℕ → Revents) (idx : ℕ) (es : List (Entry S)) (s : S)
      → Sound revents idx es
      → go_through revents idx es s
        ≡ (serve_ready revents idx es s >>= (λ s'. returned (rules_of es, s')))
  unfolding go_through serve_ready
  go_through-Sound revents idx [] s h = refl
  go_through-Sound revents idx ((rule, p) ∷ es) s (err, nval, hup, h) =
      rw
        (
          or_false err nval,
          and_false (not (poll_ready (revents idx) p.events)) (and_false (asked p.events) hup),
        )
        (elim (Bool-cases (poll_ready (revents idx) p.events)) [
          | inl ready ↦ rw ready (
              served (serve rule s) (λ s'. with_rule rule (go_through revents (suc idx) es s'))
                (serve_ready revents (suc idx) es) (λ s'. returned (rule ∷ rules_of es, s'))
                (λ s'.
                  ap (with_rule rule) (go_through-Sound revents (suc idx) es s' h)
                  ∙ push_rule rule es (serve_ready revents (suc idx) es s')))
          | inr unready ↦ rw unready (
              ap (with_rule rule) (go_through-Sound revents (suc idx) es s h)
              ∙ push_rule rule es (serve_ready revents (suc idx) es s))
        ])
