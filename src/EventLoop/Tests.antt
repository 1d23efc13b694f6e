-- ===== src/EventLoop/Tests.antt =====
-- Runs of the event loop on a state that is one descriptor.
use cs.Prelude.{ℕ, ◌≡◌, refl, true, false, Option, none, some, List, [], ◌∷◌, ltb}
use cs.Outcome.{returned, thrown}
use cs.FileDescriptor.{FileDescriptor, new, register_read}
use cs.EventLoop.{
  Rule, Direction, PollFd, Polled, Revents, Entry, failed, polled, success, wait_next_event, set_up,
  go_through, serve, something_to_poll, after_poll, entry, finished, events_of, service_count,
}
use cs.EventLoop.Polling.{wait_next_event-failed}

-- A rule that reads until three reads have been made.
abbrev reader : Rule FileDescriptor
reader = record {
  fd = λ d. d;
  direction = Direction.into;
  callback = λ d. returned (register_read d);
  interest = λ d. ltb d.read_count 3;
  cancel = λ d. returned (record d { closed = true });
}

-- A rule whose callback does nothing.
abbrev idle : Rule FileDescriptor
idle = record reader { callback = λ d. returned d }

abbrev readable : Revents
readable = record {
  pollin = true;
  pollout = false;
  pollerr = false;
  pollnval = false;
  pollhup = false;
}

abbrev answer : Polled → List PollFd → Option ℕ → FileDescriptor → Polled × FileDescriptor
answer a ps t d = (a, d)

busy_wait : wait_next_event (answer (polled (λ i. readable))) none (idle ∷ []) (new 4) ≡ thrown
unfolding wait_next_event set_up go_through serve something_to_poll after_poll entry finished
    events_of service_count
busy_wait = refl

abbrev waiting : Entry FileDescriptor
waiting = (reader, record { fd = 4; events = some Direction.into })

-- `ENOMEM` has the number 12.
wait_next_event-failed_example :
    wait_next_event (answer (failed 12)) none (reader ∷ []) (new 4)
    ≡ returned (success, reader ∷ [], new 4)
unfolding set_up something_to_poll entry finished events_of
wait_next_event-failed_example =
    wait_next_event-failed (answer (failed 12)) none 12 (reader ∷ []) (waiting ∷ []) (new 4) (new 4)
      (new 4) refl refl refl refl
