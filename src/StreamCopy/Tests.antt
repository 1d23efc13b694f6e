-- ===== src/StreamCopy/Tests.antt =====
-- Runs of the stream copy.
use cs.Prelude.{ℕ, ◌≡◌, refl, Bool, true, false, Option, List, [], ◌∷◌, if◌then◌else◌, ◌==◌, arith}
use cs.Outcome.{Outcome, returned, thrown, undefined, Holds, Returns}
use cs.FileDescriptor.{read, write, write_loop, write_turn, shutdown, close}
use cs.FileDescriptor
use cs.Buffer
use cs.BufferList.{concatenate, concatenate_from, remove_prefix}
use cs.ViewList.{size, size_from}
use cs.ViewList
use cs.ByteStream.{peek_output, pop_output, end_input, set_error}
use cs.ByteStream
use cs.FileDescriptor.Pipes.{
  Pipe, Pipes, pipe_calls, pipe_calls-IsKernel, pipe_calls-IsWorking, got, sent,
}
use cs.EventLoop.{
  PollFd, Polled, Rule, Revents, wait_next_event, set_up, something_to_poll, after_poll, go_through,
  serve, service_count, finished, entry, events_of, Result, polled, exit,
}
use cs.StreamCopy.{
  Copy, start, rules, turns, read_input, read_socket, write_socket, write_output, copy_in, copy_out,
}
use cs.StreamCopy.Running.{turns_run}
use cs.StreamCopy.Turning.{IsPoll, AfterTurns, turns-start}

abbrev pipe : List ℕ → Pipe
pipe bytes = record { waiting = bytes; got = []; sent = [] }

-- Three bytes wait on standard input, two on the socket, and one elsewhere.
abbrev pipes : Pipes
pipes f = if f == 0 then pipe (1 ∷ 2 ∷ 3 ∷ []) else if f == 5 then pipe (9 ∷ 8 ∷ []) else pipe []

abbrev both : Revents
both = record { pollin = true; pollout = true; pollerr = false; pollnval = false; pollhup = false }

-- Every descriptor is ready.
abbrev always : List PollFd → Option ℕ → Pipes → Polled × Pipes
always ps t k = (polled (λ i. both), k)

always-IsPoll : IsPoll always got sent
always-IsPoll = record { unread = λ ps t k g. refl; unsent = λ ps t k g. refl }

abbrev run : ℕ → Outcome (Result × List (Rule (Copy Pipes)) × Copy Pipes)
run n = turns always n (rules pipe_calls) (start (FileDescriptor.new 5) pipes)

abbrev sent_by : Outcome (Result × List (Rule (Copy Pipes)) × Copy Pipes) → List ℕ × List ℕ
sent_by (returned (r, rs, s)) = (sent 5 s.kernel, sent 1 s.kernel)
sent_by thrown = ([], [])
sent_by undefined = ([], [])

abbrev is_exit : Outcome (Result × List (Rule (Copy Pipes)) × Copy Pipes) → Bool
is_exit (returned (exit, rs, s)) = true
is_exit _ = false

all_copied : sent_by (run 3) ≡ (1 ∷ 2 ∷ 3 ∷ [], 9 ∷ 8 ∷ [])
unfolding turns start read_input read_socket write_socket write_output copy_in copy_out
    wait_next_event set_up something_to_poll after_poll go_through serve service_count finished
    entry events_of read write write_loop write_turn shutdown close ByteStream.init ByteStream.write
    peek_output pop_output end_input concatenate concatenate_from remove_prefix size size_from
    ViewList.remove_prefix Buffer.remove_prefix set_error
all_copied = refl

over_after_three : is_exit (run 3) ≡ true
unfolding turns start read_input read_socket write_socket write_output copy_in copy_out
    wait_next_event set_up something_to_poll after_poll go_through serve service_count finished
    entry events_of read write write_loop write_turn shutdown close ByteStream.init ByteStream.write
    peek_output pop_output end_input concatenate concatenate_from remove_prefix size size_from
    ViewList.remove_prefix Buffer.remove_prefix set_error
over_after_three = refl

turns-start_example :
    Holds (AfterTurns pipe_calls always got sent pipe_calls-IsKernel always-IsPoll 5) (run 2)
turns-start_example =
    turns-start pipe_calls always got sent pipe_calls-IsKernel always-IsPoll 5 2 pipes
      (ground arith) (ground arith) (refl, refl, refl, refl)

turns_run_example :
    Returns (AfterTurns pipe_calls always got sent pipe_calls-IsKernel always-IsPoll 5) (run 2)
turns_run_example =
    turns_run pipe_calls always got sent pipe_calls-IsKernel always-IsPoll 5 pipe_calls-IsWorking
      (λ ps t k i. refl) 2 pipes (ground arith) (ground arith) (refl, refl, refl, refl)
