-- ===== src/StreamCopy/Running.antt =====
-- The loop of apps/bidirectional_stream_copy.cc with a kernel whose calls do not fail.
use cs.Prelude.{All, ℕ, zero, suc, ◌≢◌, Option, none, List}
use cs.Outcome.{returned, Returns, Returns-then}
use cs.FileDescriptor.{SystemCalls}
use cs.FileDescriptor
use cs.FileDescriptor.Kernel.{IsKernel}
use cs.FileDescriptor.Working.{IsWorking}
use cs.EventLoop.{PollFd, Polled, Rule, Result, success, timeout, exit, wait_next_event}
use cs.EventLoop.Keeping.{All-Subsequence, Done}
use cs.EventLoop.Returning.{Serves, NoError, wait_next_event-Returns}
use cs.StreamCopy.{Copy, start, rules, turns, poll_in}
use cs.StreamCopy.Copying.{Moved, rules-Keeps}
use cs.StreamCopy.Serving.{rules-serve}
use cs.StreamCopy.Turning.{IsPoll, AfterTurns, Fresh, poll_in-Moved, start-Moved}

module _ {K : Type 0} (os : SystemCalls K) (poll : List PollFd → Option ℕ → K → Polled × K)
    (got sent : ℕ → K → List ℕ) (law : IsKernel os got sent) (quiet : IsPoll poll got sent) (f : ℕ)
    (works : IsWorking os)
    (no_error : (ps : List PollFd) (t : Option ℕ) (k : K) → NoError (poll ps t k).0) where
  rules-Serves : f ≢ 0 → f ≢ 1 → All (Serves (Moved os got sent law f)) (rules os)
  rules-Serves h0 h1 =
      let (k1, (k2, (k3, (k4, u)))) = rules-Keeps os got sent law f h0 h1 in
      (
        record {
          served = λ s m. (rules-serve os works got sent law f h0 h1 s m).0;
          cancelled = k1.cancel;
        },
        (
          record {
            served = λ s m. (rules-serve os works got sent law f h0 h1 s m).1.0;
            cancelled = k2.cancel;
          },
          (
            record {
              served = λ s m. (rules-serve os works got sent law f h0 h1 s m).1.1.0;
              cancelled = k3.cancel;
            },
            (
              record {
                served = λ s m. (rules-serve os works got sent law f h0 h1 s m).1.1.1.0;
                cancelled = k4.cancel;
              },
              tt,
            ),
          ),
        ),
      )

  turns-Returns :
      (n : ℕ) (rs : List (Rule (Copy K))) (s : Copy K)
      → All (Serves (Moved os got sent law f)) rs
      → Moved os got sent law f s
      → Returns (AfterTurns os poll got sent law quiet f) (turns poll n rs s)
  unfolding turns
  turns-Returns zero rs s h m = m
  turns-Returns (suc n) rs s h m =
      Returns-then (Done (Moved os got sent law f) rs) (AfterTurns os poll got sent law quiet f)
        (wait_next_event (poll_in poll) none rs s) _
        (wait_next_event-Returns (Moved os got sent law f) (poll_in poll) none rs s
          (poll_in-Moved os poll got sent law quiet f) (λ ps t t'. no_error ps t t'.kernel) h m)
        (next (turns-Returns n))
    where
      next :
          ((rs : List (Rule (Copy K))) (s : Copy K)
            → All (Serves (Moved os got sent law f)) rs
            → Moved os got sent law f s
            → Returns (AfterTurns os poll got sent law quiet f) (turns poll n rs s))
          → (r : Result × List (Rule (Copy K)) × Copy K) → Done (Moved os got sent law f) rs r
          → Returns
              (AfterTurns os poll got sent law quiet f)
              (elim r.0 [ Result.exit ↦ returned (exit, r.1, r.2) | _ ↦ turns poll n r.1 r.2 ])
      next later (exit, rs', s') (left, m') = m'
      next later (success, rs', s') (left, m') =
          later rs' s' (All-Subsequence (Serves (Moved os got sent law f)) left h) m'
      next later (timeout, rs', s') (left, m') =
          later rs' s' (All-Subsequence (Serves (Moved os got sent law f)) left h) m'

  -- With a kernel whose calls do not fail and whose `poll` reports no error of a descriptor, from a
  -- fresh start and on a socket whose number is neither 0 nor 1, any number of turns comes to a
  -- state: no exception is thrown, in particular not for a busy wait. There, what has been read from
  -- standard input is what has been written to the socket followed by what the outbound stream holds,
  -- and likewise from the socket to standard output.
  pub turns_run :
      (n : ℕ) (k : K)
      → f ≢ 0
      → f ≢ 1
      → Fresh os poll got sent law quiet f k
      → Returns
          (AfterTurns os poll got sent law quiet f)
          (turns poll n (rules os) (start (FileDescriptor.new f) k))
  turns_run n k h0 h1 fresh =
      turns-Returns n (rules os) _ (rules-Serves h0 h1)
        (start-Moved os poll got sent law quiet f k fresh)
