-- ===== src/StreamCopy/Turning.antt =====
-- The loop of apps/bidirectional_stream_copy.cc, for any number of turns.
use cs.Prelude.{All, ℕ, zero, suc, ◌≡◌, ◌≢◌, refl, Option, none, List, [], arith}
use cs.Outcome.{returned, Holds, Holds-then}
use cs.ByteStream.{init}
use cs.ByteStream.Valid.{init-IsValid}
use cs.FileDescriptor.{SystemCalls}
use cs.FileDescriptor
use cs.FileDescriptor.Kernel.{IsKernel}
use cs.EventLoop.{PollFd, Polled, Rule, Result, success, timeout, exit, wait_next_event}
use cs.EventLoop.Keeping.{Keeps, All-Subsequence, wait_next_event-Done, Done}
use cs.StreamCopy.{Copy, start, rules, turns, poll_in, capacity}
use cs.StreamCopy.Copying.{Moved, Flow-at, rules-Keeps}

-- What the code relies on of poll(2): it moves no bytes.
pub record IsPoll {K : Type 0} (poll : List PollFd → Option ℕ → K → Polled × K)
    (got sent : ℕ → K → List ℕ) : Type 0 where
  pub unread : (ps : List PollFd) (t : Option ℕ) (k : K) (g : ℕ) → got g (poll ps t k).1 ≡ got g k
  pub unsent : (ps : List PollFd) (t : Option ℕ) (k : K) (g : ℕ) → sent g (poll ps t k).1 ≡ sent g k

module _ {K : Type 0} (os : SystemCalls K) (poll : List PollFd → Option ℕ → K → Polled × K)
    (got sent : ℕ → K → List ℕ) (law : IsKernel os got sent) (quiet : IsPoll poll got sent)
    (f : ℕ) where
  abbrev pub AfterTurns : Result × List (Rule (Copy K)) × Copy K → Type 0
  AfterTurns r = Moved os got sent law f r.2

  pub poll_in-Moved :
      (ps : List PollFd) (t : Option ℕ) (s : Copy K)
      → Moved os got sent law f s
      → Moved os got sent law f (poll_in poll ps t s).1
  poll_in-Moved ps t s m = record {
    input_fd = m.input_fd;
    output_fd = m.output_fd;
    socket_fd = m.socket_fd;
    forth = Flow-at (quiet.unread ps t s.kernel 0) (quiet.unsent ps t s.kernel f) m.forth;
    back = Flow-at (quiet.unread ps t s.kernel f) (quiet.unsent ps t s.kernel 1) m.back;
  }

  turns-Moved :
      (n : ℕ) (rs : List (Rule (Copy K))) (s : Copy K)
      → All (Keeps (Moved os got sent law f)) rs
      → Moved os got sent law f s
      → Holds AfterTurns (turns poll n rs s)
  unfolding turns
  turns-Moved zero rs s h m = m
  turns-Moved (suc n) rs s h m =
      Holds-then (Done (Moved os got sent law f) rs) AfterTurns
        (wait_next_event (poll_in poll) none rs s) _
        (wait_next_event-Done (Moved os got sent law f) (poll_in poll) none rs s poll_in-Moved h m)
        (next (turns-Moved n))
    where
      next :
          ((rs : List (Rule (Copy K))) (s : Copy K)
            → All (Keeps (Moved os got sent law f)) rs
            → Moved os got sent law f s
            → Holds AfterTurns (turns poll n rs s))
          → (r : Result × List (Rule (Copy K)) × Copy K) → Done (Moved os got sent law f) rs r
          → Holds AfterTurns
              (elim r.0 [ Result.exit ↦ returned (exit, r.1, r.2) | _ ↦ turns poll n r.1 r.2 ])
      next later (exit, rs', s') (left, m') = m'
      next later (success, rs', s') (left, m') =
          later rs' s' (All-Subsequence (Keeps (Moved os got sent law f)) left h) m'
      next later (timeout, rs', s') (left, m') =
          later rs' s' (All-Subsequence (Keeps (Moved os got sent law f)) left h) m'

  abbrev pub Fresh : K → Type 0
  Fresh k = (got 0 k ≡ []) × (got f k ≡ []) × (sent 1 k ≡ []) × (sent f k ≡ [])

  pub start-Moved : (k : K) → Fresh k → Moved os got sent law f (start (FileDescriptor.new f) k)
  unfolding start init
  start-Moved k (e, e', o, o') = record {
    input_fd = refl;
    output_fd = refl;
    socket_fd = refl;
    forth = Flow-at e o' (record { valid = init-IsValid capacity (omega arith); moved = refl });
    back = Flow-at e' o (record { valid = init-IsValid capacity (omega arith); moved = refl });
  }

  -- From a fresh start and on a socket whose number is neither 0 nor 1, after any number of turns in
  -- which no call throws, whatever the kernel answers: what has been read from standard input is what has been written to
  -- the socket followed by what the outbound stream holds, and what has been read from the socket is
  -- what has been written to standard output followed by what the inbound stream holds.
  pub turns-start :
      (n : ℕ) (k : K)
      → f ≢ 0
      → f ≢ 1
      → Fresh k
      → Holds AfterTurns (turns poll n (rules os) (start (FileDescriptor.new f) k))
  turns-start n k h0 h1 fresh =
      turns-Moved n (rules os) _ (rules-Keeps os got sent law f h0 h1) (start-Moved k fresh)
