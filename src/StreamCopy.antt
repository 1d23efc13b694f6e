-- ===== src/StreamCopy.antt =====
-- apps/bidirectional_stream_copy.cc: standard input is copied to a socket and the socket to standard
-- output, through two byte streams and four rules of an event loop. The calls of `set_blocking` are
-- left out.
pub mod Flow
pub mod Copying
pub mod Turning
pub mod Serving
pub mod Running
mod Tests
use cs.Prelude.{
  ℕ, zero, suc, ◌*◌, ◌&&◌, ◌||◌, not, Bool, true, false, Option, none, some, List, [], ◌∷◌, min,
  ltb, if◌then◌else◌,
}
use cs.Outcome.{Outcome, returned, ◌>>=◌, of_option}
use cs.ViewList
use cs.ByteStream.{
  ByteStream, peek_output, pop_output, end_input, set_error, eof, buffer_size, buffer_empty,
  remaining_capacity,
}
use cs.ByteStream
use cs.FileDescriptor.{SystemCalls, FileDescriptor, read, write, shutdown, close, How}
use cs.FileDescriptor
use cs.EventLoop.{Rule, Direction, PollFd, Polled, Result, success, exit, wait_next_event}

pub record Copy (K : Type 0) : Type 0 where
  pub kernel : K
  pub input : FileDescriptor
  pub output : FileDescriptor
  pub socket : FileDescriptor
  pub outbound : ByteStream
  pub inbound : ByteStream
  pub outbound_shutdown : Bool
  pub inbound_shutdown : Bool

abbrev pub max_copy_length : ℕ
max_copy_length = 65536

abbrev pub capacity : ℕ
capacity = 1048576

-- The local variables as they are made, for a socket.
unfoldable pub start : {K : Type 0} → FileDescriptor → K → Copy K
start socket k = record {
  kernel = k;
  input = FileDescriptor.new 0;
  output = FileDescriptor.new 1;
  socket = socket;
  outbound = ByteStream.init capacity;
  inbound = ByteStream.init capacity;
  outbound_shutdown = false;
  inbound_shutdown = false;
}

module _ {K : Type 0} (os : SystemCalls K) where
  -- The bytes read from `d` go into a stream, which ends with them: the callback of rules 1 and 3.
  unfoldable pub copy_in :
      FileDescriptor → ByteStream → K → Outcome (FileDescriptor × ByteStream × K)
  copy_in d b k = read os (remaining_capacity b) d k >>= (λ (bytes, d', k').
      let b' : ByteStream = (ByteStream.write bytes b).1 in
      returned (d', if d'.eof then end_input b' else b', k'))

  -- The front of a stream is written to `d`, and what went is popped: the callback of rules 2 and 4
  -- up to the test for the end.
  unfoldable pub copy_out :
      FileDescriptor → ByteStream → K → Outcome (FileDescriptor × ByteStream × K)
  copy_out d b k =
      write os (ViewList.of_string (peek_output (min max_copy_length (buffer_size b)) b)) false d k
      >>= (λ (n, d', k'). of_option (pop_output n b) >>= (λ b'. returned (d', b', k')))

  unfoldable pub read_input : Copy K → Outcome (Copy K)
  unfolding copy_in
  read_input s =
      copy_in s.input s.outbound s.kernel
      >>= (λ (d, b, k). returned (record s { input = d; outbound = b; kernel = k }))

  abbrev pub shut_socket : Copy K → Outcome (Copy K)
  shut_socket s =
      shutdown os How.shut_wr s.socket s.kernel
      >>= (λ (d, k). returned (record s { socket = d; kernel = k; outbound_shutdown = true }))

  unfoldable pub write_socket : Copy K → Outcome (Copy K)
  unfolding copy_out
  write_socket s = copy_out s.socket s.outbound s.kernel >>= (λ (d, b, k).
      let s' : Copy K = record s { socket = d; outbound = b; kernel = k } in
      if eof b then shut_socket s' else returned s')

  unfoldable pub read_socket : Copy K → Outcome (Copy K)
  unfolding copy_in
  read_socket s =
      copy_in s.socket s.inbound s.kernel
      >>= (λ (d, b, k). returned (record s { socket = d; inbound = b; kernel = k }))

  abbrev pub close_output : Copy K → Outcome (Copy K)
  close_output s =
      close os s.output s.kernel
      >>= (λ (d, k). returned (record s { output = d; kernel = k; inbound_shutdown = true }))

  unfoldable pub write_output : Copy K → Outcome (Copy K)
  unfolding copy_out
  write_output s = copy_out s.output s.inbound s.kernel >>= (λ (d, b, k).
      let s' : Copy K = record s { output = d; inbound = b; kernel = k } in
      if eof b then close_output s' else returned s')

  abbrev pub rule_1 : Rule (Copy K)
  rule_1 = record {
    fd = λ s. s.input;
    direction = Direction.into;
    callback = read_input;
    interest =
        λ s. not s.outbound.error && ltb 0 (remaining_capacity s.outbound) && not s.inbound.error;
    cancel = λ s. returned (record s { outbound = end_input s.outbound });
  }

  abbrev pub rule_2 : Rule (Copy K)
  rule_2 = record {
    fd = λ s. s.socket;
    direction = Direction.out;
    callback = write_socket;
    interest = λ s. not (buffer_empty s.outbound) || eof s.outbound && not s.outbound_shutdown;
    cancel = λ s. returned (record s { outbound = set_error s.outbound });
  }

  abbrev pub rule_3 : Rule (Copy K)
  rule_3 = record {
    fd = λ s. s.socket;
    direction = Direction.into;
    callback = read_socket;
    interest =
        λ s. not s.inbound.error && ltb 0 (remaining_capacity s.inbound) && not s.outbound.error;
    cancel = λ s. returned (record s { inbound = end_input s.inbound });
  }

  abbrev pub rule_4 : Rule (Copy K)
  rule_4 = record {
    fd = λ s. s.output;
    direction = Direction.out;
    callback = write_output;
    interest = λ s. not (buffer_empty s.inbound) || eof s.inbound && not s.inbound_shutdown;
    cancel = λ s. returned (record s { inbound = set_error s.inbound });
  }

  abbrev pub rules : List (Rule (Copy K))
  rules = rule_1 ∷ rule_2 ∷ rule_3 ∷ rule_4 ∷ []

-- `poll` on the state.
abbrev pub poll_in :
    {K : Type 0}
    → (List PollFd → Option ℕ → K → Polled × K)
    → List PollFd
    → Option ℕ
    → Copy K
    → Polled × Copy K
poll_in poll ps t s = let (a, k) = poll ps t s.kernel in (a, record s { kernel = k })

module _ {K : Type 0} (poll : List PollFd → Option ℕ → K → Polled × K) where
  -- The loop, `while (true)`, for as many turns at most: it is over after the result `exit`.
  unfoldable pub turns :
      ℕ → List (Rule (Copy K)) → Copy K → Outcome (Result × List (Rule (Copy K)) × Copy K)
  turns zero rules s = returned (success, rules, s)
  turns (suc n) rules s = wait_next_event (poll_in poll) none rules s >>= (λ (r, rules', s').
      elim r [ Result.exit ↦ returned (exit, rules', s') | _ ↦ turns n rules' s' ])
