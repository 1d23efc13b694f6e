-- ===== src/SpongeSocket.antt =====
-- libsponge/tcp_helpers/tcp_sponge_socket.hh and tcp_sponge_socket.cc: a TCP connection between a
-- local stream socket and a datagram adapter, driven by four rules of an event loop. The adapter's
-- type is a template parameter of the source, and here a record of its operations. The debugging
-- output is left out; the thread that runs the loop is the loop itself.
pub mod Loop
pub mod Rules
pub mod Giving
pub mod Opening
mod Tests
use cs.Prelude.{
  ℕ, zero, suc, ◌-◌, Bool, true, false, not, ◌&&◌, ◌||◌, Option, none, some, List, [], ◌∷◌, length,
  min, ltb, ◌==◌, if◌then◌else◌, sub64,
}
use cs.Outcome.{Outcome, returned, thrown, ◌>>=◌, of_option}
use cs.ViewList
use cs.ByteStream.{
  ByteStream, peek_output, pop_output, eof, buffer_size, buffer_empty, remaining_capacity,
}
use cs.Segment.{TcpSegment}
use cs.Receiver.{stream_out}
use cs.Connection.{TcpConnection, segment_received, end_input_stream}
use cs.Connection
use cs.State.{Summary, State, state, of_state}
use cs.TcpOverIp.{FdAdapterConfig}
use cs.Adapter.{Adapter}
use cs.FileDescriptor.{SystemCalls, FileDescriptor, read, shutdown, How}
use cs.FileDescriptor
use cs.StreamCopy.{copy_out}
use cs.EventLoop.{Rule, Direction, PollFd, Polled, Result, exit, wait_next_event}

-- The socket while it has a connection, `_tcp.value()`.
pub record Running (A K : Type 0) : Type 0 where
  pub kernel : K
  pub datagram_adapter : A
  pub thread_data : FileDescriptor
  pub tcp : TcpConnection
  pub inbound_shutdown : Bool
  pub outbound_shutdown : Bool
  pub fully_acked : Bool

abbrev pub remaining_outbound_capacity : TcpConnection → ℕ
remaining_outbound_capacity c = remaining_capacity c.sender.stream

abbrev pub inbound_stream : TcpConnection → ByteStream
inbound_stream c = c.receiver.reassembler.output

-- A connection whose inbound stream a reference to it has changed.
abbrev pub with_inbound : ByteStream → TcpConnection → TcpConnection
with_inbound b c = record c {
  receiver = record c.receiver { reassembler = record c.receiver.reassembler { output = b } };
}

module _ {A K : Type 0} (os : SystemCalls K) (adapter : Adapter A K) where
  -- Rule 1: a segment from the adapter.
  abbrev pub deliver : Option TcpSegment → Running A K → Outcome (Running A K)
  deliver none s = returned s
  deliver (some seg) s =
      of_option (segment_received seg s.tcp) >>= (λ c. returned (record s { tcp = c }))

  abbrev pub note_acked : Running A K → Running A K
  note_acked s =
      if s.thread_data.eof && (s.tcp.sender.bytes_in_flight == 0) && not s.fully_acked
      then record s { fully_acked = true }
      else s

  unfoldable pub read_datagram : Running A K → Outcome (Running A K)
  read_datagram s = adapter.read s.datagram_adapter s.kernel >>= (λ (seg, a, k).
      deliver seg (record s { datagram_adapter = a; kernel = k })
      >>= (λ s'. returned (note_acked s')))

  -- Rule 2: bytes from the owner, and the end of them.
  unfoldable pub end_outbound : Running A K → Outcome (Running A K)
  end_outbound s =
      of_option (end_input_stream s.tcp)
      >>= (λ c. returned (record s { tcp = c; outbound_shutdown = true }))

  -- From the bytes read on: how many the connection accepted, and whether that is all.
  abbrev pub accepted : ℕ → ℕ × TcpConnection → Running A K → Outcome (Running A K)
  accepted len (amount_written, c) s =
      if not (amount_written == len)
      then thrown
      else if s.thread_data.eof
      then end_outbound (record s { tcp = c })
      else returned (record s { tcp = c })

  unfoldable pub read_owner : Running A K → Outcome (Running A K)
  unfolding end_outbound
  read_owner s =
      read os (remaining_outbound_capacity s.tcp) s.thread_data s.kernel >>= (λ (data_in, d, k).
        of_option (Connection.write data_in s.tcp)
        >>= (λ r. accepted (length data_in) r (record s { thread_data = d; kernel = k })))

  -- Rule 3: assembled bytes for the owner, and the end of them.
  abbrev pub shut_owner : Running A K → Outcome (Running A K)
  shut_owner s =
      if eof (inbound_stream s.tcp) || (inbound_stream s.tcp).error
      then shutdown os How.shut_wr s.thread_data s.kernel
        >>= (λ (d, k). returned (record s { thread_data = d; kernel = k; inbound_shutdown = true }))
      else returned s

  -- At most 65536 bytes are written and what went is popped, as in the stream copy.
  unfoldable pub write_owner : Running A K → Outcome (Running A K)
  write_owner s = copy_out os s.thread_data (inbound_stream s.tcp) s.kernel >>= (λ (d, b, k).
      shut_owner (record s { thread_data = d; kernel = k; tcp = with_inbound b s.tcp }))

  -- Rule 4: the segments that are queued, for the queue as it stands.
  unfoldable pub write_datagrams_from : List TcpSegment → Running A K → Outcome (Running A K)
  write_datagrams_from [] s = returned s
  write_datagrams_from (seg ∷ segs) s = adapter.write seg s.datagram_adapter s.kernel >>= (λ (a, k).
      write_datagrams_from segs
        (record s { datagram_adapter = a; kernel = k; tcp = record s.tcp { segments_out = segs } }))

  abbrev pub write_datagrams : Running A K → Outcome (Running A K)
  write_datagrams s = write_datagrams_from s.tcp.segments_out s

  abbrev pub some_queued : List TcpSegment → Bool
  some_queued [] = false
  some_queued (seg ∷ segs) = true

  -- `_initialize_TCP`'s rules.
  abbrev pub rules : List (Rule (Running A K))
  rules =
      record {
        fd = λ s. adapter.fd s.datagram_adapter;
        direction = Direction.into;
        callback = read_datagram;
        interest = λ s. s.tcp.if_active;
        cancel = λ s. returned s;
      }
      ∷ record {
        fd = λ s. s.thread_data;
        direction = Direction.into;
        callback = read_owner;
        interest = λ s.
            s.tcp.if_active && not s.outbound_shutdown && ltb 0 (remaining_outbound_capacity s.tcp);
        cancel = end_outbound;
      }
      ∷ record {
        fd = λ s. s.thread_data;
        direction = Direction.out;
        callback = write_owner;
        interest = λ s.
            not (buffer_empty (inbound_stream s.tcp))
            || (eof (inbound_stream s.tcp) || (inbound_stream s.tcp).error)
              && not s.inbound_shutdown;
        cancel = λ s. returned s;
      }
      ∷ record {
        fd = λ s. adapter.fd s.datagram_adapter;
        direction = Direction.out;
        callback = write_datagrams;
        interest = λ s. some_queued s.tcp.segments_out;
        cancel = λ s. returned s;
      }
      ∷ []
