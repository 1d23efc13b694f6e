-- ===== src/SpongeSocket/Tests.antt =====
-- Runs of the socket's rules over pipes, with an adapter that logs what it is given.
use cs.Prelude.{◌≡◌, refl, true, false, none, List, [], ◌∷◌, ◌++◌, arith, if◌then◌else◌, ◌==◌}
use cs.Outcome.{Returns, returned}
use cs.Seqno.{WrappingInt32}
use cs.ByteStream.{ByteStream}
use cs.ByteStream
use cs.ByteStream.Valid.{init-IsValid}
use cs.Segment.{TcpSegment, new}
use cs.Sender.{TcpSender, running}
use cs.Sender
use cs.Sender.Flight.{Chain, Valid}
use cs.Connection.{TcpConnection, init}
use cs.Connection.Sending.{Sent}
use cs.TcpOverIp.{FdAdapterConfig, Address}
use cs.FileDescriptor.{FileDescriptor, read}
use cs.FileDescriptor
use cs.FileDescriptor.Pipes.{
  Pipes, pipe_calls, pipe_calls-IsKernel, pipe_calls-IsWorking, got, sent,
}
use cs.StreamCopy.Flow.{Flow, write-Flow}
use cs.Adapter.{Adapter}
use cs.SpongeSocket.{Running, read_owner, write_owner, with_inbound}
use cs.SpongeSocket.Rules.{Given, read_owner-Sent}
use cs.SpongeSocket.Giving.{write_owner_run}
use cs.StreamCopy.Serving.{Serviced}
use cs.SpongeSocket.Loop.{TcpConfig}

abbrev peer : Address
peer = record { ipv4_numeric = 5; port = 80 }

abbrev addresses : FdAdapterConfig
addresses = record { source = peer; destination = peer; loss_rate_dn = 0; loss_rate_up = 0 }

-- It never has a segment.
abbrev logger : Adapter (List TcpSegment) Pipes
logger = record {
  fd = λ a. FileDescriptor.new 7;
  config = λ a. addresses;
  read = λ a k. returned (none, a, k);
  write = λ seg a k. returned (a ++ seg ∷ [], k);
  tick = λ ms a k. returned (a, k);
  set_config = λ c a. a;
  set_listening = λ l a. a;
}

-- The owner has written three bytes.
abbrev pipes : Pipes
pipes f = record { waiting = if f == 6 then 1 ∷ 2 ∷ 3 ∷ [] else []; got = []; sent = [] }

abbrev isn : WrappingInt32
isn = record { raw_value = 77 }

abbrev started : TcpSender
started = record (Sender.init 16 1000 isn) {
  syn_flag = true;
  old_syn_flag = true;
  next_seqno = 1;
  recv_ackno = 1;
  window_size = 100;
  state = running;
}

abbrev arrived : ByteStream
arrived = (ByteStream.write (4 ∷ 5 ∷ []) (ByteStream.init 16)).1

abbrev socket : Running (List TcpSegment) Pipes
socket = record {
  kernel = pipes;
  datagram_adapter = [];
  thread_data = FileDescriptor.new 6;
  tcp =
      with_inbound arrived
        (record (init 16 16 1000 isn) { sender = started; segments_out = new ∷ new ∷ [] });
  inbound_shutdown = false;
  outbound_shutdown = false;
  fully_acked = false;
}

started-Valid : Valid started
unfolding Sender.init Chain
started-Valid = record {
  word = omega arith;
  stream = init-IsValid 16 (omega arith);
  chain = refl;
  counted = refl;
  ended = refl;
}

abbrev after : FileDescriptor
after = record (FileDescriptor.new 6) { read_count = 1 }

abbrev left : Pipes
left = (pipe_calls.read 6 16 pipes).1

read_owner-Sent_example :
    (c : TcpConnection) × (read_owner pipe_calls logger socket
      ≡ returned (record socket { thread_data = after; kernel = left; tcp = c }))
    × Sent socket.tcp (1 ∷ 2 ∷ 3 ∷ []) c
unfolding Sender.init init read ByteStream.init
read_owner-Sent_example =
    read_owner-Sent pipe_calls logger socket (1 ∷ 2 ∷ 3 ∷ []) after left refl refl started-Valid
      refl refl (omega arith) (omega arith)

arrived-Flow : Flow (4 ∷ 5 ∷ []) [] arrived
unfolding ByteStream.init
arrived-Flow =
    write-Flow [] [] (4 ∷ 5 ∷ []) (ByteStream.init 16) (omega arith)
      (record { valid = init-IsValid 16 (omega arith); moved = refl })

write_owner_run_example :
    Returns
      (λ t.
        Serviced 0 t.thread_data.write_count
        × Given pipe_calls logger got sent pipe_calls-IsKernel (4 ∷ 5 ∷ []) socket t)
      (write_owner pipe_calls logger socket)
write_owner_run_example =
    write_owner_run pipe_calls logger pipe_calls-IsWorking got sent pipe_calls-IsKernel (4 ∷ 5 ∷ [])
      socket arrived-Flow

abbrev config : TcpConfig
config = record { rt_timeout = 1000; recv_capacity = 64000; send_capacity = 64000 }
