-- ===== src/Connection/Tests.antt =====
-- Runs of libsponge/tcp_connection.cc on concrete connections.
use cs.Prelude.{◌≡◌, refl, true, some, [], ◌∷◌, arith}
use cs.Seqno.{WrappingInt32}
use cs.ByteStream.Valid.{init-IsValid}
use cs.Segment.{new}
use cs.Sender.{TcpSender, running}
use cs.Sender
use cs.Sender.Flight.{Chain, Valid}
use cs.Connection.{TcpConnection, init, write, tick, set_ack_and_window}
use cs.Connection.Sending.{Sent, write-Sent}
use cs.Connection.Closing.{Ends, rst_of, tick_gives_up}

abbrev isn : WrappingInt32
isn = record { raw_value = 77 }

abbrev started : TcpSender
started = record (Sender.init 16 1000 isn) {
  syn_flag = true;
  old_syn_flag = true;
  next_seqno = 1;
  recv_ackno = 1;
  window_size = 100;
  state = running;
}

abbrev idle : TcpConnection
idle = record (init 16 16 1000 isn) { sender = started }

started-Valid : Valid started
unfolding Sender.init Chain
started-Valid = record {
  word = omega arith;
  stream = init-IsValid 16 (omega arith);
  chain = refl;
  counted = refl;
  ended = refl;
}

write-Sent_example :
    (c' : TcpConnection) × (write (1 ∷ 2 ∷ 3 ∷ []) idle ≡ some (3, c'))
    × Sent idle (1 ∷ 2 ∷ 3 ∷ []) c'
unfolding Sender.init
write-Sent_example =
    write-Sent idle (1 ∷ 2 ∷ 3 ∷ []) started-Valid refl refl (omega arith) (omega arith)

abbrev waiting : TcpConnection
waiting = record idle {
  sender = record started { segments_outgoing = new ∷ []; consecutive_retransmissions = 8 };
}

tick_gives_up_example :
    Ends waiting (tick 1000 waiting) (rst_of (set_ack_and_window waiting.receiver new) ∷ [])
unfolding init Sender.init
tick_gives_up_example =
    tick_gives_up 1000 waiting new [] refl refl refl (omega arith) (omega arith) (omega arith)
      (omega arith)
