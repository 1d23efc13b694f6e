-- ===== src/Sender/Tests.antt =====
-- Runs of libsponge/tcp_sender.cc on a concrete sender.
use cs.Prelude.{
  ℕ, ◌+◌, ◌*◌, ◌^◌, ◌≤◌, ◌<◌, ◌≡◌, refl, ◌⊎◌, Bool, true, false, Option, none, some, List, [], ◌∷◌,
  ◌++◌, arith, map,
}
use cs.Seqno.{WrappingInt32, wrap, unwrap}
use cs.Buffer.{of_string, str}
use cs.Buffer
use cs.BufferList
use cs.ByteStream.{ByteStream}
use cs.ByteStream
use cs.Segment.{TcpSegment}
use cs.Sender.{
  TcpSender, running, init, data_segment, numbered, fill_window, fill_loop, fill_once, send_data,
  make_segment_and_send, ack_received,
}
use cs.Sender.Flight.{bit, Chain, InRange, Valid, Sends}
use cs.Sender.Fill.{fill_window-Sends}
use cs.Sender.Window.{fill_window_within, fill_window_overshoots}
use cs.Sender.Acked.{Acks, ack_received-Acks}
use cs.Sender.Timer.{repeat, expire, expire_lem}

abbrev isn : WrappingInt32
isn = record { raw_value = 4294967290 }

abbrev outbound : ByteStream
outbound = record {
  stream_buffer = BufferList.of_string (7 ∷ 8 ∷ 9 ∷ []);
  size = 3;
  capacity = 10;
  num_write = 5;
  num_read = 2;
  if_end = true;
  error = false;
}

-- Two bytes in flight, and three still in the stream.
abbrev in_flight : TcpSegment
in_flight =
    numbered (data_segment (5 ∷ 6 ∷ []) false) (record (init 10 1000 isn) { next_seqno = 1 })

abbrev busy : TcpSender
busy = record {
  isn = isn;
  segments_out = [];
  segments_outgoing = in_flight ∷ [];
  bytes_in_flight = 2;
  recv_ackno = 1;
  window_size = 4;
  stream = outbound;
  next_seqno = 3;
  syn_flag = true;
  old_syn_flag = true;
  fin_sent = false;
  initial_retransmission_timeout = 1000;
  consecutive_retransmissions = 0;
  state = running;
  time = 0;
  retransmission_timeout = 1000;
}

busy-Valid : Valid busy
unfolding Chain wrap init
busy-Valid = record {
  word = omega arith;
  stream = record {
    in_memory = ((omega arith, omega arith), tt);
    sized = refl;
    within = omega arith;
    small = omega arith;
    counted = refl;
  };
  chain = (refl, omega arith, refl);
  counted = refl;
  ended = refl;
}

busy-InRange : InRange busy
busy-InRange = (omega arith, omega arith)

-- What the new segments carry, and the FIN of each.
show : Option TcpSender → List (List ℕ × Bool)
show none = []
show (some s) = map (λ seg. (str seg.payload, seg.header.fin)) s.segments_out

filled : show (fill_window busy) ≡ (7 ∷ 8 ∷ [], false) ∷ []
unfolding show fill_window fill_loop fill_once send_data make_segment_and_send ByteStream.read
    ByteStream.pop_output ByteStream.peek_output BufferList.remove_prefix BufferList.concatenate
    Buffer.remove_prefix
filled = refl

fill_window-Sends_example : (s' : TcpSender) × (fill_window busy ≡ some s') × Sends busy s'
fill_window-Sends_example = fill_window-Sends busy busy-Valid busy-InRange

fill_window_within_example :
    (s' : TcpSender) × (fill_window busy ≡ some s')
    × (s'.recv_ackno ≡ 1)
    × (s'.next_seqno ≤ s'.recv_ackno + 4 + bit s'.fin_sent)
fill_window_within_example =
    fill_window_within busy busy-Valid busy-InRange refl refl (omega arith) (omega arith)

abbrev shrunk : TcpSender
shrunk = record busy { window_size = 1 }

shrunk-Valid : Valid shrunk
shrunk-Valid = record {
  word = busy-Valid.word;
  stream = busy-Valid.stream;
  chain = busy-Valid.chain;
  counted = refl;
  ended = refl;
}

fill_window_overshoots_example :
    (s' : TcpSender) × (fill_window shrunk ≡ some s') × (s'.stream.size ≡ 0)
fill_window_overshoots_example =
    fill_window_overshoots shrunk shrunk-Valid busy-InRange refl refl (omega arith)

ack_received-Acks_example :
    ((busy.next_seqno < unwrap (wrap 3 isn) isn 3)
      × (ack_received (wrap 3 isn) 8 busy ≡ some (false, busy)))
    ⊎ ((unwrap (wrap 3 isn) isn 3 ≤ busy.recv_ackno)
        × (ack_received (wrap 3 isn) 8 busy ≡ some (true, record busy { window_size = 8 })))
    ⊎ ((busy.recv_ackno < unwrap (wrap 3 isn) isn 3)
        × (unwrap (wrap 3 isn) isn 3 ≤ busy.next_seqno)
        × (s' : TcpSender) × (ack_received (wrap 3 isn) 8 busy ≡ some (true, s'))
        × Acks (unwrap (wrap 3 isn) isn 3) 8 busy s')
ack_received-Acks_example = ack_received-Acks busy (wrap 3 isn) 8 busy-Valid busy-InRange

expire_lem_example :
    ((expire 3 busy).segments_out ≡ [] ++ repeat 3 in_flight)
    × ((expire 3 busy).retransmission_timeout ≡ 1000 * 2 ^ 3)
    × ((expire 3 busy).consecutive_retransmissions ≡ 0 + 3)
    × ((expire 3 busy).segments_outgoing ≡ busy.segments_outgoing)
expire_lem_example = expire_lem 3 busy in_flight [] refl refl refl (omega arith) (omega arith)
