-- ===== src/Connection.antt =====
-- libsponge/tcp_connection.hh and tcp_connection.cc: a receiver and a sender joined to one endpoint,
-- which sends what the sender queues with the receiver's acknowledgment on it, and knows when it is
-- over.
pub mod Sending
pub mod Closing
pub mod Life
mod Tests
use cs.Prelude.{
  ℕ, ◌*◌, Bool, true, false, ◌&&◌, ◌||◌, not, Option, none, some, List, [], ◌∷◌, ◌++◌,
  if◌then◌else◌, ◌==◌, ltb, leb, add64,
}
use cs.Seqno.{WrappingInt32}
use cs.ByteStream.{eof, set_error, end_input}
use cs.ByteStream
use cs.Segment.{TcpSegment, length_in_sequence_space}
use cs.Receiver.{TcpReceiver, stream_out}
use cs.Receiver
use cs.Sender.{TcpSender, fill_window, ack_received, send_empty_segment, is_empty}
use cs.Sender

pub record TcpConnection : Type 0 where
  pub rt_timeout : ℕ
  pub receiver : TcpReceiver
  pub sender : TcpSender
  pub segments_out : List TcpSegment
  pub linger_after_streams_finish : Bool
  pub if_active : Bool
  pub time_since_last_segment_received : ℕ

-- A new connection of a configuration's capacities, timeout and initial number.
unfoldable pub init : ℕ → ℕ → ℕ → WrappingInt32 → TcpConnection
init recv_capacity send_capacity rt_timeout isn = record {
  rt_timeout = rt_timeout;
  receiver = Receiver.init recv_capacity;
  sender = Sender.init send_capacity rt_timeout isn;
  segments_out = [];
  linger_after_streams_finish = true;
  if_active = true;
  time_since_last_segment_received = 0;
}

abbrev with_ackno : Option WrappingInt32 → TcpSegment → TcpSegment
with_ackno none seg = seg
with_ackno (some n) seg = record seg { header = record seg.header { ack = true; ackno = n } }

-- `set_ack_and_window`, for a receiver; 65535 is the largest `uint16_t`.
unfoldable pub set_ack_and_window : TcpReceiver → TcpSegment → TcpSegment
set_ack_and_window r seg =
    let seg' : TcpSegment = with_ackno (Receiver.ackno r) seg in
    let window : ℕ = if ltb (Receiver.window_size r) 65535 then Receiver.window_size r else 65535 in
    record seg' { header = record seg'.header { win = window } }

abbrev pub send_segment : TcpSegment → TcpConnection → TcpConnection
send_segment seg c = record c {
  segments_out = c.segments_out ++ set_ack_and_window c.receiver seg ∷ [];
}

-- The sender's queue without its front.
abbrev pub pop : List TcpSegment → TcpConnection → TcpConnection
pop segs c = record c { sender = record c.sender { segments_out = segs } }

-- `while (!_sender.segments_out().empty())`, for the queue as it stands.
unfoldable pub send_all : List TcpSegment → TcpConnection → TcpConnection
send_all [] c = c
send_all (seg ∷ segs) c = send_all segs (send_segment seg (pop segs c))

abbrev pub flush : TcpConnection → TcpConnection
flush c = send_all c.sender.segments_out c

-- The front of the queue alone; the calls of it have pushed a segment before.
abbrev pub send_front : List TcpSegment → TcpConnection → TcpConnection
send_front [] c = c
send_front (seg ∷ segs) c = send_segment seg (pop segs c)

abbrev pub send_empty : TcpConnection → TcpConnection
send_empty c =
    let c' : TcpConnection = record c { sender = send_empty_segment c.sender } in
    send_front c'.sender.segments_out c'

-- `fill_window` of the sender.
abbrev pub with_sender : Option TcpSender → TcpConnection → Option TcpConnection
with_sender none c = none
with_sender (some s) c = some (record c { sender = s })

abbrev pub fill : TcpConnection → Option TcpConnection
fill c = with_sender (fill_window c.sender) c

-- Both streams have failed, and the connection is over.
unfoldable pub fail : TcpConnection → TcpConnection
fail c =
    let q = c.receiver.reassembler in
    record c {
      receiver = record c.receiver { reassembler = record q { output = set_error q.output } };
      sender = record c.sender { stream = set_error c.sender.stream };
      if_active = false;
    }

abbrev pub set_rst : List TcpSegment → List TcpSegment
set_rst [] = []
set_rst (seg ∷ segs) = record seg { header = record seg.header { rst = true } } ∷ segs

unfoldable pub send_reset_segment : TcpConnection → TcpConnection
send_reset_segment c =
    let c' : TcpConnection = record c { sender = send_empty_segment ((pop [] c).sender) } in
    fail (send_front (set_rst c'.sender.segments_out) c')

-- Only the SYN was sent, and it is not acknowledged.
abbrev pub syn_sent_only : TcpConnection → Bool
syn_sent_only c = (c.sender.next_seqno == 1) && (c.sender.bytes_in_flight == c.sender.next_seqno)

unfoldable pub take_rst : TcpSegment → TcpConnection → TcpConnection
take_rst seg c =
    if not c.sender.syn_flag || not seg.header.ack && syn_sent_only c
    then c
    else if seg.header.ack && syn_sent_only c
    then fail (pop [] c)
    else send_reset_segment c

-- The peer's stream ended first.
abbrev pub passive_close : TcpConnection → TcpConnection
passive_close c =
    if eof (stream_out c.receiver) && not (eof c.sender.stream) && c.sender.syn_flag
    then record c { linger_after_streams_finish = false }
    else c

abbrev pub flushed : Option TcpConnection → Option (Bool × TcpConnection)
flushed none = none
flushed (some c) = some (true, flush c)

abbrev pub after_ack : Option (Bool × TcpSender) → TcpConnection → Option (Bool × TcpConnection)
after_ack none c = none
after_ack (some (true, s)) c = flushed (fill (record c { sender = s }))
after_ack (some (false, s)) c =
    let c' : TcpConnection = record c { sender = s } in
    if not s.old_syn_flag then some (false, c') else some (true, send_empty c')

-- `if (seg.header().ack) …`; the flag is whether the call goes on.
unfoldable pub take_ack : TcpSegment → TcpConnection → Option (Bool × TcpConnection)
take_ack seg c =
    if not seg.header.ack
    then some (true, c)
    else if not c.sender.syn_flag
    then some (false, c)
    else after_ack (ack_received seg.header.ackno seg.header.win c.sender) c

abbrev pub answered : Option TcpConnection → Option TcpConnection
answered none = none
answered (some c) = some (if is_empty c.sender.segments_out then send_empty c else flush c)

-- `if (seg.length_in_sequence_space() > 0) …`
unfoldable pub take_data : TcpSegment → Option (Bool × TcpConnection) → Option TcpConnection
take_data seg none = none
take_data seg (some (false, c)) = some c
take_data seg (some (true, c)) =
    if ltb 0 (length_in_sequence_space seg) then answered (fill c) else some c

abbrev pub received :
    TcpSegment → Option (Bool × TcpReceiver) → TcpConnection → Option TcpConnection
received seg none c = none
received seg (some (ok, r)) c =
    let c' : TcpConnection = record c { receiver = r } in
    if seg.header.rst
    then some (take_rst seg c')
    else take_data seg (take_ack seg (passive_close c'))

unfoldable pub segment_received : TcpSegment → TcpConnection → Option TcpConnection
segment_received seg c =
    let c' : TcpConnection = record c { time_since_last_segment_received = 0 } in
    received seg (Receiver.segment_received seg c'.receiver) c'

abbrev pub flush_filled : Option TcpConnection → Option TcpConnection
flush_filled none = none
flush_filled (some c) = some (flush c)

unfoldable pub connect : TcpConnection → Option TcpConnection
connect c = flush_filled (fill c)

unfoldable pub end_input_stream : TcpConnection → Option TcpConnection
end_input_stream c =
    flush_filled
      (fill (record c { sender = record c.sender { stream = end_input c.sender.stream } }))

-- How many bytes were accepted, and the connection.
unfoldable pub write : List ℕ → TcpConnection → Option (ℕ × TcpConnection)
write bytes c =
    let (n, s) = ByteStream.write bytes c.sender.stream in
    elim (flush_filled (fill (record c { sender = record c.sender { stream = s } }))) [
      | none ↦ none
      | some c' ↦ some (n, c')
    ]

-- `TCPConfig::MAX_RETX_ATTEMPTS`.
abbrev pub max_retx_attempts : ℕ
max_retx_attempts = 8

-- The segment that the timer queued goes out, or a reset where it was the last attempt.
unfoldable pub retransmit : List TcpSegment → TcpConnection → TcpConnection
retransmit [] c = c
retransmit (seg ∷ segs) c =
    let seg' : TcpSegment = set_ack_and_window c.receiver seg in
    let c' : TcpConnection = pop segs c in
    if ltb max_retx_attempts c.sender.consecutive_retransmissions
    then (let failed : TcpConnection = fail c' in
        record failed { segments_out = failed.segments_out ++ set_rst (seg' ∷ []) })
    else record c' { segments_out = c'.segments_out ++ seg' ∷ [] }

abbrev pub all_acked : TcpConnection → Bool
all_acked c = c.sender.fin_sent && (c.sender.bytes_in_flight == 0)

abbrev pub half_close : TcpConnection → TcpConnection
half_close c =
    if not c.linger_after_streams_finish && all_acked c then record c { if_active = false } else c

abbrev pub lingered : TcpConnection → TcpConnection
lingered c =
    if eof (stream_out c.receiver)
      && eof c.sender.stream
      && all_acked c
      && leb (10 * c.rt_timeout) c.time_since_last_segment_received
    then record c { if_active = false }
    else c

unfoldable pub tick : ℕ → TcpConnection → TcpConnection
tick ms c =
    let c' : TcpConnection = record c {
      time_since_last_segment_received = add64 c.time_since_last_segment_received ms;
      sender = Sender.tick ms c.sender;
    } in
    lingered (half_close (retransmit c'.sender.segments_out c'))

-- The destructor.
unfoldable pub destroy : TcpConnection → TcpConnection
destroy c = if c.if_active then send_reset_segment c else c
