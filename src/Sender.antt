-- ===== src/Sender.antt =====
-- libsponge/tcp_sender.hh and tcp_sender.cc: the outbound stream cut to segments within the peer's
-- window, the segments that are in flight, and the retransmission timer. The random initial number
-- is the caller's, like the fixed one.
pub mod Flight
pub mod Round
pub mod Fill
pub mod Window
pub mod Acked
pub mod Timer
mod Tests
use cs.Prelude.{
  ℕ, zero, suc, ◌+◌, Bool, true, false, ◌&&◌, ◌||◌, not, Option, none, some, List, [], ◌∷◌, ◌++◌,
  min, if◌then◌else◌, ◌==◌, ltb, leb, add64, sub64, mul64, add32,
}
use cs.Seqno.{WrappingInt32, wrap, unwrap}
use cs.Buffer.{of_string}
use cs.ByteStream.{ByteStream, eof}
use cs.ByteStream
use cs.Segment.{TcpSegment, blank, new, length_in_sequence_space}

pub data TcpState : Type 0 where
  running : TcpState
  stop : TcpState

pub record TcpSender : Type 0 where
  pub isn : WrappingInt32
  pub segments_out : List TcpSegment
  pub segments_outgoing : List TcpSegment
  pub bytes_in_flight : ℕ
  pub recv_ackno : ℕ
  pub window_size : ℕ
  pub stream : ByteStream
  pub next_seqno : ℕ
  pub syn_flag : Bool
  pub old_syn_flag : Bool
  pub fin_sent : Bool
  pub initial_retransmission_timeout : ℕ
  pub consecutive_retransmissions : ℕ
  pub state : TcpState
  pub time : ℕ
  pub retransmission_timeout : ℕ

-- The constructor.
unfoldable pub init : ℕ → ℕ → WrappingInt32 → TcpSender
unfolding ByteStream.init
init capacity retx_timeout isn = record {
  isn = isn;
  segments_out = [];
  segments_outgoing = [];
  bytes_in_flight = 0;
  recv_ackno = 0;
  window_size = 1;
  stream = ByteStream.init capacity;
  next_seqno = 0;
  syn_flag = false;
  old_syn_flag = false;
  fin_sent = false;
  initial_retransmission_timeout = retx_timeout;
  consecutive_retransmissions = 0;
  state = stop;
  time = 0;
  retransmission_timeout = retx_timeout;
}

abbrev pub next_number : TcpSender → WrappingInt32
next_number s = wrap s.next_seqno s.isn

abbrev pub numbered : TcpSegment → TcpSender → TcpSegment
numbered seg s = record seg { header = record seg.header { seqno = next_number s } }

unfoldable pub make_segment_and_send : TcpSegment → TcpSender → TcpSender
make_segment_and_send seg s =
    let sent : TcpSegment = numbered seg s in
    record s {
      next_seqno = add64 s.next_seqno (length_in_sequence_space sent);
      bytes_in_flight = add64 s.bytes_in_flight (length_in_sequence_space sent);
      segments_out = s.segments_out ++ sent ∷ [];
      segments_outgoing = s.segments_outgoing ++ sent ∷ [];
    }

-- `TCPConfig::MAX_PAYLOAD_SIZE`.
abbrev pub max_payload_size : ℕ
max_payload_size = 1452

-- What is left of the window; the subtraction is unsigned.
abbrev pub room : ℕ → TcpSender → ℕ
room window s = sub64 window (sub64 s.next_seqno s.recv_ackno)

-- Whether the FIN goes out with what was just read.
abbrev pub with_fin : TcpSender → ByteStream → Bool
with_fin s rest = eof rest && not s.fin_sent

abbrev pub data_segment : List ℕ → Bool → TcpSegment
data_segment bytes fin = record { header = record blank { fin = fin }; payload = of_string bytes }

-- The end of the loop's body, from the bytes that were read on; the flag tells whether it goes on.
unfoldable pub send_data : List ℕ → ByteStream → TcpSender → Bool × TcpSender
send_data bytes rest s =
    let seg : TcpSegment = data_segment bytes (with_fin s rest) in
    let s' : TcpSender = record s { stream = rest; fin_sent = s.fin_sent || with_fin s rest } in
    if length_in_sequence_space seg == 0
    then (false, s')
    else (true, record (make_segment_and_send seg s') { state = running })

-- The loop's condition and its body.
unfoldable pub fill_once : ℕ → TcpSender → Option (Bool × TcpSender)
fill_once window s =
    if (room window s == 0) || (eof s.stream && s.fin_sent)
    then some (false, s)
    else elim (ByteStream.read (min (room window s) max_payload_size) s.stream) [
      | none ↦ none
      | some (bytes, rest) ↦ some (send_data bytes rest s)
    ]

-- `while ((copy_window_size - (_next_seqno - _recv_ackno)) > 0)`, with as many rounds as the first
-- argument says, and `none` after these.
unfoldable pub fill_loop : ℕ → ℕ → TcpSender → Option TcpSender
fill_loop zero window s = none
fill_loop (suc rounds) window s = elim (fill_once window s) [
  | none ↦ none
  | some (false, s') ↦ some s'
  | some (true, s') ↦ fill_loop rounds window s'
]

-- Each round but the last takes a byte of the stream or sends the FIN.
abbrev pub enough : TcpSender → ℕ
enough s = s.stream.size + 2

-- `copy_window_size`.
abbrev pub window_of : TcpSender → ℕ
window_of s = if s.window_size == 0 then 1 else s.window_size

abbrev pub syn_segment : TcpSegment
syn_segment = record new { header = record blank { syn = true } }

unfoldable pub fill_window : TcpSender → Option TcpSender
fill_window s =
    if not s.syn_flag
    then some (record (make_segment_and_send syn_segment s) { syn_flag = true; state = running })
    else if not s.old_syn_flag
    then some s
    else fill_loop (enough s) (window_of s) s

-- `_segments_outgoing` without what is acknowledged.
unfoldable pub drop_acked : ℕ → List TcpSegment → TcpSender → TcpSender
drop_acked abs_ackno [] s = s
drop_acked abs_ackno (seg ∷ segs) s =
    let end : ℕ =
      add64 (unwrap seg.header.seqno s.isn s.next_seqno) (length_in_sequence_space seg) in
    let popped : TcpSender = record s {
      segments_outgoing = segs;
      bytes_in_flight = sub64 s.bytes_in_flight (length_in_sequence_space seg);
      recv_ackno = end;
    } in
    let rest : TcpSender = drop_acked abs_ackno segs popped in if leb end abs_ackno then rest else s

abbrev pub is_empty : List TcpSegment → Bool
is_empty [] = true
is_empty (seg ∷ segs) = false

-- The timer, and whether anything is left to wait for.
unfoldable pub restart_timer : TcpSender → TcpSender
restart_timer s = record s {
  time = 0;
  consecutive_retransmissions = 0;
  retransmission_timeout = s.initial_retransmission_timeout;
  state = if is_empty s.segments_outgoing then stop else s.state;
}

abbrev pub acked : Option TcpSender → Option (Bool × TcpSender)
acked none = none
acked (some s) = some (true, restart_timer s)

unfoldable pub ack_received : WrappingInt32 → ℕ → TcpSender → Option (Bool × TcpSender)
ack_received ackno window s =
    let abs_ackno : ℕ = unwrap ackno s.isn s.next_seqno in
    let s' : TcpSender = record s { window_size = window } in
    if ltb s.next_seqno abs_ackno
    then some (false, s)
    else if leb abs_ackno s.recv_ackno
    then some (true, s')
    else acked
        (fill_window (drop_acked abs_ackno s.segments_outgoing (record s' { old_syn_flag = true })))

-- `_segments_out.push(_segments_outgoing.front())`, or nothing is left to send again.
abbrev pub send_again : List TcpSegment → TcpSender → TcpSender
send_again [] s = record s { state = stop }
send_again (seg ∷ segs) s = record s { segments_out = s.segments_out ++ seg ∷ [] }

-- `_consecutive_retransmissions` is an `unsigned int`.
abbrev pub timed_out : TcpSender → TcpSender
timed_out s = send_again s.segments_outgoing (record s {
  consecutive_retransmissions = add32 s.consecutive_retransmissions 1;
  retransmission_timeout = mul64 s.retransmission_timeout 2;
  time = 0;
})

unfoldable pub tick : ℕ → TcpSender → TcpSender
tick ms s = elim s.state [
  | stop ↦ s
  | running ↦
      let s' : TcpSender = record s { time = add64 s.time ms } in
      if leb s'.retransmission_timeout s'.time then timed_out s' else s'
]

unfoldable pub send_empty_segment : TcpSender → TcpSender
send_empty_segment s = record s { segments_out = s.segments_out ++ numbered new s ∷ [] }
