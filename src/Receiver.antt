-- ===== src/Receiver.antt =====
-- libsponge/tcp_receiver.hh and tcp_receiver.cc: segments to substrings of the inbound stream, and
-- the acknowledgment number and window that go back.
pub mod Sync
pub mod Handshake
pub mod EarlyFin
mod Tests
use cs.Prelude.{
  ℕ, Bool, true, false, ◌&&◌, ◌||◌, not, Option, none, some, if◌then◌else◌, ◌==◌, leb, add64, sub64,
}
use cs.Seqno.{WrappingInt32, wrap, unwrap}
use cs.Buffer.{str}
use cs.ByteStream.{ByteStream}
use cs.ByteStream
use cs.Reassembler.{StreamReassembler, push_substring}
use cs.Reassembler
use cs.Segment.{TcpSegment, length_in_sequence_space}

pub record TcpReceiver : Type 0 where
  pub reassembler : StreamReassembler
  pub syn_received : Bool
  pub fin_received : Bool
  pub isn : WrappingInt32
  pub last_ackno : WrappingInt32
  pub checkpoint : ℕ

-- The constructor.
unfoldable pub init : ℕ → TcpReceiver
unfolding Reassembler.init
init capacity = record {
  reassembler = Reassembler.init capacity;
  syn_received = false;
  fin_received = false;
  isn = record { raw_value = 0 };
  last_ackno = record { raw_value = 0 };
  checkpoint = 0;
}

abbrev pub stream_out : TcpReceiver → ByteStream
stream_out r = r.reassembler.output

abbrev pub ackno : TcpReceiver → Option WrappingInt32
ackno r = if r.syn_received then some r.last_ackno else none

abbrev pub window_size : TcpReceiver → ℕ
window_size r = ByteStream.remaining_capacity (stream_out r)

abbrev pub unassembled_bytes : TcpReceiver → ℕ
unassembled_bytes r = r.reassembler.num_unassembled_byte

-- The three early returns: no SYN yet, an end mark after the end, and a second SYN.
abbrev pub refused : TcpSegment → TcpReceiver → Bool
refused seg r =
    (not seg.header.syn && not r.syn_received)
    || (r.reassembler.eof && seg.header.fin)
    || (seg.header.syn && r.syn_received)

abbrev pub take_syn : TcpSegment → TcpReceiver → TcpReceiver
take_syn seg r =
    if seg.header.syn then record r { isn = seg.header.seqno; syn_received = true } else r

abbrev pub at_least_one : ℕ → ℕ
at_least_one n = if n == 0 then 1 else n

abbrev pub abs_seqno : TcpSegment → TcpReceiver → ℕ
abs_seqno seg r = unwrap seg.header.seqno r.isn r.checkpoint

-- Whether the first or the last number of the segment lies in the window.
unfoldable pub inbound : TcpSegment → TcpReceiver → Bool
inbound seg r =
    let win_start : ℕ = unwrap r.last_ackno r.isn r.checkpoint in
    let win_end : ℕ = sub64 (add64 win_start (at_least_one (window_size r))) 1 in
    let start : ℕ = abs_seqno seg r in
    let end : ℕ = sub64 (add64 start (at_least_one (length_in_sequence_space seg))) 1 in
    (leb win_start start && leb start win_end) || (leb win_start end && leb end win_end)

abbrev pub pushed : TcpReceiver → Option StreamReassembler → Option TcpReceiver
pushed r none = none
pushed r (some q) = some (record r { reassembler = q; checkpoint = q.first_unassemble_byte })

-- `none` where `push_substring` is undefined.
unfoldable pub deliver : TcpSegment → TcpReceiver → Option TcpReceiver
deliver seg r =
    if inbound seg r
    then pushed r
        (push_substring (str seg.payload) (sub64 (abs_seqno seg r) 1) seg.header.fin r.reassembler)
    else some r

abbrev pub end_output : TcpReceiver → TcpReceiver
end_output r =
    let q : StreamReassembler = r.reassembler in
    record r { reassembler = record q { output = ByteStream.end_input q.output } }

unfoldable pub take_fin : TcpSegment → TcpReceiver → TcpReceiver
take_fin seg r =
    let r' : TcpReceiver = record r { fin_received = true } in
    if seg.header.fin && not r.fin_received
    then (if seg.header.syn && (length_in_sequence_space seg == 2) then end_output r' else r')
    else r

-- The number that is due next: one for the SYN, the bytes put together, and one for the FIN.
abbrev pub due : TcpReceiver → ℕ
due r =
    add64 (add64 r.reassembler.first_unassemble_byte 1)
      (if r.fin_received && (unassembled_bytes r == 0) then 1 else 0)

unfoldable pub set_ackno : TcpReceiver → TcpReceiver
set_ackno r = record r { last_ackno = wrap (due r) r.isn }

-- `inbound || (fin && !old_fin) || (syn && !old_syn)`, with the flags before the call.
abbrev pub answer : TcpSegment → TcpReceiver → Bool → Bool
answer seg old inside =
    inside || (seg.header.fin && not old.fin_received) || (seg.header.syn && not old.syn_received)

abbrev pub finish : TcpSegment → TcpReceiver → Option TcpReceiver → Option (Bool × TcpReceiver)
finish seg old none = none
finish seg old (some r) =
    some (answer seg old (inbound seg (take_syn seg old)), set_ackno (take_fin seg r))

unfoldable pub segment_received : TcpSegment → TcpReceiver → Option (Bool × TcpReceiver)
segment_received seg r =
    if refused seg r then some (false, r) else finish seg r (deliver seg (take_syn seg r))
