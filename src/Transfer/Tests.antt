-- ===== src/Transfer/Tests.antt =====
-- Three bytes that cross a link (libsponge/tcp_sender.cc and tcp_receiver.cc).
use cs.Prelude.{
  ◌++◌, true, some, ◌<◌, ℕ, ◌≤◌, ◌≡◌, refl, Bool, true, Option, none, some, List, [], ◌∷◌, ◌++◌,
  arith, take, length,
}
use cs.Seqno.{WrappingInt32, wrap}
use cs.Seqno
use cs.Buffer
use cs.BufferList
use cs.BufferList.Laws.{contents}
use cs.ByteStream
use cs.Reassembler
use cs.Segment.{TcpSegment}
use cs.Segment
use cs.Sender.{TcpSender, fill_window, ack_received}
use cs.Sender
use cs.Receiver.{TcpReceiver, segment_received, ackno, stream_out}
use cs.Receiver
use cs.Transfer.{Step, Link, Reach, established, sent, with_bytes, write, fill, arrive, here, next}
use cs.Transfer.Delivery.{Reach-Delivered}
use cs.Transfer.Progress.{Responds, Reach-Responds}
use cs.Transfer.Recovery.{Stalled, resent, Reach-Recovers}
use cs.Transfer.Handshake.{handshake_establishes}

abbrev isn : WrappingInt32
isn = record { raw_value = 4294967295 }

abbrev start : Link
start = established 16 1000 isn 100 16

abbrev filled : Option TcpSender → TcpSender
filled none = start.sender
filled (some s) = s

abbrev taken : Option (Bool × TcpReceiver) → TcpReceiver
taken none = start.receiver
taken (some (b, r)) = r

abbrev with_three : Link
with_three = record start {
  sender = with_bytes (1 ∷ 2 ∷ 3 ∷ []) start.sender;
  written = take (ByteStream.write (1 ∷ 2 ∷ 3 ∷ []) start.sender.stream).0 (1 ∷ 2 ∷ 3 ∷ []);
}

abbrev gone_out : Link
gone_out = sent with_three.sender.next_seqno (filled (fill_window with_three.sender)) with_three

abbrev first_sent : List (ℕ × TcpSegment) → ℕ × TcpSegment
first_sent [] = (0, Segment.new)
first_sent (p ∷ ps) = p

abbrev arrived : Link
arrived = record gone_out {
  receiver = taken (segment_received (first_sent gone_out.network).1 gone_out.receiver);
}

arrived-Reach : Reach start arrived
unfolding Seqno.wrap Seqno.unwrap Buffer.remove_prefix BufferList.concatenate_all_from
    BufferList.concatenate_all BufferList.concatenate_from BufferList.concatenate
    BufferList.size_from BufferList.size BufferList.remove_prefix ByteStream.init ByteStream.write
    ByteStream.peek_output ByteStream.pop_output ByteStream.read ByteStream.end_input
    ByteStream.set_error Reassembler.merge_substring Reassembler.rev_onto Reassembler.lower_bound
    Reassembler.back_loop Reassembler.back_from_end Reassembler.back_from Reassembler.merge_back
    Reassembler.forward_loop Reassembler.merge_forward Reassembler.insert Reassembler.init
    Reassembler.merge_all Reassembler.write_out Reassembler.keep_back Reassembler.finish
    Reassembler.trim Reassembler.push_substring Receiver.init Receiver.inbound Receiver.deliver
    Receiver.take_fin Receiver.set_ackno Receiver.segment_received Sender.init
    Sender.make_segment_and_send Sender.send_data Sender.fill_once Sender.fill_loop
    Sender.fill_window Sender.drop_acked Sender.restart_timer Sender.ack_received Sender.tick
    Sender.send_empty_segment
arrived-Reach =
    next
      (next (next here (write start (1 ∷ 2 ∷ 3 ∷ []) refl (omega arith) (omega arith, omega arith)))
        (fill with_three (filled (fill_window with_three.sender)) refl))
      (arrive gone_out 0 (first_sent gone_out.network).0 (first_sent gone_out.network).1
        (first_sent gone_out.network).1 true arrived.receiver refl
        (record { same_seqno = refl; same_syn = refl; same_fin = refl; same_payload = refl })
        (record { going = refl; small = omega arith; below = omega arith; above = omega arith })
        refl)

-- All three bytes have come, in order.
arrived-contents : contents (stream_out arrived.receiver).stream_buffer ≡ 1 ∷ 2 ∷ 3 ∷ []
unfolding Seqno.wrap Seqno.unwrap Buffer.remove_prefix BufferList.concatenate_all_from
    BufferList.concatenate_all BufferList.concatenate_from BufferList.concatenate
    BufferList.size_from BufferList.size BufferList.remove_prefix ByteStream.init ByteStream.write
    ByteStream.peek_output ByteStream.pop_output ByteStream.read ByteStream.end_input
    ByteStream.set_error Reassembler.merge_substring Reassembler.rev_onto Reassembler.lower_bound
    Reassembler.back_loop Reassembler.back_from_end Reassembler.back_from Reassembler.merge_back
    Reassembler.forward_loop Reassembler.merge_forward Reassembler.insert Reassembler.init
    Reassembler.merge_all Reassembler.write_out Reassembler.keep_back Reassembler.finish
    Reassembler.trim Reassembler.push_substring Receiver.init Receiver.inbound Receiver.deliver
    Receiver.take_fin Receiver.set_ackno Receiver.segment_received Sender.init
    Sender.make_segment_and_send Sender.send_data Sender.fill_once Sender.fill_loop
    Sender.fill_window Sender.drop_acked Sender.restart_timer Sender.ack_received Sender.tick
    Sender.send_empty_segment
arrived-contents = refl

Reach-Delivered_example :
    (arrived.receiver.reassembler.first_unassemble_byte ≤ length arrived.written)
    × ([] ++ contents (stream_out arrived.receiver).stream_buffer
        ≡ take arrived.receiver.reassembler.first_unassemble_byte arrived.written)
Reach-Delivered_example =
    Reach-Delivered 16 1000 100 16 isn arrived (omega arith) (omega arith) (omega arith)
      arrived-Reach

Reach-Responds_example : Responds arrived
Reach-Responds_example =
    Reach-Responds 16 1000 100 16 isn arrived (omega arith) (omega arith) (omega arith)
      arrived-Reach

handshake_establishes_example :
    (syn : TcpSegment) × (s : TcpSender) × (fill_window (Sender.init 16 1000 isn) ≡ some s)
    × (s.segments_out ≡ syn ∷ [])
    × (segment_received syn (Receiver.init 16) ≡ some (true, start.receiver))
    × (ackno start.receiver ≡ some (wrap 1 isn))
    × (ack_received (wrap 1 isn) 100 (record s { segments_out = [] }) ≡ some (true, start.sender))
handshake_establishes_example = handshake_establishes 16 1000 100 16 isn (omega arith)

-- The same bytes, lost on the way.
gone_out-Reach : Reach start gone_out
unfolding Seqno.wrap Seqno.unwrap Buffer.remove_prefix BufferList.concatenate_all_from
    BufferList.concatenate_all BufferList.concatenate_from BufferList.concatenate
    BufferList.size_from BufferList.size BufferList.remove_prefix ByteStream.init ByteStream.write
    ByteStream.peek_output ByteStream.pop_output ByteStream.read ByteStream.end_input
    ByteStream.set_error Reassembler.merge_substring Reassembler.rev_onto Reassembler.lower_bound
    Reassembler.back_loop Reassembler.back_from_end Reassembler.back_from Reassembler.merge_back
    Reassembler.forward_loop Reassembler.merge_forward Reassembler.insert Reassembler.init
    Reassembler.merge_all Reassembler.write_out Reassembler.keep_back Reassembler.finish
    Reassembler.trim Reassembler.push_substring Receiver.init Receiver.inbound Receiver.deliver
    Receiver.take_fin Receiver.set_ackno Receiver.segment_received Sender.init
    Sender.make_segment_and_send Sender.send_data Sender.fill_once Sender.fill_loop
    Sender.fill_window Sender.drop_acked Sender.restart_timer Sender.ack_received Sender.tick
    Sender.send_empty_segment
gone_out-Reach =
    next (next here (write start (1 ∷ 2 ∷ 3 ∷ []) refl (omega arith) (omega arith, omega arith)))
      (fill with_three (filled (fill_window with_three.sender)) refl)

gone_out-Stalled : Stalled gone_out 1000 (first_sent gone_out.network).1 []
unfolding Seqno.wrap Seqno.unwrap Buffer.remove_prefix BufferList.concatenate_all_from
    BufferList.concatenate_all BufferList.concatenate_from BufferList.concatenate
    BufferList.size_from BufferList.size BufferList.remove_prefix ByteStream.init ByteStream.write
    ByteStream.peek_output ByteStream.pop_output ByteStream.read ByteStream.end_input
    ByteStream.set_error Reassembler.merge_substring Reassembler.rev_onto Reassembler.lower_bound
    Reassembler.back_loop Reassembler.back_from_end Reassembler.back_from Reassembler.merge_back
    Reassembler.forward_loop Reassembler.merge_forward Reassembler.insert Reassembler.init
    Reassembler.merge_all Reassembler.write_out Reassembler.keep_back Reassembler.finish
    Reassembler.trim Reassembler.push_substring Receiver.init Receiver.inbound Receiver.deliver
    Receiver.take_fin Receiver.set_ackno Receiver.segment_received Sender.init
    Sender.make_segment_and_send Sender.send_data Sender.fill_once Sender.fill_loop
    Sender.fill_window Sender.drop_acked Sender.restart_timer Sender.ack_received Sender.tick
    Sender.send_empty_segment
gone_out-Stalled = record {
  on = refl;
  late = refl;
  oldest = refl;
  some_bytes = omega arith;
  caught_up = refl;
  near = record { going = refl; small = omega arith; below = omega arith; above = omega arith };
  space = omega arith;
  open_now = refl;
}

Reach-Recovers_example :
    Step gone_out (resent 1000 gone_out)
    × ((resent 1000 gone_out).network
        ≡ gone_out.network ++ (gone_out.sender.recv_ackno, (first_sent gone_out.network).1) ∷ [])
    × (r : TcpReceiver) × (segment_received (first_sent gone_out.network).1 gone_out.receiver
        ≡ some (true, r))
    × Step (resent 1000 gone_out) (record (resent 1000 gone_out) { receiver = r })
    × (gone_out.receiver.reassembler.first_unassemble_byte < r.reassembler.first_unassemble_byte)
Reach-Recovers_example =
    Reach-Recovers 16 1000 100 16 isn gone_out 1000 (first_sent gone_out.network).1 [] (omega arith)
      (omega arith) (omega arith) gone_out-Reach gone_out-Stalled
