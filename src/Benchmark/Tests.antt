-- ===== src/Benchmark/Tests.antt =====
-- Runs of apps/tcp_benchmark.cc on a few bytes.
use cs.Prelude.{ℕ, ◌≡◌, refl, Bool, true, false, ◌||◌, List, [], ◌∷◌}
use cs.Outcome.{Outcome, returned, thrown, undefined}
use cs.Seqno.{WrappingInt32}
use cs.Seqno
use cs.Buffer
use cs.BufferList
use cs.ByteStream
use cs.Reassembler
use cs.Receiver
use cs.Sender
use cs.Connection
use cs.Benchmark.{
  Bench, main_loop, same_string, receive_each, move_segments, write_input_loop, bench_turn, set_out,
  until_eof, until_over,
}

abbrev number : ℕ → WrappingInt32
number n = record { raw_value = n }

-- What was received, and whether a connection is still active, where the program returns. The
-- sequence numbers of one connection wrap around on the way.
abbrev summary : Outcome Bench → List ℕ × Bool
summary (returned s) = (s.string_received, s.x.if_active || s.y.if_active)
summary thrown = ([], true)
summary undefined = ([], true)

abbrev ran : Bool → Outcome Bench
ran reorder = main_loop 8 12 reorder (number 4294967294) (number 7) (1 ∷ 2 ∷ 3 ∷ [])

ran_to_the_end :
    (summary (ran false) ≡ (1 ∷ 2 ∷ 3 ∷ [], false)) × (summary (ran true) ≡ (1 ∷ 2 ∷ 3 ∷ [], false))
unfolding receive_each move_segments write_input_loop bench_turn set_out same_string until_eof
    until_over Seqno.wrap Seqno.unwrap Buffer.remove_prefix BufferList.concatenate_all_from
    BufferList.concatenate_all BufferList.concatenate_from BufferList.concatenate
    BufferList.size_from BufferList.remove_prefix ByteStream.init ByteStream.write
    ByteStream.peek_output ByteStream.pop_output ByteStream.read ByteStream.end_input
    Reassembler.merge_substring Reassembler.rev_onto Reassembler.lower_bound Reassembler.back_loop
    Reassembler.back_from_end Reassembler.back_from Reassembler.merge_back Reassembler.forward_loop
    Reassembler.merge_forward Reassembler.insert Reassembler.init Reassembler.merge_all
    Reassembler.write_out Reassembler.keep_back Reassembler.finish Reassembler.trim
    Reassembler.push_substring Receiver.init Receiver.inbound Receiver.deliver Receiver.take_fin
    Receiver.set_ackno Receiver.segment_received Sender.init Sender.make_segment_and_send
    Sender.send_data Sender.fill_once Sender.fill_loop Sender.fill_window Sender.drop_acked
    Sender.restart_timer Sender.ack_received Sender.tick Sender.send_empty_segment Connection.init
    Connection.set_ack_and_window Connection.send_all Connection.take_rst Connection.take_ack
    Connection.take_data Connection.segment_received Connection.connect Connection.end_input_stream
    Connection.write Connection.retransmit Connection.tick
ran_to_the_end = (refl, refl)
