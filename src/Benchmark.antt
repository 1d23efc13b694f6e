-- ===== src/Benchmark.antt =====
-- apps/tcp_benchmark.cc: two connections that hand each other their segments, in order or in reverse.
-- The length of the string is that of the bytes given; the clock and what is printed are left out.
pub mod Writing
mod Tests
use cs.Prelude.{
  ℕ, zero, suc, Bool, true, false, ◌&&◌, ◌||◌, not, List, [], ◌∷◌, ◌++◌, if◌then◌else◌, ◌==◌, ltb,
  take, min,
}
use mathlib.Core.List.{reverse}
use cs.Outcome.{Outcome, returned, thrown, ◌>>=◌, of_option}
use cs.Seqno.{WrappingInt32}
use cs.Buffer.{Buffer, of_string, str, size, remove_prefix}
use cs.ByteStream.{buffer_size, eof, read}
use cs.Segment.{TcpSegment}
use cs.Connection.{TcpConnection, init, connect, write, end_input_stream, segment_received, tick}
use cs.SpongeSocket.Loop.{TcpConfig, default_config}
use cs.SpongeSocket.{remaining_outbound_capacity, inbound_stream, with_inbound}

-- What `main_loop` keeps between its turns.
pub record Bench : Type 0 where
  pub x : TcpConnection
  pub y : TcpConnection
  pub bytes_to_send : Buffer
  pub x_closed : Bool
  pub string_received : List ℕ

-- Every segment, in this order.
unfoldable pub receive_each : List TcpSegment → TcpConnection → Outcome TcpConnection
receive_each [] y = returned y
receive_each (seg ∷ segs) y = of_option (segment_received seg y) >>= receive_each segs

-- Without the vector, which is empty before the call and after it.
unfoldable pub move_segments :
    TcpConnection → TcpConnection → Bool → Outcome (TcpConnection × TcpConnection)
move_segments x y reorder =
    receive_each (if reorder then reverse x.segments_out else x.segments_out) y
    >>= (λ y'. returned (record x { segments_out = [] }, y'))

abbrev pub more_to_write : Bench → Bool
more_to_write s = ltb 0 (size s.bytes_to_send) && ltb 0 (remaining_outbound_capacity s.x)

-- `want`
abbrev pub want : Bench → ℕ
want s = min (remaining_outbound_capacity s.x) (size s.bytes_to_send)

-- From the write on: a short one is an exception.
abbrev pub after_write : ℕ × TcpConnection → Bench → Outcome Bench
after_write (written, x) s =
    if not (want s == written)
    then thrown
    else of_option (remove_prefix written s.bytes_to_send)
      >>= (λ b. returned (record s { x = x; bytes_to_send = b }))

abbrev pub write_once : Bench → Outcome Bench
write_once s =
    of_option (write (take (want s) (str s.bytes_to_send)) s.x) >>= (λ r. after_write r s)

-- `while (bytes_to_send.size() and x.remaining_outbound_capacity())`, which writes a byte at least.
unfoldable pub write_input_loop : ℕ → Bench → Outcome Bench
write_input_loop zero s = returned s
write_input_loop (suc n) s = elim (more_to_write s) [
  | true ↦ write_once s >>= write_input_loop n
  | false ↦ returned s
]

abbrev pub write_input : Bench → Outcome Bench
write_input s = write_input_loop (size s.bytes_to_send) s

abbrev pub close_input : Bench → Outcome Bench
close_input s =
    if (size s.bytes_to_send == 0) && not s.x_closed
    then of_option (end_input_stream s.x) >>= (λ x. returned (record s { x = x; x_closed = true }))
    else returned s

abbrev pub exchange : Bool → Bench → Outcome Bench
exchange reorder s =
    move_segments s.x s.y reorder
    >>= (λ (x, y). move_segments y x false >>= (λ (y', x'). returned (record s { x = x'; y = y' })))

abbrev pub read_available : Bench → Outcome Bench
read_available s =
    let available_output : ℕ = buffer_size (inbound_stream s.y) in
    if ltb 0 available_output
    then of_option (read available_output (inbound_stream s.y)) >>= (λ (bytes, b).
      returned (record s { y = with_inbound b s.y; string_received = s.string_received ++ bytes }))
    else returned s

abbrev pub pass_second : Bench → Bench
pass_second s = record s { x = tick 1000 s.x; y = tick 1000 s.y }

-- `loop`
unfoldable pub bench_turn : Bool → Bench → Outcome Bench
bench_turn reorder s =
    write_input s
    >>= close_input
    >>= exchange reorder
    >>= read_available
    >>= (λ t. returned (pass_second t))

-- `TCPConnection{config}`.
abbrev configured_with : TcpConfig → WrappingInt32 → TcpConnection
configured_with config isn = init config.recv_capacity config.send_capacity config.rt_timeout isn

-- What comes before the loops; a configuration without a fixed number draws both at random.
unfoldable pub set_out : WrappingInt32 → WrappingInt32 → List ℕ → Outcome Bench
set_out isn_x isn_y string_to_send =
    of_option (connect (configured_with default_config isn_x)) >>= (λ x.
      of_option (end_input_stream (configured_with default_config isn_y)) >>= (λ y.
        returned (record {
          x = x;
          y = y;
          bytes_to_send = of_string string_to_send;
          x_closed = false;
          string_received = [];
        })))

-- `while (not y.inbound_stream().eof())`, of at most so many turns.
unfoldable pub until_eof : ℕ → Bool → Bench → Outcome Bench
until_eof zero reorder s = returned s
until_eof (suc n) reorder s = elim (eof (inbound_stream s.y)) [
  | true ↦ returned s
  | false ↦ bench_turn reorder s >>= until_eof n reorder
]

-- `while (x.active() or y.active())`, likewise.
unfoldable pub until_over : ℕ → Bool → Bench → Outcome Bench
until_over zero reorder s = returned s
until_over (suc n) reorder s = elim (s.x.if_active || s.y.if_active) [
  | true ↦ bench_turn reorder s >>= until_over n reorder
  | false ↦ returned s
]

unfoldable pub same_string : List ℕ → List ℕ → Bool
same_string [] [] = true
same_string [] (c ∷ s) = false
same_string (c ∷ s) [] = false
same_string (c ∷ s) (d ∷ t) = (c == d) && same_string s t

abbrev pub compare_strings : List ℕ → Bench → Outcome Bench
compare_strings string_to_send s =
    if not (same_string s.string_received string_to_send) then thrown else returned s

-- The two loops are of at most so many turns each.
abbrev pub main_loop : ℕ → ℕ → Bool → WrappingInt32 → WrappingInt32 → List ℕ → Outcome Bench
main_loop n m reorder isn_x isn_y string_to_send =
    set_out isn_x isn_y string_to_send
    >>= until_eof n reorder
    >>= compare_strings string_to_send
    >>= until_over m reorder
