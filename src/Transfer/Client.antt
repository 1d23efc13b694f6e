-- ===== src/Transfer/Client.antt =====
-- What the client of libsponge/tcp_sender.cc does: it writes, and ends its bytes.
use cs.Prelude.{
  ℕ, ◌+◌, ◌-◌, ◌^◌, ◌<◌, ◌≡◌, sym, ap, ap₂, ◌∙◌, false, List, ◌++◌, arith, length, take,
}
use cs.Seqno.{WrappingInt32}
use cs.BufferList.Laws.{contents}
use cs.ByteStream.{end_input}
use cs.ByteStream
use cs.ByteStream.Valid.{write_cut, write-Simulated}
use cs.Reassembler.Slice.{slice, slice-add}
use cs.Sender.{TcpSender}
use cs.Sender.Flight.{InRange}
use cs.Transfer.Sending.{Sound}

-- The client's bytes go to the end of what is held.
pub write-Sound :
    (S : ℕ → ℕ) (isn : WrappingInt32) (w : ℕ) (bytes : List ℕ) (s : TcpSender)
    → let n : ℕ = (ByteStream.write bytes s.stream).0 in
      let t : TcpSender = record s { stream = (ByteStream.write bytes s.stream).1 } in
      Sound S isn w s
      → s.fin_sent ≡ false
      → length bytes < 2 ^ 64
      → take n bytes ≡ slice S w n
      → InRange t
      → Sound S isn (w + n) t
write-Sound S isn w bytes s g open_now short right range = record {
  valid = record {
    word = g.valid.word;
    stream = (write-Simulated s.stream bytes g.valid.stream short).valid;
    chain = g.valid.chain;
    counted = g.valid.counted;
    ended = rw open_now;
  };
  range = range;
  flows = record {
    same_isn = g.flows.same_isn;
    started = g.flows.started;
    position = omega (arith, size, g.flows.position);
    within = omega (arith, size, g.flows.within);
    held = held ∙ joined;
    outgoing = g.flows.outgoing;
  };
}
  where
    n : ℕ
    n = (ByteStream.write bytes s.stream).0

    size : (ByteStream.write bytes s.stream).1.size ≡ s.stream.size + n
    size = (write_cut s.stream bytes g.valid.stream).1

    held :
        contents (ByteStream.write bytes s.stream).1.stream_buffer
        ≡ contents s.stream.stream_buffer ++ take n bytes
    held = (write_cut s.stream bytes g.valid.stream).2

    at : w ≡ w - s.stream.size + s.stream.size
    at = omega (arith, g.flows.within)

    joined :
        contents s.stream.stream_buffer ++ take n bytes
        ≡ slice S
            (w + n - (ByteStream.write bytes s.stream).1.size)
            (ByteStream.write bytes s.stream).1.size
    joined =
        ap₂ ◌++◌ g.flows.held (right ∙ ap (λ i. slice S i n) at)
        ∙ sym (slice-add S (w - s.stream.size) s.stream.size n)
        ∙ ap₂ (slice S) (omega (arith, size, g.flows.within)) (omega (arith, size))

-- The end of the client's bytes.
pub close-Sound :
    (S : ℕ → ℕ) (isn : WrappingInt32) (w : ℕ) (s : TcpSender)
    → Sound S isn w s
    → Sound S isn w (record s { stream = end_input s.stream })
unfolding end_input
close-Sound S isn w s g = record {
  valid = record {
    word = g.valid.word;
    stream = record {
      in_memory = g.valid.stream.in_memory;
      sized = g.valid.stream.sized;
      within = g.valid.stream.within;
      small = g.valid.stream.small;
      counted = g.valid.stream.counted;
    };
    chain = g.valid.chain;
    counted = g.valid.counted;
    ended = ground (arith, g.valid.ended);
  };
  range = g.range;
  flows = record {
    same_isn = g.flows.same_isn;
    started = g.flows.started;
    position = g.flows.position;
    within = g.flows.within;
    held = g.flows.held;
    outgoing = g.flows.outgoing;
  };
}
