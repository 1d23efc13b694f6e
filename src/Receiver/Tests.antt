-- ===== src/Receiver/Tests.antt =====
-- Runs of libsponge/tcp_receiver.cc on concrete segments.
use cs.Prelude.{◌⊎◌, ◌||◌, ℕ, ◌+◌, ◌≤◌, ◌≡◌, refl, Bool, true, some, [], ◌∷◌, arith}
use cs.Seqno.{WrappingInt32, wrap}
use cs.Buffer.{of_string}
use cs.Reassembler
use cs.Reassembler.Window.{limit}
use cs.Reassembler.Delivery.{init-Inv}
use cs.Segment.{TcpSegment, blank, new}
use cs.ByteStream
use cs.BufferList.Laws.{contents}
use cs.Receiver.{TcpReceiver, segment_received, due, stream_out, ackno}
use cs.Receiver.EarlyFin.{early_fin_ends}
use cs.Receiver.Sync.{Synced, Carries, segment_received-Synced}
use cs.Receiver.Handshake.{opened}

-- Near the wrap-around of the sequence numbers.
abbrev isn : WrappingInt32
isn = record { raw_value = 4294967294 }

abbrev syn_segment : TcpSegment
syn_segment = record new { header = record blank { seqno = isn; syn = true } }

abbrev counting : ℕ → ℕ
counting i = i + 1

-- Bytes 1 to 3 of the stream, after a gap.
abbrev data_segment : TcpSegment
data_segment = record {
  header = record blank { seqno = wrap 2 isn };
  payload = of_string (2 ∷ 3 ∷ []);
}

abbrev ready : TcpReceiver
ready = record (opened 8 isn) { last_ackno = wrap 1 isn }

ready-Synced : Synced counting ready
unfolding Reassembler.init wrap
ready-Synced = record {
  open_now = refl;
  word = omega arith;
  stream = init-Inv counting 8 (omega arith);
  acked = refl;
  followed = refl;
}

data-Carries : Carries counting ready data_segment 1
unfolding Reassembler.init wrap
data-Carries = record {
  plain = refl;
  numbered = refl;
  bytes = refl;
  short = omega arith;
  going = refl;
  small = omega arith;
  below = omega arith;
  above = omega arith;
}

segment_received-Synced_example :
    (ok : Bool) × (r' : TcpReceiver) × (segment_received data_segment ready ≡ some (ok, r'))
    × Synced counting r'
    × (limit r'.reassembler ≡ limit ready.reassembler)
    × (due ready ≤ due r')
    × (((ready.fin_received || data_segment.header.fin) ≡ true)
        ⊎ (due r' ≡ r'.reassembler.first_unassemble_byte + 1))
unfolding Reassembler.init
segment_received-Synced_example =
    segment_received-Synced counting ready data_segment 1 ready-Synced data-Carries (omega arith)

-- The end of the stream after two bytes that have not come.
abbrev fin_segment : TcpSegment
fin_segment = record new { header = record blank { seqno = wrap 3 isn; fin = true } }

fin-Carries : Carries counting ready fin_segment 2
unfolding Reassembler.init wrap
fin-Carries = record {
  plain = refl;
  numbered = refl;
  bytes = refl;
  short = omega arith;
  going = refl;
  small = omega arith;
  below = omega arith;
  above = omega arith;
}

early_fin_ends_example :
    (r' : TcpReceiver) × (segment_received fin_segment ready ≡ some (true, r'))
    × ((stream_out r').if_end ≡ true)
    × (contents (stream_out r').stream_buffer ≡ contents (stream_out ready).stream_buffer)
    × (ackno r' ≡ some (wrap (ready.reassembler.first_unassemble_byte + 2) ready.isn))
unfolding Reassembler.init ByteStream.init
early_fin_ends_example =
    early_fin_ends counting ready fin_segment 2 ready-Synced fin-Carries (omega arith) (omega arith)
      refl refl refl refl refl
