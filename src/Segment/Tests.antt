-- ===== src/Segment/Tests.antt =====
-- A segment that is written and read (libsponge/tcp_helpers/tcp_segment.cc).
use cs.Prelude.{◌≡◌, ◌⊎◌, true, some, [], ◌∷◌, arith}
use cs.Buffer.{of_string, str}
use cs.BufferList.{BufferList, concatenate_all}
use cs.Parser.{ParseResult, no_error, bad_checksum}
use cs.Parser.Safety.{Usual}
use cs.Segment.{TcpSegment, blank, new}
use cs.Segment.Wire.{parse, serialize}
use cs.Segment.HeaderReads.{InWidth}
use cs.Segment.RoundTrip.{parse-serialize_segment}
use cs.Segment.Safety.{parse_segment_total}

abbrev hello : TcpSegment
hello = record {
  header = record blank { sport = 1234; dport = 80; seqno = record { raw_value = 7 }; syn = true };
  payload = of_string (104 ∷ 105 ∷ []);
}

hello-InWidth : InWidth hello.header
hello-InWidth = record {
  sport = omega arith;
  dport = omega arith;
  seqno = omega arith;
  ackno = omega arith;
  doff_least = omega arith;
  doff_most = omega arith;
  win = omega arith;
  cksum = omega arith;
  uptr = omega arith;
}

parse-serialize_segment_example :
    (l : BufferList) × (seg : TcpSegment) × (serialize hello 99 ≡ some l)
    × (parse (of_string (concatenate_all l)) 99 new ≡ some (no_error, seg))
    × (seg.header ≡ record hello.header { cksum = seg.header.cksum })
    × (str seg.payload ≡ 104 ∷ 105 ∷ [])
parse-serialize_segment_example =
    parse-serialize_segment hello 99 new hello-InWidth (omega arith, omega arith) (omega arith)
      (omega arith)

-- Five bytes, of which the sum is not right.
parse_segment_total_example :
    (r : ParseResult) × (seg : TcpSegment) × (parse (of_string (1 ∷ 2 ∷ 3 ∷ 4 ∷ 5 ∷ [])) 99 new
      ≡ some (r, seg))
    × (Usual r ⊎ (r ≡ bad_checksum) × (seg ≡ new))
parse_segment_total_example =
    parse_segment_total (of_string (1 ∷ 2 ∷ 3 ∷ 4 ∷ 5 ∷ [])) 99 new (omega arith, omega arith)
