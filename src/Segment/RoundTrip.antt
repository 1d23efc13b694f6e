-- ===== src/Segment/RoundTrip.antt =====
-- A segment that is written and read again (libsponge/tcp_helpers/tcp_header.cc, tcp_segment.cc).
use cs.Prelude.{
  ℕ, ◌+◌, ◌-◌, ◌*◌, ◌^◌, ◌<◌, ◌≡◌, refl, sym, ap, ◌∙◌, false, some, List, [], ◌∷◌, ◌++◌, append-nil,
  arith, length, length-append,
}
use cs.Buffer.{Buffer, str}
use cs.Buffer
use cs.BufferList.{BufferList, concatenate_all}
use cs.BufferList.Laws.{InMemory, concatenate_all_lem}
use cs.Parser.{no_error}
use cs.Parser.Laws.{Reads, AllBytes, AllBytes-append}
use cs.Checksum.{add, value}
use cs.Checksum
use cs.Checksum.Laws.{words, value-add, add-append, folded, folded_complement}
use cs.Segment.{TcpHeader, TcpSegment}
use cs.Segment.Wire.{joined, summed, with_cksum, parse, serialize, parse_header}
use cs.Segment.HeaderReads.{
  InWidth, header_string, serialize_header_lem, header_string-AllBytes, words-header_string,
  length-header_string, parse_header-Reads,
}

module _ (seg : TcpSegment) (pseudo : ℕ) (w : InWidth seg.header) (m : InMemory seg.payload)
    (all : AllBytes (str seg.payload))
    (small : pseudo + 65280 * (60 + length (str seg.payload)) < 2 ^ 32) where
  blank_header : TcpHeader
  blank_header = record seg.header { cksum = 0 }

  cksum : ℕ
  cksum = (with_cksum seg pseudo (header_string blank_header)).cksum

  header_out : TcpHeader
  header_out = record seg.header { cksum = cksum }

  segment_string : List ℕ
  segment_string = header_string header_out ++ str seg.payload

  blank_string : List ℕ
  blank_string = header_string blank_header ++ str seg.payload

  string_sum :
      (h : TcpHeader)
      → h.doff ≡ seg.header.doff
      → InWidth h
      → value (add (header_string h ++ str seg.payload) (Checksum.init pseudo))
        ≡ 65535 - folded (pseudo + words false (header_string h ++ str seg.payload))
  string_sum h same wh =
      value-add (header_string h ++ str seg.payload) pseudo
        (AllBytes-append (header_string h) (str seg.payload) (header_string-AllBytes h) all)
        (omega (
          arith,
          small,
          length-append (header_string h) (str seg.payload),
          length-header_string h wh,
          same,
          w.doff_most,
        ))

  with_cksum-InWidth : (c : ℕ) → c < 2 ^ 16 → InWidth (record seg.header { cksum = c })
  with_cksum-InWidth c h = record {
    sport = w.sport;
    dport = w.dport;
    seqno = w.seqno;
    ackno = w.ackno;
    doff_least = w.doff_least;
    doff_most = w.doff_most;
    win = w.win;
    cksum = h;
    uptr = w.uptr;
  }

  cksum_lem : cksum ≡ 65535 - folded (pseudo + words false blank_string)
  unfolding cksum blank_string blank_header
  cksum_lem =
      sym (
        ap value (add-append (header_string blank_header) (str seg.payload) (Checksum.init pseudo)))
      ∙ string_sum blank_header refl (with_cksum-InWidth 0 (omega arith))

  cksum_small : cksum < 2 ^ 16
  cksum_small = omega (arith, cksum_lem)

  header_out-InWidth : InWidth header_out
  unfolding header_out
  header_out-InWidth = with_cksum-InWidth cksum cksum_small

  words_out : words false segment_string ≡ words false blank_string + cksum
  unfolding segment_string blank_string header_out blank_header
  words_out = words-header_string seg.header cksum (str seg.payload) cksum_small

  sum_out :
      pseudo + words false segment_string
      ≡ pseudo + words false blank_string + (65535 - folded (pseudo + words false blank_string))
  sum_out = omega (arith, words_out, cksum_lem)

  -- The checksum of the whole segment comes out as 0.
  value_out : value (add segment_string (Checksum.init pseudo)) ≡ 0
  unfolding segment_string header_out
  value_out =
      string_sum header_out refl header_out-InWidth
      ∙ ap (λ n. 65535 - folded n) sum_out
      ∙ ap (λ n. 65535 - n) (folded_complement (pseudo + words false blank_string))

  pieces : BufferList
  pieces = Buffer.of_string (header_string header_out) ∷ seg.payload ∷ []

  serialize_out : serialize seg pseudo ≡ some pieces
  unfolding serialize pieces header_out blank_header cksum
  serialize_out =
      ap (summed seg pseudo)
        (serialize_header_lem blank_header (with_cksum-InWidth 0 (omega arith)))
      ∙ ap (joined seg.payload) (serialize_header_lem header_out header_out-InWidth)

  concatenated : concatenate_all pieces ≡ segment_string
  unfolding pieces segment_string
  concatenated =
      concatenate_all_lem pieces
      ∙ ap (λ t. header_string header_out ++ t) (append-nil (str seg.payload))

  long_enough : length segment_string < 2 ^ 64
  unfolding segment_string header_out
  long_enough = omega (
    arith,
    small,
    length-append (header_string header_out) (str seg.payload),
    length-header_string header_out header_out-InWidth,
    w.doff_most,
  )

  header_read :
      (b : Buffer)
      → InMemory b
      → str b ≡ segment_string
      → Reads parse_header b (no_error, header_out) (str seg.payload)
  unfolding segment_string header_out
  header_read b mb e = parse_header-Reads header_out (str seg.payload) b header_out-InWidth mb e

  -- What `parse` makes of a segment that `serialize` wrote.
  parse_out :
      (old : TcpSegment) (b : Buffer) (mb : InMemory b) (e : str b ≡ segment_string)
      → parse b pseudo old
        ≡ some (no_error, record { header = header_out; payload = (header_read b mb e).left })
  unfolding parse
  parse_out old b mb e =
      let zero_sum : value (add (str b) (Checksum.init pseudo)) ≡ 0 =
        ap (λ s. value (add s (Checksum.init pseudo))) e ∙ value_out in
      rw (zero_sum, (header_read b mb e).result) refl

  segment_length : length segment_string ≡ 4 * seg.header.doff + length (str seg.payload)
  unfolding segment_string header_out
  segment_length = omega (
    arith,
    length-append (header_string header_out) (str seg.payload),
    length-header_string header_out header_out-InWidth,
  )

-- The bytes of a segment that is serialized, and what is parsed from a buffer with these bytes.
pub record Carried (seg : TcpSegment) (pseudo : ℕ) : Type 0 where
  pub bytes : BufferList
  pub header : TcpHeader
  pub serialized : serialize seg pseudo ≡ some bytes
  pub same : header ≡ record seg.header { cksum = header.cksum }
  pub size : length (concatenate_all bytes) ≡ 4 * seg.header.doff + length (str seg.payload)
  pub parsed :
      (old : TcpSegment) (b : Buffer)
      → InMemory b
      → str b ≡ concatenate_all bytes
      → (p : Buffer) × (parse b pseudo old
          ≡ some (no_error, record { header = header; payload = p }))
        × (str p ≡ str seg.payload)

pub serialize-Carried :
    (seg : TcpSegment) (pseudo : ℕ)
    → InWidth seg.header
    → InMemory seg.payload
    → AllBytes (str seg.payload)
    → pseudo + 65280 * (60 + length (str seg.payload)) < 2 ^ 32
    → Carried seg pseudo
unfolding pieces header_out
serialize-Carried seg pseudo w m all small =
    let joined_up = concatenated seg pseudo w m all small in
    record {
      bytes = pieces seg pseudo w m all small;
      header = header_out seg pseudo w m all small;
      serialized = serialize_out seg pseudo w m all small;
      same = refl;
      size = ap length joined_up ∙ segment_length seg pseudo w m all small;
      parsed = λ old b mb e. (
        (header_read seg pseudo w m all small b mb (e ∙ joined_up)).left,
        parse_out seg pseudo w m all small old b mb (e ∙ joined_up),
        (header_read seg pseudo w m all small b mb (e ∙ joined_up)).bytes,
      );
    }

-- A segment that is serialized, with fields in their widths, and a payload so short that the sum of
-- 32 bits does not overflow, is parsed, in one buffer and with the same sum of the pseudo header,
-- without an error, to the same payload and the same header but for the checksum.
pub parse-serialize_segment :
    (seg : TcpSegment) (pseudo : ℕ) (old : TcpSegment)
    → InWidth seg.header
    → InMemory seg.payload
    → AllBytes (str seg.payload)
    → pseudo + 65280 * (60 + length (str seg.payload)) < 2 ^ 32
    → (l : BufferList) × (seg' : TcpSegment) × (serialize seg pseudo ≡ some l)
      × (parse (Buffer.of_string (concatenate_all l)) pseudo old ≡ some (no_error, seg'))
      × (seg'.header ≡ record seg.header { cksum = seg'.header.cksum })
      × (str seg'.payload ≡ str seg.payload)
parse-serialize_segment seg pseudo old w m all small =
    let c = serialize-Carried seg pseudo w m all small in
    let (p, e, same) =
      c.parsed old (Buffer.of_string (concatenate_all c.bytes))
        (omega arith, omega (arith, c.size, w.doff_most, small)) refl in
    (c.bytes, record { header = c.header; payload = p }, c.serialized, e, c.same, same)
