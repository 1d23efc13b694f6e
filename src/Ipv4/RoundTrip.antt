-- ===== src/Ipv4/RoundTrip.antt =====
-- A datagram that is written and read again (libsponge/tcp_helpers/ipv4_header.cc,
-- ipv4_datagram.cc).
use cs.Prelude.{
  ℕ, ◌+◌, ◌-◌, ◌*◌, ◌^◌, ◌≤◌, ◌<◌, ◌≡◌, refl, sym, ap, ◌∙◌, true, false, some, List, [], ◌∷◌, ◌++◌,
  take-append_le, take-all, append-nil, arith, length, length-append, take, ltb, ◌==◌,
}
use cs.Buffer.{Buffer, str}
use cs.Buffer
use cs.BufferList.{BufferList, concatenate_all}
use cs.BufferList
use cs.BufferList.Laws.{InMemory, concatenate_all_lem, contents, size_lem}
use cs.Parser.{no_error}
use cs.Parser.Laws.{Reads}
use cs.Checksum.{add, value}
use cs.Checksum
use cs.Checksum.Laws.{words, folded, folded_complement}
use cs.Ipv4.{
  Ipv4Header, Ipv4Datagram, parse_fields, parse_header, payload_length, parse, with_cksum, joined,
  summed, serialize,
}
use cs.Ipv4.HeaderReads.{
  InWidth, header_string, serialize_header_lem, words-header_string, length-header_string,
  parse_fields-Reads, header_sum,
}

module _ (d : Ipv4Datagram) (w : InWidth d.header)
    (size : BufferList.size d.payload ≡ payload_length d.header)
    (fits : 4 * d.header.hlen ≤ d.header.len) where
  blank_header : Ipv4Header
  blank_header = record d.header { cksum = 0 }

  cksum : ℕ
  cksum = (with_cksum d.header (header_string blank_header)).cksum

  header_out : Ipv4Header
  header_out = record d.header { cksum = cksum }

  datagram_string : List ℕ
  datagram_string = header_string header_out ++ contents d.payload

  with_cksum-InWidth : (c : ℕ) → c < 2 ^ 16 → InWidth (record d.header { cksum = c })
  with_cksum-InWidth c h = record {
    ver = w.ver;
    hlen_least = w.hlen_least;
    hlen_most = w.hlen_most;
    tos = w.tos;
    len = w.len;
    id = w.id;
    offset = w.offset;
    ttl = w.ttl;
    proto = w.proto;
    cksum = h;
    src = w.src;
    dst = w.dst;
  }

  cksum_lem : cksum ≡ 65535 - folded (words false (header_string blank_header))
  unfolding cksum blank_header
  cksum_lem = header_sum blank_header (with_cksum-InWidth 0 (omega arith))

  cksum_small : cksum < 2 ^ 16
  cksum_small = omega (arith, cksum_lem)

  header_out-InWidth : InWidth header_out
  unfolding header_out
  header_out-InWidth = with_cksum-InWidth cksum cksum_small

  sum_out :
      words false (header_string header_out)
      ≡ words false (header_string blank_header)
        + (65535 - folded (words false (header_string blank_header)))
  unfolding header_out blank_header
  sum_out =
      words-header_string d.header cksum cksum_small
      ∙ ap (λ n. words false (header_string blank_header) + n) cksum_lem

  -- The checksum of the whole header comes out as 0.
  value_out : value (add (header_string header_out) (Checksum.init 0)) ≡ 0
  unfolding header_out
  value_out =
      header_sum header_out header_out-InWidth
      ∙ ap (λ n. 65535 - folded n) sum_out
      ∙ ap (λ n. 65535 - n) (folded_complement (words false (header_string blank_header)))

  front : take (4 * d.header.hlen) datagram_string ≡ header_string header_out
  unfolding datagram_string header_out
  front =
      let long = length-header_string header_out header_out-InWidth in
      take-append_le (4 * d.header.hlen) (header_string header_out) (contents d.payload)
        (omega arith)
      ∙ take-all (4 * d.header.hlen) (header_string header_out) (omega arith)

  payload_size : 4 * d.header.hlen + length (contents d.payload) ≡ d.header.len
  payload_size = omega (arith, size, size_lem d.payload, w.len, w.hlen_most)

  whole : length datagram_string ≡ d.header.len
  unfolding datagram_string header_out
  whole = omega (
    arith,
    payload_size,
    length-append (header_string header_out) (contents d.payload),
    length-header_string header_out header_out-InWidth,
  )

  pieces : BufferList
  pieces = Buffer.of_string (header_string header_out) ∷ d.payload

  serialize_out : serialize d ≡ some pieces
  unfolding serialize pieces header_out blank_header cksum
  serialize_out =
      let right : (BufferList.size d.payload == payload_length d.header) ≡ true =
        ground (arith, size) in
      rw right (
        ap (summed d) (serialize_header_lem blank_header (with_cksum-InWidth 0 (omega arith)))
        ∙ ap (joined d.payload) (serialize_header_lem header_out header_out-InWidth))

  concatenated : concatenate_all pieces ≡ datagram_string
  unfolding pieces datagram_string
  concatenated = concatenate_all_lem pieces

  fields_read :
      Reads
        (parse_fields datagram_string)
        (Buffer.of_string datagram_string)
        (no_error, header_out)
        (contents d.payload)
  unfolding header_out datagram_string
  fields_read =
      parse_fields-Reads header_out datagram_string (contents d.payload)
        (Buffer.of_string datagram_string) header_out-InWidth
        (omega arith, omega (arith, whole, w.len)) whole fits
        (ap (λ s. value (add s (Checksum.init 0))) front ∙ value_out) refl

  holds_header : ltb (length datagram_string) 20 ≡ false
  holds_header = ground (arith, whole, fits, w.hlen_least)

  -- What `parse` makes of a datagram that `serialize` wrote.
  parse_out :
      (old : Ipv4Datagram)
      → parse (Buffer.of_string datagram_string) old
        ≡ some (no_error, record { header = header_out; payload = fields_read.left ∷ [] })
  unfolding parse parse_header header_out
  parse_out old =
      let left_over : (Buffer.size fields_read.left == payload_length d.header) ≡ true =
        ground (arith, ap length fields_read.bytes, payload_size, w.len, w.hlen_most) in
      rw (holds_header, fields_read.result, left_over) refl

-- What is parsed from the bytes of a datagram that is serialized: the payload is in one buffer.
pub record Carried (d old : Ipv4Datagram) : Type 0 where
  pub bytes : BufferList
  pub header : Ipv4Header
  pub buffer : Buffer
  pub serialized : serialize d ≡ some bytes
  pub same : header ≡ record d.header { cksum = header.cksum }
  pub parsed :
      parse (Buffer.of_string (concatenate_all bytes)) old
      ≡ some (no_error, record { header = header; payload = buffer ∷ [] })
  pub payload : str buffer ≡ contents d.payload
  pub in_memory : InMemory buffer

pub serialize-Carried :
    (d old : Ipv4Datagram)
    → InWidth d.header
    → BufferList.size d.payload ≡ payload_length d.header
    → 4 * d.header.hlen ≤ d.header.len
    → Carried d old
unfolding pieces header_out fields_read
serialize-Carried d old w size fits =
    let read = fields_read d w size fits in
    record {
      bytes = pieces d w size fits;
      header = header_out d w size fits;
      buffer = read.left;
      serialized = serialize_out d w size fits;
      same = refl;
      parsed =
          ap (λ s. parse (Buffer.of_string s) old) (concatenated d w size fits)
          ∙ parse_out d w size fits old;
      payload = read.bytes;
      in_memory = read.in_memory;
    }

-- A datagram that is serialized, with fields in their widths, version 4 and a payload of the size
-- that the header tells, is parsed, in one buffer, without an error, to the same payload and the same
-- header but for the checksum.
pub parse-serialize_datagram :
    (d old : Ipv4Datagram)
    → InWidth d.header
    → BufferList.size d.payload ≡ payload_length d.header
    → 4 * d.header.hlen ≤ d.header.len
    → (l : BufferList) × (d' : Ipv4Datagram) × (serialize d ≡ some l)
      × (parse (Buffer.of_string (concatenate_all l)) old ≡ some (no_error, d'))
      × (d'.header ≡ record d.header { cksum = d'.header.cksum })
      × (concatenate_all d'.payload ≡ concatenate_all d.payload)
parse-serialize_datagram d old w size fits =
    let c = serialize-Carried d old w size fits in
    (
      c.bytes,
      record { header = c.header; payload = c.buffer ∷ [] },
      c.serialized,
      c.parsed,
      c.same,
      concatenate_all_lem (c.buffer ∷ [])
          ∙ append-nil (str c.buffer)
          ∙ c.payload
          ∙ sym (concatenate_all_lem d.payload),
    )
