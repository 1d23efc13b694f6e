-- ===== src/Ipv4/Tests.antt =====
-- A datagram that is written and read (libsponge/tcp_helpers/ipv4_datagram.cc).
use cs.Prelude.{◌≡◌, refl, some, [], ◌∷◌, arith}
use cs.Buffer
use cs.BufferList.{BufferList, concatenate_all, size, size_from}
use cs.Parser.{ParseResult, no_error}
use cs.Parser.Safety.{Usual}
use cs.Ipv4.{Ipv4Datagram, blank, new, parse, serialize}
use cs.Ipv4.HeaderReads.{InWidth}
use cs.Ipv4.RoundTrip.{parse-serialize_datagram}
use cs.Ipv4.Errors.{parse_datagram_total}

abbrev two_bytes : Ipv4Datagram
two_bytes = record {
  header = record blank { len = 22; src = 167772161; dst = 167772162 };
  payload = Buffer.of_string (104 ∷ 105 ∷ []) ∷ [];
}

two_bytes-InWidth : InWidth two_bytes.header
two_bytes-InWidth = record {
  ver = refl;
  hlen_least = omega arith;
  hlen_most = omega arith;
  tos = omega arith;
  len = omega arith;
  id = omega arith;
  offset = omega arith;
  ttl = omega arith;
  proto = omega arith;
  cksum = omega arith;
  src = omega arith;
  dst = omega arith;
}

two_bytes_size : size two_bytes.payload ≡ 2
unfolding size size_from
two_bytes_size = refl

parse-serialize_datagram_example :
    (l : BufferList) × (d : Ipv4Datagram) × (serialize two_bytes ≡ some l)
    × (parse (Buffer.of_string (concatenate_all l)) new ≡ some (no_error, d))
    × (d.header ≡ record two_bytes.header { cksum = d.header.cksum })
    × (concatenate_all d.payload ≡ concatenate_all two_bytes.payload)
parse-serialize_datagram_example =
    parse-serialize_datagram two_bytes new two_bytes-InWidth two_bytes_size (omega arith)

parse_datagram_total_example :
    (r : ParseResult) × (d : Ipv4Datagram) × (parse (Buffer.of_string (69 ∷ 0 ∷ [])) new
      ≡ some (r, d))
    × Usual r
parse_datagram_total_example =
    parse_datagram_total (Buffer.of_string (69 ∷ 0 ∷ [])) new (omega arith, omega arith)
