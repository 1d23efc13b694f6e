-- ===== src/Ipv4/Errors.antt =====
-- What `IPv4Header::parse` and `IPv4Datagram::parse` (libsponge/tcp_helpers/ipv4_header.cc,
-- ipv4_datagram.cc) return for any buffer.
use cs.Prelude.{
  ℕ, ◌*◌, ◌-◌, ◌≡◌, refl, inl, inr, Bool-cases, some, ltb, ◌==◌, List, [], ◌∷◌, length, take,
}
use cs.Buffer.{Buffer, str}
use cs.Buffer
use cs.BufferList.Laws.{InMemory}
use cs.Parser.{ParseResult, packet_too_short, give, of_buffer}
use cs.Parser.Safety.{
  Safe, Safe-then, give-Safe, get_error-Safe, u8-Safe, u16-Safe, u32-Safe, skip-Safe, along, Usual,
}
use cs.Checksum.{add, value}
use cs.Checksum
use cs.Ipv4.{
  Ipv4Header, Ipv4Datagram, verdict, checks, fields, parse_fields, parse_header, payload_length,
  parse,
}

checks-Safe : (original : List ℕ) (h : Ipv4Header) → Safe (checks original h)
unfolding checks
checks-Safe original h p fine =
    let rest = λ (_ : Unit {0}).
      Safe-then get_error-Safe λ e.
        give-Safe (verdict e (value (add (take (4 * h.hlen) original) (Checksum.init 0))), h) in
    elim (Bool-cases (ltb (length original) (4 * h.hlen))) [
      | inl a ↦ rw (checks, a) (give-Safe _ p fine)
      | inr a ↦ elim (Bool-cases (h.ver == 4)) [
        | inr v ↦ rw (checks, a, v) (give-Safe _ p fine)
        | inl v ↦ elim (Bool-cases (ltb h.hlen 5)) [
          | inl l ↦ rw (checks, a, v, l) (give-Safe _ p fine)
          | inr l ↦ elim (Bool-cases (length original == h.len)) [
            | inr n ↦ rw (checks, a, v, l, n) (give-Safe _ p fine)
            | inl n ↦ rw (checks, a, v, l, n) (Safe-then (skip-Safe (h.hlen * 4 - 20)) rest p fine)
          ]
        ]
      ]
    ]

parse_fields-Safe : (original : List ℕ) → Safe (parse_fields original)
unfolding parse_fields
parse_fields-Safe original = Safe-then u8-Safe λ first_byte. Safe-then u8-Safe λ tos.
    Safe-then u16-Safe λ len. Safe-then u16-Safe λ id. Safe-then u16-Safe λ fo_val.
      Safe-then u8-Safe λ ttl. Safe-then u8-Safe λ proto. Safe-then u16-Safe λ cksum.
        Safe-then u32-Safe λ src.
          Safe-then u32-Safe λ dst.
            checks-Safe original (fields first_byte tos len id fo_val ttl proto cksum src dst)

parse_header-Safe : (h : Ipv4Header) → Safe (parse_header h)
unfolding parse_header
parse_header-Safe h p fine = elim (Bool-cases (ltb (Buffer.size p.buffer) 20)) [
  | inl short ↦
      along {f = give (packet_too_short, h)} (rw short refl)
        (give-Safe (packet_too_short, h) p fine)
  | inr long ↦
      along {f = parse_fields (str p.buffer)} (rw long refl)
        (parse_fields-Safe (str p.buffer) p fine)
]

-- Whatever the buffer holds, `IPv4Datagram::parse` returns, and the result is no error or a packet
-- that is too short: what the header's `parse` finds, a bad checksum or a wrong version, is not
-- reported.
pub parse_datagram_total :
    (b : Buffer) (old : Ipv4Datagram)
    → InMemory b
    → (r : ParseResult) × (d : Ipv4Datagram) × (parse b old ≡ some (r, d)) × Usual r
unfolding parse
parse_datagram_total b old m =
    let r = parse_header-Safe old.header (of_buffer b) (m, inl refl) in
    let d : Ipv4Datagram = record { header = r.value.1; payload = r.left.buffer ∷ [] } in
    elim (Bool-cases (Buffer.size r.left.buffer == payload_length r.value.1)) [
      | inl right ↦ (r.left.error, d, rw (parse, r.result, right) refl, r.fine.1)
      | inr wrong ↦ (packet_too_short, d, rw (parse, r.result, wrong) refl, inr refl)
    ]
