-- ===== src/Segment/Safety.antt =====
-- What `TCPSegment::parse` (libsponge/tcp_helpers/tcp_segment.cc) returns for any buffer.
use cs.Prelude.{ℕ, ◌*◌, ◌-◌, ◌≡◌, refl, inl, inr, ◌⊎◌, Bool-cases, some, ltb, ◌==◌}
use cs.Buffer.{Buffer, str}
use cs.BufferList.Laws.{InMemory}
use cs.Parser.{ParseResult, bad_checksum, of_buffer}
use cs.Parser.Safety.{
  Safe, Safe-then, give-Safe, get_error-Safe, u8-Safe, u16-Safe, u32-Safe, skip-Safe, Usual,
}
use cs.Checksum.{add, value}
use cs.Checksum
use cs.Segment.{TcpHeader, TcpSegment}
use cs.Segment.Wire.{fields, parse_rest, parse_header, parse}

parse_rest-Safe : (h : TcpHeader) → Safe (parse_rest h)
unfolding parse_rest
parse_rest-Safe h p fine = elim (Bool-cases (ltb h.doff 5)) [
  | inl short ↦ rw (parse_rest, short) (give-Safe _ p fine)
  | inr long ↦
      rw (parse_rest, long)
        (Safe-then (skip-Safe (h.doff * 4 - 20))
          (λ _. Safe-then get_error-Safe λ e. give-Safe (e, h)) p fine)
]

parse_header-Safe : Safe parse_header
unfolding parse_header
parse_header-Safe = Safe-then u16-Safe λ sport. Safe-then u16-Safe λ dport.
    Safe-then u32-Safe λ seqno. Safe-then u32-Safe λ ackno. Safe-then u8-Safe λ off.
      Safe-then u8-Safe λ flags. Safe-then u16-Safe λ win. Safe-then u16-Safe λ cksum.
        Safe-then u16-Safe
          λ uptr. parse_rest-Safe (fields sport dport seqno ackno off flags win cksum uptr)

-- Whatever the buffer holds, `parse` returns, and the result is no error, a packet that is too short,
-- or a bad checksum: a data offset that is too small is not reported.
pub parse_segment_total :
    (b : Buffer) (pseudo : ℕ) (old : TcpSegment)
    → InMemory b
    → (r : ParseResult) × (seg : TcpSegment) × (parse b pseudo old ≡ some (r, seg))
      × (Usual r ⊎ (r ≡ bad_checksum) × (seg ≡ old))
unfolding parse
parse_segment_total b pseudo old m =
    elim (Bool-cases (value (add (str b) (Checksum.init pseudo)) == 0)) [
      | inl good ↦
          let r = parse_header-Safe (of_buffer b) (m, inl refl) in
          (
            r.left.error,
            record { header = r.value.1; payload = r.left.buffer },
            rw (parse, good, r.result) refl,
            inl r.fine.1,
          )
      | inr bad ↦ (bad_checksum, old, rw (parse, bad) refl, inr (refl, refl))
    ]
