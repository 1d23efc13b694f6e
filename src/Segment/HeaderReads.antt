-- ===== src/Segment/HeaderReads.antt =====
-- Headers of segments as they are written and read (libsponge/tcp_helpers/tcp_header.cc).
use cs.Prelude.{
  ℕ, ◌+◌, ◌-◌, ◌*◌, ◌/◌, ◌%◌, ◌^◌, ◌≤◌, ◌<◌, ◌≡◌, sym, ap, ◌∙◌, subst, false, some, List, ◌++◌,
  arith, length, length-append, ltb,
}
use cs.Seqno.{IsWord32}
use cs.Buffer.{Buffer, str}
use cs.BufferList.Laws.{InMemory}
use cs.Parser.{give, no_error, put_u8, put_u16, put_u32, zeros}
use cs.Parser.Laws.{
  Reads, Reads-then, give-Reads, u8-Reads, u16-Reads, u32-Reads, AllBytes, AllBytes-append,
  AllBytes-zeros, resize_lem, length-zeros, padding-Reads, get_error-Reads,
}
use cs.Checksum.Laws.{words}
use cs.Segment.{TcpHeader}
use cs.Segment.Wire.{
  fields, has_bit, flag_byte, written, parse_header, parse_rest, serialize_header,
}

-- The fields have the widths of their types, and the data offset its four bits.
pub record InWidth (h : TcpHeader) : Type 0 where
  pub sport : h.sport < 2 ^ 16
  pub dport : h.dport < 2 ^ 16
  pub seqno : IsWord32 h.seqno
  pub ackno : IsWord32 h.ackno
  pub doff_least : 5 ≤ h.doff
  pub doff_most : h.doff < 16
  pub win : h.win < 2 ^ 16
  pub cksum : h.cksum < 2 ^ 16
  pub uptr : h.uptr < 2 ^ 16

flags_lem :
    (h : TcpHeader)
    → (has_bit 32 (flag_byte h) ≡ h.urg)
      × (has_bit 16 (flag_byte h) ≡ h.ack)
      × (has_bit 8 (flag_byte h) ≡ h.psh)
      × (has_bit 4 (flag_byte h) ≡ h.rst)
      × (has_bit 2 (flag_byte h) ≡ h.syn)
      × (has_bit 1 (flag_byte h) ≡ h.fin)
flags_lem h = ground arith

-- The byte that holds the data offset.
abbrev offset_byte : TcpHeader → ℕ
offset_byte h = h.doff * 16 / 2 ^ 0 % 256

-- The byte with the flags, as it is written.
abbrev written_flags : TcpHeader → ℕ
written_flags h = flag_byte h / 2 ^ 0 % 256

fields_lem :
    (h : TcpHeader)
    → InWidth h
    → fields h.sport h.dport h.seqno.raw_value h.ackno.raw_value
        (offset_byte h)
        (written_flags h)
        h.win
        h.cksum
        h.uptr
      ≡ h
fields_lem h w =
    let (urg, ack, psh, rst, syn, fin) = flags_lem h in
    let off : offset_byte h / 2 ^ 4 ≡ h.doff = omega (arith, w.doff_most) in
    let bits : written_flags h ≡ flag_byte h = ground arith in
    rw bits (λ i. record h {
      doff = off i;
      urg = urg i;
      ack = ack i;
      psh = psh i;
      rst = rst i;
      syn = syn i;
      fin = fin i;
    })

parse_rest-Reads :
    (h : TcpHeader) (rest : List ℕ) (b : Buffer)
    → InWidth h
    → InMemory b
    → str b ≡ zeros (4 * h.doff - 20) ++ rest
    → Reads (parse_rest h) b (no_error, h) rest
unfolding parse_rest
parse_rest-Reads h rest b w m e =
    let long : ltb h.doff 5 ≡ false = ground (arith, w.doff_least) in
    let turned : 4 * h.doff - 20 ≡ h.doff * 4 - 20 = omega arith in
    rw (parse_rest, long)
      (Reads-then _
        (padding-Reads (h.doff * 4 - 20) rest b m (e ∙ ap (λ n. zeros n ++ rest) turned))
        λ b m e.
          Reads-then (λ e. give (e, h)) (get_error-Reads b rest m e)
            λ b m e. give-Reads (no_error, h) b rest m e)

pub parse_header-Reads :
    (h : TcpHeader) (rest : List ℕ) (b : Buffer)
    → InWidth h
    → InMemory b
    → str b ≡ written h ++ zeros (4 * h.doff - 20) ++ rest
    → Reads parse_header b (no_error, h) rest
unfolding parse_header written put_u8 put_u16 put_u32
parse_header-Reads h rest b w m e = Reads-then _ (u16-Reads h.sport _ b m e w.sport) λ b m e.
    Reads-then _ (u16-Reads h.dport _ b m e w.dport) λ b m e.
      Reads-then _ (u32-Reads h.seqno.raw_value _ b m e w.seqno) λ b m e.
        Reads-then _ (u32-Reads h.ackno.raw_value _ b m e w.ackno) λ b m e.
          Reads-then _ (u8-Reads (offset_byte h) _ b m e (omega arith)) λ b m e.
            Reads-then _ (u8-Reads (written_flags h) _ b m e (omega arith)) λ b m e.
              Reads-then _ (u16-Reads h.win _ b m e w.win) λ b m e.
                Reads-then _ (u16-Reads h.cksum _ b m e w.cksum) λ b m e.
                  Reads-then _ (u16-Reads h.uptr _ b m e w.uptr) λ b m e.
                    subst (λ g. Reads (parse_rest g) b (no_error, h) rest) (sym (fields_lem h w))
                      (parse_rest-Reads h rest b w m e)

-- The header's string, with its padding.
abbrev pub header_string : TcpHeader → List ℕ
header_string h = written h ++ zeros (4 * h.doff - 20)

pub serialize_header_lem : (h : TcpHeader) → InWidth h → serialize_header h ≡ some (header_string h)
unfolding serialize_header written put_u8 put_u16 put_u32
serialize_header_lem h w =
    let long : ltb h.doff 5 ≡ false = ground (arith, w.doff_least) in
    rw long (ap some (resize_lem (4 * h.doff) (written h) (omega (arith, w.doff_least))))

pub header_string-AllBytes : (h : TcpHeader) → AllBytes (header_string h)
unfolding written put_u8 put_u16 put_u32
header_string-AllBytes h =
    AllBytes-append (written h) (zeros (4 * h.doff - 20)) (omega arith)
      (AllBytes-zeros (4 * h.doff - 20))

-- The checksum field adds itself to the sum.
pub words-header_string :
    (h : TcpHeader) (c : ℕ) (rest : List ℕ)
    → c < 2 ^ 16
    → words false (header_string (record h { cksum = c }) ++ rest)
      ≡ words false (header_string (record h { cksum = 0 }) ++ rest) + c
unfolding written put_u8 put_u16 put_u32 words
words-header_string h c rest small = omega arith

pub length-header_string : (h : TcpHeader) → InWidth h → length (header_string h) ≡ 4 * h.doff
unfolding written put_u8 put_u16 put_u32
length-header_string h w = omega (
  arith,
  length-append (written h) (zeros (4 * h.doff - 20)),
  length-zeros (4 * h.doff - 20),
  w.doff_least,
)
