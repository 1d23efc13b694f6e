-- ===== src/Ipv4/HeaderReads.antt =====
-- Headers of datagrams as they are written and read (libsponge/tcp_helpers/ipv4_header.cc).
use cs.Prelude.{
  ℕ, ◌+◌, ◌-◌, ◌*◌, ◌/◌, ◌%◌, ◌^◌, ◌≤◌, ◌<◌, ◌≡◌, sym, ap, ◌∙◌, subst, true, false, some, List,
  ◌++◌, arith, length, length-append, take, ltb, ◌==◌,
}
use cs.Buffer.{Buffer, str}
use cs.BufferList.Laws.{InMemory}
use cs.Parser.{ParseResult, no_error, give, put_u8, put_u16, put_u32, zeros}
use cs.Parser.Laws.{
  Reads, Reads-then, give-Reads, u8-Reads, u16-Reads, u32-Reads, AllBytes, AllBytes-append,
  AllBytes-zeros, byte-Reads, resize_lem, length-zeros, padding-Reads, get_error-Reads,
}
use cs.Checksum.{add, value}
use cs.Checksum
use cs.Checksum.Laws.{words, value-add, folded}
use cs.Ipv4.{
  Ipv4Header, checks, parse_fields, fields, first_byte, fo_val, written, serialize_header, verdict,
}

-- The fields have the widths of their types or of their places, and the version and the header's length
-- are such that the header can be written.
pub record InWidth (h : Ipv4Header) : Type 0 where
  pub ver : h.ver ≡ 4
  pub hlen_least : 5 ≤ h.hlen
  pub hlen_most : h.hlen < 16
  pub tos : h.tos < 256
  pub len : h.len < 2 ^ 16
  pub id : h.id < 2 ^ 16
  pub offset : h.offset < 2 ^ 13
  pub ttl : h.ttl < 256
  pub proto : h.proto < 256
  pub cksum : h.cksum < 2 ^ 16
  pub src : h.src < 2 ^ 32
  pub dst : h.dst < 2 ^ 32

fo_val_lem :
    (h : Ipv4Header)
    → h.offset < 2 ^ 13
    → ((fo_val h / 16384 % 2 == 1) ≡ h.df)
      × ((fo_val h / 8192 % 2 == 1) ≡ h.mf)
      × (fo_val h % 8192 ≡ h.offset)
      × (fo_val h < 2 ^ 16)
fo_val_lem h small = ground arith

first_byte_lem :
    (h : Ipv4Header)
    → h.ver ≡ 4
    → h.hlen < 16
    → (first_byte h / 2 ^ 4 ≡ h.ver)
      × (first_byte h % 16 ≡ h.hlen)
      × (first_byte h / 2 ^ 0 % 256 ≡ first_byte h)
first_byte_lem h v small = ground arith

fields_lem :
    (h : Ipv4Header)
    → InWidth h
    → fields
        (first_byte h / 2 ^ 0 % 256)
        h.tos
        h.len
        h.id
        (fo_val h)
        h.ttl
        h.proto
        h.cksum
        h.src
        h.dst
      ≡ h
fields_lem h w =
    let (ver, hlen, whole) = first_byte_lem h w.ver w.hlen_most in
    let (df, mf, offset, _) = fo_val_lem h w.offset in
    rw whole (λ i. record h { ver = ver i; hlen = hlen i; df = df i; mf = mf i; offset = offset i })

checks-Reads :
    (h : Ipv4Header) (original rest : List ℕ) (b : Buffer)
    → InWidth h
    → InMemory b
    → length original ≡ h.len
    → 4 * h.hlen ≤ h.len
    → value (add (take (4 * h.hlen) original) (Checksum.init 0)) ≡ 0
    → str b ≡ zeros (4 * h.hlen - 20) ++ rest
    → Reads (checks original h) b (no_error, h) rest
unfolding checks
checks-Reads h original rest b w m whole fits zero_sum e =
    let a : ltb (length original) (4 * h.hlen) ≡ false = ground arith in
    let v : (h.ver == 4) ≡ true = ground (arith, w.ver) in
    let l : ltb h.hlen 5 ≡ false = ground (arith, w.hlen_least) in
    let n : (length original == h.len) ≡ true = ground arith in
    let turned : 4 * h.hlen - 20 ≡ h.hlen * 4 - 20 = omega arith in
    rw (checks, a, v, l, n)
      (Reads-then _
        (padding-Reads (h.hlen * 4 - 20) rest b m (e ∙ ap (λ k. zeros k ++ rest) turned))
        λ b m e.
          Reads-then
            (λ r. give (verdict r (value (add (take (4 * h.hlen) original) (Checksum.init 0))), h))
            (get_error-Reads b rest m e)
            λ b m e.
              subst
                (λ k.
                  Reads {A = ParseResult × Ipv4Header} (give (verdict no_error k, h)) b
                    (no_error, h) rest)
                (sym zero_sum) (give-Reads (no_error, h) b rest m e))

pub parse_fields-Reads :
    (h : Ipv4Header) (original rest : List ℕ) (b : Buffer)
    → InWidth h
    → InMemory b
    → length original ≡ h.len
    → 4 * h.hlen ≤ h.len
    → value (add (take (4 * h.hlen) original) (Checksum.init 0)) ≡ 0
    → str b ≡ written h ++ zeros (4 * h.hlen - 20) ++ rest
    → Reads (parse_fields original) b (no_error, h) rest
unfolding parse_fields written put_u8 put_u16 put_u32
parse_fields-Reads h original rest b w m whole fits zero_sum e =
    let (_, _, _, fo_small) = fo_val_lem h w.offset in
    Reads-then _ (u8-Reads (first_byte h / 2 ^ 0 % 256) _ b m e (omega arith)) λ b m e.
      Reads-then _ (byte-Reads h.tos _ b m e w.tos) λ b m e.
        Reads-then _ (u16-Reads h.len _ b m e w.len) λ b m e.
          Reads-then _ (u16-Reads h.id _ b m e w.id) λ b m e.
            Reads-then _ (u16-Reads (fo_val h) _ b m e fo_small) λ b m e.
              Reads-then _ (byte-Reads h.ttl _ b m e w.ttl) λ b m e.
                Reads-then _ (byte-Reads h.proto _ b m e w.proto) λ b m e.
                  Reads-then _ (u16-Reads h.cksum _ b m e w.cksum) λ b m e.
                    Reads-then _ (u32-Reads h.src _ b m e w.src) λ b m e.
                      Reads-then _ (u32-Reads h.dst _ b m e w.dst) λ b m e.
                        subst (λ g. Reads (checks original g) b (no_error, h) rest)
                          (sym (fields_lem h w))
                          (checks-Reads h original rest b w m whole fits zero_sum e)

-- The header's string, with its padding.
abbrev pub header_string : Ipv4Header → List ℕ
header_string h = written h ++ zeros (4 * h.hlen - 20)

pub length-header_string : (h : Ipv4Header) → InWidth h → length (header_string h) ≡ 4 * h.hlen
unfolding written put_u8 put_u16 put_u32
length-header_string h w = omega (
  arith,
  length-append (written h) (zeros (4 * h.hlen - 20)),
  length-zeros (4 * h.hlen - 20),
  w.hlen_least,
)

pub serialize_header_lem :
    (h : Ipv4Header) → InWidth h → serialize_header h ≡ some (header_string h)
unfolding serialize_header written put_u8 put_u16 put_u32
serialize_header_lem h w =
    let v : (h.ver == 4) ≡ true = ground (arith, w.ver) in
    let l : ltb (4 * h.hlen) 20 ≡ false = ground (arith, w.hlen_least) in
    rw (v, l) (ap some (resize_lem (4 * h.hlen) (written h) (omega (arith, w.hlen_least))))

pub header_string-AllBytes : (h : Ipv4Header) → AllBytes (header_string h)
unfolding written put_u8 put_u16 put_u32
header_string-AllBytes h =
    AllBytes-append (written h) (zeros (4 * h.hlen - 20)) (omega arith)
      (AllBytes-zeros (4 * h.hlen - 20))

-- The checksum field adds itself to the sum.
pub words-header_string :
    (h : Ipv4Header) (c : ℕ)
    → c < 2 ^ 16
    → words false (header_string (record h { cksum = c }))
      ≡ words false (header_string (record h { cksum = 0 })) + c
unfolding written put_u8 put_u16 put_u32 words
words-header_string h c small = omega arith

pub header_sum :
    (h : Ipv4Header)
    → InWidth h
    → value (add (header_string h) (Checksum.init 0))
      ≡ 65535 - folded (words false (header_string h))
header_sum h w =
    value-add (header_string h) 0 (header_string-AllBytes h)
      (omega (arith, length-header_string h w, w.hlen_most))
    ∙ ap (λ n. 65535 - folded n) (omega arith)
