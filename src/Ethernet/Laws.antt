-- ===== src/Ethernet/Laws.antt =====
-- What the frames of libsponge/tcp_helpers/ethernet_frame.cc are read as.
use cs.Prelude.{
  ℕ, ◌+◌, ◌^◌, ◌<◌, ◌≡◌, refl, sym, ap, ◌∙◌, subst, true, false, some, ltb, List, [], ◌∷◌, ◌++◌,
  append-nil, append_assoc, length, length-append, arith,
}
use cs.Buffer.{Buffer, str}
use cs.Buffer
use cs.BufferList.{concatenate_all}
use cs.BufferList.Laws.{InMemory, concatenate_all_lem, contents}
use cs.Parser.{no_error, give, put_u16, put_bytes, bytes}
use cs.Parser.Laws.{
  Reads, Reads-then, give-Reads, bytes-Reads, u16-Reads, get_error-Reads, AllBytes, put_bytes_lem,
  put_u16_lem, u16_string,
}
use cs.Ethernet.{
  EthernetHeader, EthernetFrame, EthernetAddress, parse_fields, parse_header, parse,
  serialize_header, serialize,
}

-- An array of six bytes.
pub record IsAddress (a : EthernetAddress) : Type 0 where
  pub size : length a ≡ 6
  pub bytes : AllBytes a

pub address-Reads :
    (a : EthernetAddress) (rest : List ℕ) (b : Buffer)
    → IsAddress a
    → InMemory b
    → str b ≡ a ++ rest
    → Reads (bytes 6) b a rest
address-Reads a rest b ok m e =
    subst (λ n. Reads (bytes n) b a rest) ok.size (bytes-Reads a rest b m e ok.bytes)

pub record InWidth (h : EthernetHeader) : Type 0 where
  pub dst : IsAddress h.dst
  pub src : IsAddress h.src
  pub type : h.type < 2 ^ 16

serialize_header_lem :
    (h : EthernetHeader) → InWidth h → serialize_header h ≡ h.dst ++ (h.src ++ u16_string h.type)
unfolding serialize_header
serialize_header_lem h w =
    ap (λ s. put_u16 (put_bytes s h.src) h.type) (put_bytes_lem [] h.dst w.dst.bytes)
    ∙ ap (λ s. put_u16 s h.type) (put_bytes_lem h.dst h.src w.src.bytes)
    ∙ put_u16_lem (h.dst ++ h.src) h.type
    ∙ append_assoc h.dst h.src (u16_string h.type)

parse_fields-Reads :
    (h : EthernetHeader) (rest : List ℕ) (b : Buffer)
    → InWidth h
    → InMemory b
    → str b ≡ h.dst ++ (h.src ++ (u16_string h.type ++ rest))
    → Reads parse_fields b (no_error, h) rest
unfolding parse_fields
parse_fields-Reads h rest b w m e = Reads-then _ (address-Reads h.dst _ b w.dst m e) λ b m e.
    Reads-then _ (address-Reads h.src _ b w.src m e) λ b m e.
      Reads-then _ (u16-Reads h.type _ b m e w.type) λ b m e.
        Reads-then (λ e. give (e, h)) (get_error-Reads b rest m e)
          λ b m e. give-Reads (no_error, h) b rest m e

header_length_lem : (h : EthernetHeader) → InWidth h → length (serialize_header h) ≡ 14
header_length_lem h w =
    ap length (serialize_header_lem h w)
    ∙ omega (
      arith,
      length-append h.dst (h.src ++ u16_string h.type),
      length-append h.src (u16_string h.type),
      w.dst.size,
      w.src.size,
    )

frame_string :
    (f : EthernetFrame)
    → InWidth f.header
    → concatenate_all (serialize f) ≡ serialize_header f.header ++ contents f.payload
unfolding serialize
frame_string f w = concatenate_all_lem (serialize f)

-- A frame that is serialized, with addresses of six bytes, is parsed, in one buffer, without an
-- error, to the same header and the same payload.
pub parse-serialize_frame :
    (f old : EthernetFrame)
    → InWidth f.header
    → 14 + length (contents f.payload) < 2 ^ 64
    → (f' : EthernetFrame) × (parse (Buffer.of_string (concatenate_all (serialize f))) old
        ≡ some (no_error, f'))
      × (f'.header ≡ f.header)
      × (concatenate_all f'.payload ≡ concatenate_all f.payload)
unfolding parse parse_header
parse-serialize_frame f old w small =
    let s = serialize_header f.header ++ contents f.payload in
    let size : length s ≡ 14 + length (contents f.payload) = omega (
      arith,
      length-append (serialize_header f.header) (contents f.payload),
      header_length_lem f.header w,
    ) in
    let long : ltb (length s) 14 ≡ false = ground (arith, size) in
    let read =
      parse_fields-Reads f.header (contents f.payload) (Buffer.of_string s) w
        (omega arith, omega (arith, size))
        (ap (λ t. t ++ contents f.payload) (serialize_header_lem f.header w)
          ∙ rw (append_assoc, append_assoc)) in
    (
      record { header = f.header; payload = read.left ∷ [] },
      ap (λ t. parse (Buffer.of_string t) old) (frame_string f w) ∙ rw (long, read.result) refl,
      refl,
      concatenate_all_lem (read.left ∷ [])
          ∙ append-nil _
          ∙ read.bytes
          ∙ sym (concatenate_all_lem f.payload),
    )

-- A buffer that is too short for a header is parsed without an error all the same: the frame
-- keeps its header, and gets the whole buffer as its payload.
pub parse-short_frame :
    (b : Buffer) (old : EthernetFrame)
    → Buffer.size b < 14
    → parse b old ≡ some (no_error, record old { payload = b ∷ [] })
unfolding parse parse_header
parse-short_frame b old h =
    let short : ltb (Buffer.size b) 14 ≡ true = ground arith in rw short refl
