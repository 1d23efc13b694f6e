-- ===== src/Parser.antt =====
-- libsponge/util/parser.hh and parser.cc: numbers in network byte order, read from the front of a
-- buffer and written to the end of a string.
pub mod Laws
pub mod Safety
use cs.Prelude.{
  ℕ, zero, suc, ◌+◌, ◌*◌, ◌/◌, ◌%◌, ◌^◌, Bool, true, false, Option, none, some, List, [], ◌∷◌, ◌++◌,
  if◌then◌else◌, ltb, ◌-◌, length, take,
}
use cs.Buffer.{Buffer, str}
use cs.Buffer

pub data ParseResult : Type 0 where
  no_error : ParseResult
  bad_checksum : ParseResult
  packet_too_short : ParseResult
  wrong_ip_version : ParseResult
  header_too_short : ParseResult
  truncated_packet : ParseResult
  unsupported : ParseResult

pub record NetParser : Type 0 where
  pub buffer : Buffer
  pub error : ParseResult

-- `NetParser(buffer)`.
abbrev pub of_buffer : Buffer → NetParser
of_buffer b = record { buffer = b; error = no_error }

-- `r != ParseResult::NoError`.
abbrev pub failed : ParseResult → Bool
failed no_error = false
failed r = true

-- A call that reads from a parser; `none` is an exception.
abbrev pub M : Type 0 → Type 0
M A = NetParser → Option (A × NetParser)

infixl 5 ◌>>=◌
abbrev pub ◌>>=◌ : {A B : Type 0} → M A → (A → M B) → M B
◌>>=◌ m f p = elim (m p) [ none ↦ none | some (a, p') ↦ f a p' ]

abbrev pub give : {A : Type 0} → A → M A
give a p = some (a, p)

abbrev pub get_error : M ParseResult
get_error p = some (p.error, p)

abbrev pub get_buffer : M Buffer
get_buffer p = some (p.buffer, p)

unfoldable pub check_size : ℕ → NetParser → NetParser
check_size n p = if ltb (Buffer.size p.buffer) n then record p { error = packet_too_short } else p

-- The loop of `_parse_int`, with `left` rounds to go: `ret` has `width` bits.
unfoldable pub read_from : ℕ → ℕ → ℕ → ℕ → Buffer → Option ℕ
read_from width zero i ret b = some ret
read_from width (suc left) i ret b = elim (Buffer.at i b) [
  | none ↦ none
  | some c ↦ read_from width left (i + 1) ((ret * 256 % 2 ^ width + c) % 2 ^ width) b
]

abbrev pub with_buffer : Option Buffer → NetParser → Option NetParser
with_buffer none p = none
with_buffer (some b) p = some (record p { buffer = b })

abbrev pub with_value : ℕ → Option NetParser → Option (ℕ × NetParser)
with_value v none = none
with_value v (some p) = some (v, p)

-- The rest of `_parse_int`, after the size is checked.
unfoldable pub parse_checked : ℕ → M ℕ
parse_checked len p =
    if failed p.error then some (0, p) else elim (read_from (8 * len) len 0 0 p.buffer) [
      | none ↦ none
      | some v ↦ with_value v (with_buffer (Buffer.remove_prefix len p.buffer) p)
    ]

-- `_parse_int` for a type of so many bytes.
unfoldable pub parse_int : ℕ → M ℕ
parse_int len p = parse_checked len (check_size len p)

unfoldable pub u8 : M ℕ
unfolding parse_int parse_checked check_size read_from
u8 = parse_int 1

unfoldable pub u16 : M ℕ
unfolding parse_int parse_checked check_size read_from
u16 = parse_int 2

unfoldable pub u32 : M ℕ
unfolding parse_int parse_checked check_size read_from
u32 = parse_int 4

-- `remove_prefix`.
unfoldable pub skip_checked : ℕ → NetParser → Option NetParser
skip_checked n p =
    if failed p.error then some p else with_buffer (Buffer.remove_prefix n p.buffer) p

abbrev pub done : Option NetParser → Option (Unit {0} × NetParser)
done none = none
done (some p) = some (tt, p)

unfoldable pub skip : ℕ → M (Unit {0})
skip n p = done (skip_checked n (check_size n p))

-- `for (auto& byte : address) { byte = p.u8(); }`, for an array of so many bytes.
unfoldable pub bytes : ℕ → M (List ℕ)
bytes zero = give []
bytes (suc n) = do b ← u8; bs ← bytes n; give (b ∷ bs)

-- The loop of `_unparse_int`, with `left` rounds to go.
unfoldable pub write_from : ℕ → List ℕ → ℕ → List ℕ
write_from zero s val = s
write_from (suc left) s val = write_from left (s ++ val / 2 ^ (left * 8) % 256 ∷ []) val

-- The functions of `NetUnparser`.
unfoldable pub put_u8 : List ℕ → ℕ → List ℕ
unfolding write_from
put_u8 s val = write_from 1 s val

unfoldable pub put_u16 : List ℕ → ℕ → List ℕ
unfolding write_from
put_u16 s val = write_from 2 s val

unfoldable pub put_u32 : List ℕ → ℕ → List ℕ
unfolding write_from
put_u32 s val = write_from 4 s val

-- `for (auto& byte : address) { NetUnparser::u8(ret, byte); }`
unfoldable pub put_bytes : List ℕ → List ℕ → List ℕ
unfolding put_u8
put_bytes s [] = s
put_bytes s (b ∷ bs) = put_bytes (put_u8 s b) bs

abbrev pub zeros : ℕ → List ℕ
zeros zero = []
zeros (suc n) = 0 ∷ zeros n

-- `string::resize`.
unfoldable pub resize : ℕ → List ℕ → List ℕ
resize n s = take n s ++ zeros (n - length s)
