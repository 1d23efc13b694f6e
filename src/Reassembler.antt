-- ===== src/Reassembler.antt =====
-- libsponge/stream_reassembler.hh and stream_reassembler.cc: substrings that arrive in any order,
-- put together to a byte stream.
mod Merge
pub mod Slice
pub mod Store
pub mod Missing
pub mod Holding
pub mod Taken
pub mod Loops
pub mod Back
pub mod Forward
pub mod Window
pub mod Output
pub mod Finish
pub mod Push
pub mod Delivery
pub mod Eof
mod Tests
pub use Merge.{Unassembled, Pending, last}
unfoldable pub use Merge.{
  merge_substring, rev_onto, lower_bound, absorb, back_loop, back_from_end, back_from, merge_back,
  forward_loop, merge_forward, insert,
}
use cs.Prelude.{
  ℕ, ◌-◌, Bool, true, false, ◌&&◌, ◌||◌, not, Option, none, some, List, [], ◌∷◌, if◌then◌else◌,
  ◌==◌, ltb, leb, length, take, drop, add64, sub64,
}
use cs.ByteStream.{ByteStream}
use cs.ByteStream

pub record StreamReassembler : Type 0 where
  pub output : ByteStream
  pub unassembled : List Unassembled
  pub first_unassemble_byte : ℕ
  pub num_unassembled_byte : ℕ
  pub capacity : ℕ
  pub eof : Bool

-- The constructor.
unfoldable pub init : ℕ → StreamReassembler
unfolding ByteStream.init
init capacity = record {
  output = ByteStream.init capacity;
  unassembled = [];
  first_unassemble_byte = 0;
  num_unassembled_byte = 0;
  capacity = capacity;
  eof = false;
}

abbrev pub unassembled_bytes : StreamReassembler → ℕ
unassembled_bytes r = r.num_unassembled_byte

abbrev pub empty : StreamReassembler → Bool
empty r = r.num_unassembled_byte == 0

-- `if (empty() && _eof) _output.end_input();`
abbrev pub end_if_done : StreamReassembler → StreamReassembler
end_if_done r = if empty r && r.eof then record r { output = ByteStream.end_input r.output } else r

-- `string(begin + first, begin + last)`: `none` where the range is not one of the string, which is
-- undefined there.
abbrev pub substring : ℕ → ℕ → List ℕ → Option (List ℕ)
substring first last s =
    if leb first last && leb last (length s)
    then some (take (last - first) (drop first s))
    else none

-- The first index that is to be thrown away.
abbrev pub first_unacceptable_byte : StreamReassembler → ℕ
first_unacceptable_byte r =
    sub64 (add64 r.first_unassemble_byte r.capacity) (ByteStream.buffer_size r.output)

-- Both loops over the set: the piece to store, with what is left of the set.
unfoldable pub merge_all : Unassembled → StreamReassembler → Pending
merge_all piece r =
    merge_forward
      (merge_back (record { piece = piece; count = r.num_unassembled_byte; store = r.unassembled }))

-- The piece is written, and the first index that is missing moves on by what was accepted.
abbrev pub write_piece : Unassembled → StreamReassembler → StreamReassembler
write_piece piece r =
    let (w, out) = ByteStream.write piece.bytes r.output in
    record r { output = out; first_unassemble_byte = add64 r.first_unassemble_byte w }

-- `_eof = true; _output.end_input();`
abbrev pub mark_end : StreamReassembler → StreamReassembler
mark_end r = record r { output = ByteStream.end_input r.output; eof = true }

-- `if (resIndex == _first_unassemble_byte) …`
unfoldable pub write_out : Bool → Unassembled → StreamReassembler → StreamReassembler
write_out eof piece r =
    let all : Bool = (ByteStream.write piece.bytes r.output).0 == length piece.bytes in
    if piece.index == r.first_unassemble_byte
    then (if all && eof then mark_end (write_piece piece r) else write_piece piece r)
    else r

-- `if (!resData.empty() && resIndex > _first_unassemble_byte) …`
unfoldable pub keep_back : Unassembled → StreamReassembler → StreamReassembler
keep_back piece r =
    if ltb 0 (length piece.bytes) && ltb r.first_unassemble_byte piece.index
    then record r {
      unassembled = insert piece r.unassembled;
      num_unassembled_byte = add64 r.num_unassembled_byte (length piece.bytes);
    }
    else r

-- From the merged piece on.
unfoldable pub finish : Bool → Pending → StreamReassembler → StreamReassembler
finish eof p r = end_if_done (
    keep_back p.piece
      (write_out eof p.piece (record r { unassembled = p.store; num_unassembled_byte = p.count })))

-- `beginIndex`, `endIndex` and `resIndex`.
abbrev pub begin_index : ℕ → StreamReassembler → ℕ
begin_index index r =
    if ltb index r.first_unassemble_byte then r.first_unassemble_byte - index else 0

abbrev pub end_index : List ℕ → ℕ → StreamReassembler → ℕ
end_index bytes index r =
    if leb (first_unacceptable_byte r) (add64 index (length bytes))
    then sub64 (first_unacceptable_byte r) index
    else length bytes

abbrev pub res_index : ℕ → StreamReassembler → ℕ
res_index index r = if ltb index r.first_unassemble_byte then r.first_unassemble_byte else index

-- The piece of a substring, where there is one.
abbrev pub piece_at : ℕ → Option (List ℕ) → Option Unassembled
piece_at i none = none
piece_at i (some s) = some (record { index = i; bytes = s })

-- The part of the substring that is new and fits.
unfoldable pub trim : List ℕ → ℕ → StreamReassembler → Option Unassembled
trim bytes index r =
    piece_at (res_index index r) (substring (begin_index index r) (end_index bytes index r) bytes)

-- `data.empty() || index + data.size() <= _first_unassemble_byte`
abbrev pub nothing_new : List ℕ → ℕ → StreamReassembler → Bool
nothing_new bytes index r =
    (length bytes == 0) || leb (add64 index (length bytes)) r.first_unassemble_byte

-- `none` where the code's behaviour is undefined, for a substring that starts past the window.
unfoldable pub push_substring : List ℕ → ℕ → Bool → StreamReassembler → Option StreamReassembler
push_substring bytes index eof r =
    let r' : StreamReassembler = record r { eof = r.eof || eof } in
    if nothing_new bytes index r' then some (end_if_done r') else elim (trim bytes index r') [
      | none ↦ none
      | some piece ↦ some (finish eof (merge_all piece r') r')
    ]
