-- ===== src/ByteStream.antt =====
-- libsponge/byte_stream.hh and byte_stream.cc: a bounded in-order stream of bytes.
pub mod Fifo
pub mod Valid
pub mod Refine
mod Tests
use cs.Prelude.{
  ℕ, Bool, true, false, ◌&&◌, Option, none, some, List, [], ◌∷◌, if◌then◌else◌, ◌==◌, length, take,
  min, add64, sub64,
}
use cs.BufferList.{BufferList, append, concatenate, remove_prefix}
use cs.BufferList

pub record ByteStream : Type 0 where
  pub stream_buffer : BufferList
  pub size : ℕ
  pub capacity : ℕ
  pub num_write : ℕ
  pub num_read : ℕ
  pub if_end : Bool
  pub error : Bool

-- The constructor.
unfoldable pub init : ℕ → ByteStream
init capacity = record {
  stream_buffer = [];
  size = 0;
  capacity = capacity;
  num_write = 0;
  num_read = 0;
  if_end = false;
  error = false;
}

abbrev pub remaining_capacity : ByteStream → ℕ
remaining_capacity s = sub64 s.capacity s.size

-- The stream afterwards, and how many bytes it accepted.
unfoldable pub write : List ℕ → ByteStream → ℕ × ByteStream
write bytes s =
    let l : ℕ = min (length bytes) (sub64 s.capacity s.size) in
    (
      l,
      record s {
        stream_buffer = append s.stream_buffer (BufferList.of_string (take l bytes));
        size = add64 s.size l;
        num_write = add64 s.num_write l;
      },
    )

unfoldable pub peek_output : ℕ → ByteStream → List ℕ
peek_output len s = concatenate (min len s.size) s.stream_buffer

-- `none` is the exception that `BufferList::remove_prefix` may throw.
unfoldable pub pop_output : ℕ → ByteStream → Option ByteStream
pop_output len s =
    let l : ℕ = min len s.size in
    elim (remove_prefix l s.stream_buffer) [
      | none ↦ none
      | some rest ↦
          some (record s {
            stream_buffer = rest;
            size = sub64 s.size l;
            num_read = add64 s.num_read l;
          })
    ]

unfoldable pub read : ℕ → ByteStream → Option (List ℕ × ByteStream)
unfolding pop_output peek_output
read len s = elim (pop_output len s) [ none ↦ none | some s' ↦ some (peek_output len s, s') ]

unfoldable pub end_input : ByteStream → ByteStream
end_input s = record s { if_end = true }

unfoldable pub set_error : ByteStream → ByteStream
set_error s = record s { error = true }

abbrev pub input_ended : ByteStream → Bool
input_ended s = s.if_end

abbrev pub buffer_size : ByteStream → ℕ
buffer_size s = s.size

abbrev pub buffer_empty : ByteStream → Bool
buffer_empty s = s.size == 0

abbrev pub eof : ByteStream → Bool
eof s = s.if_end && (s.size == 0)

abbrev pub bytes_written : ByteStream → ℕ
bytes_written s = s.num_write

abbrev pub bytes_read : ByteStream → ℕ
bytes_read s = s.num_read
