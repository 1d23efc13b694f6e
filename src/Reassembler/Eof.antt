-- ===== src/Reassembler/Eof.antt =====
-- The end of the input (`push_substring` of libsponge/stream_reassembler.cc): libsponge/
-- stream_reassembler.hh says that the end mark of a substring is disregarded where only a part of the
-- substring is accepted.
use cs.Prelude.{ℕ, ◌^◌, ◌<◌, ◌≡◌, refl, true, false, some, List, [], arith, length}
use cs.ByteStream.{ByteStream}
use cs.ByteStream
use cs.Reassembler.{
  StreamReassembler, Unassembled, init, push_substring, merge_all, merge_back, merge_forward,
  finish, write_out, keep_back, nothing_new,
}
use cs.Reassembler.Slice.{slice}
use cs.Reassembler.Window.{Inv, trim_lem, with_eof}
use cs.Reassembler.Delivery.{init-Inv}

-- A new reassembler that has seen the end mark.
abbrev seen : ℕ → StreamReassembler
seen capacity = record (init capacity) { eof = true }

merge_all_new :
    (u : Unassembled) (capacity : ℕ)
    → merge_all u (seen capacity) ≡ record { piece = u; count = 0; store = [] }
unfolding merge_all merge_back merge_forward init
merge_all_new u capacity = refl

-- A piece that fills the window and carries the end mark ends the output.
finish_new :
    (u : Unassembled) (capacity : ℕ)
    → capacity < 2 ^ 64
    → u.index ≡ 0
    → length u.bytes ≡ capacity
    → let r' = finish true (record { piece = u; count = 0; store = [] }) (seen capacity) in
      (r'.output.if_end ≡ true) × (r'.first_unassemble_byte ≡ capacity)
unfolding finish write_out keep_back init ByteStream.init ByteStream.end_input ByteStream.write
finish_new u capacity small at long = (ground arith, ground arith)

module _ (S : ℕ → ℕ) where
  -- A first substring that is longer than the capacity and carries the end mark ends the output,
  -- though its bytes past the capacity are thrown away: the output holds `capacity` bytes.
  pub cut_and_ended :
      (bytes : List ℕ) (capacity : ℕ)
      → bytes ≡ slice S 0 (length bytes)
      → 0 < capacity
      → capacity < length bytes
      → length bytes < 2 ^ 62
      → (r' : StreamReassembler) × (push_substring bytes 0 true (init capacity) ≡ some r')
        × (r'.output.if_end ≡ true)
        × (r'.first_unassemble_byte ≡ capacity)
  unfolding push_substring init ByteStream.init
  cut_and_ended bytes capacity right some_room long small =
      let (u, t, f, at, end) =
        trim_lem S bytes 0 (seen capacity) start (omega arith) right (omega arith) (omega arith)
          (omega arith) in
      let (ended, front) =
        finish_new u capacity (omega arith) (omega (arith, at)) (omega (arith, at, end)) in
      let new : nothing_new bytes 0 (seen capacity) ≡ false = ground arith in
      (
        finish true (merge_all u (seen capacity)) (seen capacity),
        rw (new, t),
        rw merge_all_new ended,
        rw merge_all_new front,
      )
    where
      start : Inv S (seen capacity)
      start = with_eof S true (init capacity) (init-Inv S capacity (omega arith))
