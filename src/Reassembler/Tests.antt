-- ===== src/Reassembler/Tests.antt =====
-- Runs of libsponge/stream_reassembler.cc on concrete substrings.
use cs.Reassembler.Slice.{slice}
use cs.Reassembler.Window.{Inv}
use cs.Reassembler.Finish.{Pushed}
use cs.Reassembler.Push.{front, push_substring-Pushed}
use cs.Reassembler.Taken.{Covered}
use cs.Reassembler.Delivery.{Run, start, push, Lacking, Run-Delivered}
use cs.Reassembler.Eof.{cut_and_ended}
use cs.Prelude.{
  ◌⊎◌, ◌+◌, ◌++◌, arith, ℕ, ◌≡◌, refl, Bool, true, false, Option, none, some, List, [], ◌∷◌,
}
use cs.ByteStream
use cs.BufferList.Laws.{contents}
use cs.Reassembler.{
  StreamReassembler, init, push_substring, trim, merge_all, merge_back, merge_forward, finish,
  write_out, keep_back, insert,
}

-- Pushes in order.
pushes : StreamReassembler → List (List ℕ × ℕ × Bool) → Option StreamReassembler
unfolding push_substring trim merge_all merge_back merge_forward finish write_out keep_back insert
    ByteStream.write ByteStream.end_input
pushes r [] = some r
pushes r ((d, i, e) ∷ ps) = elim (push_substring d i e r) [ none ↦ none | some r' ↦ pushes r' ps ]

-- Bytes out, bytes still held, and whether the input is ended.
show : Option StreamReassembler → Option (List ℕ × ℕ × Bool)
show none = none
show (some r) = some (contents r.output.stream_buffer, r.num_unassembled_byte, r.output.if_end)

in_two :
    show (pushes (init 8) ((3 ∷ 4 ∷ [], 2, true) ∷ (1 ∷ 2 ∷ 3 ∷ [], 0, false) ∷ []))
    ≡ some (1 ∷ 2 ∷ 3 ∷ 4 ∷ [], 0, true)
unfolding pushes show init
in_two = refl

-- Byte 6 is held twice, and counted twice.
overlap :
    show (
      pushes
        (init 32)
        ((5 ∷ 6 ∷ [], 5, false) ∷ (20 ∷ [], 20, false) ∷ (6 ∷ 7 ∷ [], 6, false) ∷ []))
    ≡ some ([], 5, false)
unfolding pushes show init
overlap = refl

cut_short : show (pushes (init 2) ((5 ∷ 6 ∷ 7 ∷ [], 0, true) ∷ [])) ≡ some (5 ∷ 6 ∷ [], 0, true)
unfolding pushes show init
cut_short = refl

-- A stream, and its first two bytes.
abbrev counting : ℕ → ℕ
counting i = i + 1

abbrev two_in : StreamReassembler
two_in = record {
  output = record {
    stream_buffer = record { storage = some (1 ∷ 2 ∷ []); starting_offset = 0 } ∷ [];
    size = 2;
    capacity = 8;
    num_write = 2;
    num_read = 0;
    if_end = false;
    error = false;
  };
  unassembled = [];
  first_unassemble_byte = 2;
  num_unassembled_byte = 0;
  capacity = 8;
  eof = false;
}

two_pushed : push_substring (1 ∷ 2 ∷ []) 0 false (init 8) ≡ some two_in
unfolding push_substring trim merge_all merge_back merge_forward finish write_out keep_back insert
    init ByteStream.write
two_pushed = refl

two_run : Run counting 8 [] two_in
unfolding init ByteStream.init
two_run = push (1 ∷ 2 ∷ []) 0 false start (omega arith) refl (omega arith) (omega arith) two_pushed

-- The third byte is not there yet, and the fifth is held.
abbrev one_held : StreamReassembler
one_held = record two_in {
  unassembled = record { index = 4; bytes = 5 ∷ [] } ∷ [];
  num_unassembled_byte = 1;
}

fifth_pushed : push_substring (5 ∷ []) 4 false two_in ≡ some one_held
unfolding push_substring trim merge_all merge_back merge_forward finish write_out keep_back insert
fifth_pushed = refl

held_run : Run counting 8 [] one_held
held_run = push (5 ∷ []) 4 false two_run (omega arith) refl (omega arith) (omega arith) fifth_pushed

Run-Delivered_example :
    Inv counting one_held
    × ([] ++ (1 ∷ 2 ∷ []) ≡ slice counting 0 2)
    × Lacking counting 2 held_run
    × (Lacking counting 4 held_run ⊎ Covered 4 one_held)
Run-Delivered_example = Run-Delivered counting 8 4 (omega arith) held_run

push_substring-Pushed_example :
    (r' : StreamReassembler) × (push_substring (3 ∷ 4 ∷ []) 2 true two_in ≡ some r')
    × Pushed counting two_in r' (front counting (3 ∷ 4 ∷ []) 2 two_in)
push_substring-Pushed_example =
    push_substring-Pushed counting (3 ∷ 4 ∷ []) 2 true two_in
      (Run-Delivered counting 8 0 (omega arith) two_run).0 (omega arith) refl (omega arith)
      (omega arith)

cut_and_ended_example :
    (r' : StreamReassembler) × (push_substring (1 ∷ 2 ∷ 3 ∷ []) 0 true (init 2) ≡ some r')
    × (r'.output.if_end ≡ true)
    × (r'.first_unassemble_byte ≡ 2)
cut_and_ended_example =
    cut_and_ended counting (1 ∷ 2 ∷ 3 ∷ []) 2 refl (omega arith) (omega arith) (omega arith)
