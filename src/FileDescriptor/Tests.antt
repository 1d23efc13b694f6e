-- ===== src/FileDescriptor/Tests.antt =====
-- Runs of the descriptor's operations.
use cs.Prelude.{ℕ, zero, suc, ◌≡◌, refl, true, false, some, [], ◌∷◌}
use cs.Outcome.{returned, thrown, Ends, Holds}
use cs.ViewList.{BufferViewList, size, size_from, remove_prefix}
use cs.FileDescriptor.{SystemCalls, new, write, write_loop, write_turn, read}
use cs.FileDescriptor.Pipes.{Pipes, pipe_calls, pipe_calls-IsKernel, got, sent}
use cs.FileDescriptor.WholeWrites.{WroteAll, write-WroteAll}
use cs.FileDescriptor.Writing.{Written, write-Written}

-- A kernel that counts its answers: it takes two bytes at a time, and then one.
abbrev slow : SystemCalls ℕ
slow = record {
  read = λ f n k. (some (7 ∷ []), suc k);
  writev = λ f b k. (some (elim k [ zero ↦ 2 | suc _ ↦ 1 ]), suc k);
  close = λ f k. (true, k);
  shutdown = λ f how k. (true, k);
}

abbrev views : BufferViewList
views = (1 ∷ 2 ∷ 3 ∷ []) ∷ (4 ∷ []) ∷ []

write_in_turns :
    write slow views true (new 3) 0
    ≡ returned
        (4, record { fd = 3; eof = false; closed = false; read_count = 0; write_count = 3 }, 3)
unfolding write write_loop write_turn size size_from remove_prefix
write_in_turns = refl

write_once :
    write slow views false (new 3) 0
    ≡ returned
        (2, record { fd = 3; eof = false; closed = false; read_count = 0; write_count = 1 }, 1)
unfolding write write_loop write_turn size size_from remove_prefix
write_once = refl

-- The kernel gives a byte that was not asked for.
read_too_much : read slow 0 (new 3) 0 ≡ thrown
unfolding read
read_too_much = refl

write-Written_example : Ends (Written true 4 (new 3)) (write slow views true (new 3) 0)
write-Written_example = write-Written slow views true (new 3) 0

abbrev pipes : Pipes
pipes f = record { waiting = []; got = []; sent = [] }

write-WroteAll_example :
    Holds
      (WroteAll pipe_calls got sent pipe_calls-IsKernel views (new 3) pipes)
      (write pipe_calls views true (new 3) pipes)
write-WroteAll_example = write-WroteAll pipe_calls got sent pipe_calls-IsKernel views (new 3) pipes
