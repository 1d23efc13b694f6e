-- ===== src/ByteStream/Tests.antt =====
-- Runs of the buffers and of the byte stream on concrete bytes (libsponge/util/buffer.cc,
-- libsponge/byte_stream.cc).
use cs.Prelude.{◌≡◌, refl, some, List, [], ◌∷◌, arith}
use cs.Buffer.{Buffer, str}
use cs.Buffer
use cs.BufferList.{BufferList, remove_prefix}
use cs.ByteStream.{ByteStream, init}
use cs.ByteStream.Fifo.{Op, Answer, View, count, done}
use cs.ByteStream.Fifo
use cs.ByteStream.Valid.{Simulated, fifo, init-IsValid}
use cs.ByteStream.Refine.{step, run, step-Simulated, run_refines}

abbrev cat_dog : BufferList
cat_dog =
    record { storage = some (1 ∷ 2 ∷ 3 ∷ []); starting_offset = 1 }
    ∷ record { storage = some (4 ∷ 5 ∷ []); starting_offset = 0 }
    ∷ []

remove_three :
    remove_prefix 3 cat_dog
    ≡ some (record { storage = some (4 ∷ 5 ∷ []); starting_offset = 1 } ∷ [])
unfolding remove_prefix Buffer.remove_prefix
remove_three = refl

abbrev script : List Op
script = Op.write (7 ∷ 8 ∷ 9 ∷ []) ∷ Op.read 1 ∷ Op.end_input ∷ Op.pop_output 5 ∷ []

script_runs : run (init 2) script ≡ some (Fifo.run (fifo (init 2)) script)
script_runs = run_refines script (init 2) (init-IsValid 2 (omega arith)) (omega arith)

run_refines_example : run (init 2) script ≡ some (Fifo.run (fifo (init 2)) script)
run_refines_example = run_refines script (init 2) (init-IsValid 2 (omega arith)) (omega arith)

step-Simulated_example :
    (a : Answer) × (s' : ByteStream) × (step (init 4) (Op.write (7 ∷ 8 ∷ [])) ≡ some (a, s'))
    × Simulated (init 4) (Op.write (7 ∷ 8 ∷ [])) a s'
step-Simulated_example =
    step-Simulated (init 4) (Op.write (7 ∷ 8 ∷ [])) (init-IsValid 4 (omega arith)) (omega arith)
