-- ===== src/ByteStream/Refine.antt =====
-- A valid byte stream (libsponge/byte_stream.cc) behaves as the bounded queue of its bytes.
use cs.Prelude.{ℕ, ◌^◌, ◌<◌, ◌≡◌, refl, Option, none, some, List, [], ◌∷◌, arith, length}
use cs.ByteStream.{
  ByteStream, write, peek_output, pop_output, read, end_input, set_error, remaining_capacity, eof,
}
use cs.ByteStream.Fifo.{Fifo, Op, Answer, View, count, bytes, done, view}
use cs.ByteStream.Fifo
use cs.ByteStream.Valid.{
  IsValid, fifo, Simulated, write-Simulated, pop_output-Simulated, peek_output_lem,
}

-- A call on the stream; `none` is an exception.
abbrev with_answer : Answer → Option ByteStream → Option (Answer × ByteStream)
with_answer a none = none
with_answer a (some s) = some (a, s)

abbrev with_bytes : Option (List ℕ × ByteStream) → Option (Answer × ByteStream)
with_bytes none = none
with_bytes (some (b, s)) = some (bytes b, s)

pub step : ByteStream → Op → Option (Answer × ByteStream)
step s (Op.write d) = let (n, s') = write d s in some (count n, s')
step s (Op.peek_output n) = some (bytes (peek_output n s), s)
step s (Op.pop_output n) = with_answer done (pop_output n s)
step s (Op.read n) = with_bytes (read n s)
step s Op.end_input = some (done, end_input s)
step s Op.set_error = some (done, set_error s)

abbrev pub observe : Answer → ByteStream → View
observe a s = record {
  answer = a;
  remaining = remaining_capacity s;
  buffered = s.size;
  written = s.num_write;
  taken = s.num_read;
  ended = s.if_end;
  eof = eof s;
  failed = s.error;
}

abbrev cons_view : View → Option (List View) → Option (List View)
cons_view v none = none
cons_view v (some vs) = some (v ∷ vs)

pub run : ByteStream → List Op → Option (List View)
run s [] = some []
run s (o ∷ os) = elim (step s o) [
  | none ↦ none
  | some (a, s') ↦ cons_view (observe a s') (run s' os)
]

-- The strings that a client writes are addressable.
abbrev pub Fits : Op → Type 0
Fits (Op.write d) = length d < 2 ^ 64
Fits o = Unit {0}

-- On a valid stream no call throws; the stream stays valid, and call and answer are those of the
-- bounded queue.
pub step-Simulated :
    (s : ByteStream) (o : Op)
    → IsValid s
    → Fits o
    → (a : Answer) × (s' : ByteStream) × (step s o ≡ some (a, s')) × Simulated s o a s'
unfolding step Fifo.step read end_input set_error
step-Simulated s (Op.write d) v h =
    (count (write d s).0, (write d s).1, refl, write-Simulated s d v h)
step-Simulated s (Op.peek_output n) v h =
    (bytes (peek_output n s), s, refl, record { valid = v; same = rw (peek_output_lem s n v) })
step-Simulated s (Op.pop_output n) v h =
    let (s', e, m) = pop_output-Simulated s n v in (done, s', rw (e, with_answer), m)
step-Simulated s (Op.read n) v h =
    let (s', e, m) = pop_output-Simulated s n v in
    (
      bytes (peek_output n s),
      s',
      rw (e, read, with_bytes),
      record { valid = m.valid; same = ground (arith, m.same, peek_output_lem s n v) },
    )
step-Simulated s Op.end_input v h = (
  done,
  end_input s,
  refl,
  record {
    valid = record {
      in_memory = v.in_memory;
      sized = v.sized;
      within = v.within;
      small = v.small;
      counted = v.counted;
    };
    same = refl;
  },
)
step-Simulated s Op.set_error v h = (
  done,
  set_error s,
  refl,
  record {
    valid = record {
      in_memory = v.in_memory;
      sized = v.sized;
      within = v.within;
      small = v.small;
      counted = v.counted;
    };
    same = refl;
  },
)

abbrev pub AllFit : List Op → Type 0
AllFit [] = Unit {0}
AllFit (o ∷ os) = Fits o × AllFit os

observe-view : (a : Answer) (s : ByteStream) → IsValid s → observe a s ≡ view a (fifo s)
observe-view a s v = ground (arith, v)

-- Whatever calls a client makes on a valid stream, with strings shorter than 2^64, none throws, and it
-- sees what the bounded queue of the stream's bytes would show it; that queue takes writes after the
-- end of the input as before it, as the code does and its header does not want.
pub run_refines :
    (os : List Op) (s : ByteStream) → IsValid s → AllFit os → run s os ≡ some (Fifo.run (fifo s) os)
unfolding run Fifo.run
run_refines [] s v h = refl
run_refines (o ∷ os) s v h =
    let (a, s', e, m) = step-Simulated s o v h.0 in
    rw (e, run, run_refines os s' m.valid h.1, observe-view a s' m.valid, m.same, cons_view)
