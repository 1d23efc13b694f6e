-- ===== src/ByteStream/Fifo.antt =====
-- What a byte stream promises to its two ends: a queue of at most `capacity` bytes, two counters of
-- 64 bits, and two flags; and the calls that a client makes, with what each lets it see. The end of
-- the input is a flag that bars no write, which is what libsponge/byte_stream.cc does; the comment in
-- libsponge/byte_stream.hh says that no more bytes can be written then.
use cs.Prelude.{ℕ, ◌-◌, Bool, true, ◌&&◌, List, [], ◌∷◌, ◌++◌, ◌==◌, length, take, drop, min, add64}

pub record Fifo : Type 0 where
  pub queue : List ℕ
  pub capacity : ℕ
  pub written : ℕ
  pub taken : ℕ
  pub ended : Bool
  pub failed : Bool

pub data Op : Type 0 where
  write : List ℕ → Op
  peek_output : ℕ → Op
  pop_output : ℕ → Op
  read : ℕ → Op
  end_input : Op
  set_error : Op

-- The result of a call.
pub data Answer : Type 0 where
  count : ℕ → Answer
  bytes : List ℕ → Answer
  done : Answer

-- What the observers say after a call.
pub record View : Type 0 where
  pub answer : Answer
  pub remaining : ℕ
  pub buffered : ℕ
  pub written : ℕ
  pub taken : ℕ
  pub ended : Bool
  pub eof : Bool
  pub failed : Bool

pub accept : List ℕ → Fifo → Fifo
accept data_in f = record f {
  queue = f.queue ++ take (f.capacity - length f.queue) data_in;
  written = add64 f.written (min (length data_in) (f.capacity - length f.queue));
}

pub discard : ℕ → Fifo → Fifo
discard n f = record f { queue = drop n f.queue; taken = add64 f.taken (min n (length f.queue)) }

unfoldable pub step : Fifo → Op → Answer × Fifo
unfolding accept discard
step f (write d) = (count (min (length d) (f.capacity - length f.queue)), accept d f)
step f (peek_output n) = (bytes (take n f.queue), f)
step f (pop_output n) = (done, discard n f)
step f (read n) = (bytes (take n f.queue), discard n f)
step f end_input = (done, record f { ended = true })
step f set_error = (done, record f { failed = true })

abbrev pub view : Answer → Fifo → View
view a f = record {
  answer = a;
  remaining = f.capacity - length f.queue;
  buffered = length f.queue;
  written = f.written;
  taken = f.taken;
  ended = f.ended;
  eof = f.ended && (length f.queue == 0);
  failed = f.failed;
}

unfoldable pub run : Fifo → List Op → List View
run f [] = []
run f (o ∷ os) = let (a, f') = step f o in view a f' ∷ run f' os
