-- ===== src/ByteStream/Valid.antt =====
-- When a byte stream (libsponge/byte_stream.cc) is valid, and what each of its operations does then.
use cs.Prelude.{
  sym, subst, some_eq, take-all, ◌+◌, ℕ, ◌-◌, ◌^◌, ◌≤◌, ◌<◌, ◌≡◌, refl, ap, ◌∙◌, some, List, ◌++◌,
  arith, length, take, drop, min, add64, length-append, length-take, length-drop, append-nil,
  take-min, take-min_right, drop-min_right, sub64,
}
use cs.BufferList.{append}
use cs.BufferList
use cs.BufferList.Laws.{
  contents, contents-append, AllInMemory, AllInMemory-append, remove_prefix_lem, concatenate_lem,
}
use cs.ByteStream.{ByteStream, init, write, peek_output, pop_output, read}
use cs.ByteStream.Fifo.{Fifo, Op, Answer, View, count, bytes, done, view}
use cs.ByteStream.Fifo

pub record IsValid (s : ByteStream) : Type 0 where
  pub in_memory : AllInMemory s.stream_buffer
  pub sized : s.size ≡ length (contents s.stream_buffer)
  pub within : s.size ≤ s.capacity
  pub small : s.capacity < 2 ^ 64
  pub counted : s.num_write ≡ add64 s.num_read s.size

-- The queue that a stream stands for.
abbrev pub fifo : ByteStream → Fifo
fifo s = record {
  queue = contents s.stream_buffer;
  capacity = s.capacity;
  written = s.num_write;
  taken = s.num_read;
  ended = s.if_end;
  failed = s.error;
}

pub init-IsValid : (capacity : ℕ) → capacity < 2 ^ 64 → IsValid (init capacity)
unfolding init
init-IsValid capacity h = record {
  in_memory = tt;
  sized = refl;
  within = omega arith;
  small = h;
  counted = omega arith;
}

-- What one call leaves behind.
pub record Simulated (s : ByteStream) (o : Op) (a : Answer) (s' : ByteStream) : Type 0 where
  pub valid : IsValid s'
  pub same : Fifo.step (fifo s) o ≡ (a, fifo s')

contents_write :
    (s : ByteStream) (d : List ℕ)
    → contents (append s.stream_buffer (BufferList.of_string d)) ≡ contents s.stream_buffer ++ d
contents_write s d =
    contents-append s.stream_buffer (BufferList.of_string d)
    ∙ ap (◌++◌ (contents s.stream_buffer)) (append-nil d)

pub write-Simulated :
    (s : ByteStream) (d : List ℕ)
    → IsValid s
    → length d < 2 ^ 64
    → Simulated s (Op.write d) (count (write d s).0) (write d s).1
unfolding write Fifo.step
write-Simulated s d v h = record {
  valid = record {
    in_memory = AllInMemory-append s.stream_buffer _ v.in_memory ((omega arith, short), tt);
    sized = omega (
      arith,
      ap length (contents_write s cut),
      length-append (contents s.stream_buffer) cut,
      v,
      length-take l d,
    );
    within = omega arith;
    small = v.small;
    counted = omega arith;
  };
  same =
      ground
        (arith, contents_write s cut, ap (λ k. take k d) room, take-min (s.capacity - s.size) d);
}
  where
    l : ℕ
    l = min (length d) (sub64 s.capacity s.size)

    cut : List ℕ
    cut = take l d

    short : length (take l d) < 2 ^ 64
    short = omega (arith, length-take l d)

    room : l ≡ min (length d) (s.capacity - s.size)
    room = omega arith

-- `pop_output` never throws on a valid stream.
pub pop_output-Simulated :
    (s : ByteStream) (n : ℕ)
    → IsValid s
    → (s' : ByteStream) × (pop_output n s ≡ some s') × Simulated s (Op.pop_output n) done s'
unfolding pop_output Fifo.step
pop_output-Simulated s n v =
    let (rest, e, c, m) =
      remove_prefix_lem (min n s.size) s.stream_buffer (omega arith) v.in_memory in
    let s' : ByteStream = record s {
      stream_buffer = rest;
      size = sub64 s.size (min n s.size);
      num_read = add64 s.num_read (min n s.size);
    } in
    (
      s',
      rw (e, pop_output),
      record {
        valid = record {
          in_memory = m;
          sized =
              omega (arith, ap length c, length-drop (min n s.size) (contents s.stream_buffer), v);
          within = omega arith;
          small = v.small;
          counted = omega arith;
        };
        same = ground (
          arith,
          c,
          v,
          ap (λ k. drop (min n k) (contents s.stream_buffer)) v.sized,
          drop-min_right n (contents s.stream_buffer),
        );
      },
    )

pub peek_output_lem :
    (s : ByteStream) (n : ℕ) → IsValid s → peek_output n s ≡ take n (contents s.stream_buffer)
unfolding peek_output
peek_output_lem s n v =
    concatenate_lem (min n s.size) s.stream_buffer
    ∙ ap (λ k. take (min n k) (contents s.stream_buffer)) v.sized
    ∙ take-min_right n (contents s.stream_buffer)

-- What is accepted of a string goes to the end of the queue.
pub write_cut :
    (s : ByteStream) (d : List ℕ)
    → IsValid s
    → let (n, s') = write d s in
      (n ≡ min (length d) (s.capacity - s.size))
      × (s'.size ≡ s.size + n)
      × (contents s'.stream_buffer ≡ contents s.stream_buffer ++ take n d)
unfolding write
write_cut s d v = (omega arith, omega arith, contents_write s _)

-- A string that fits is accepted whole, and goes to the end of the queue.
pub write_fits :
    (s : ByteStream) (d : List ℕ)
    → IsValid s
    → length d ≤ s.capacity - s.size
    → let (n, s') = write d s in
      (n ≡ length d)
      × IsValid s'
      × (s'.size ≡ s.size + length d)
      × (contents s'.stream_buffer ≡ contents s.stream_buffer ++ d)
      × (s'.num_write ≡ add64 s.num_write (length d))
      × (s'.capacity ≡ s.capacity)
unfolding write
write_fits s d v h =
    let w : n ≡ length d = omega arith in
    (
      w,
      (write-Simulated s d v (omega arith)).valid,
      omega arith,
      contents_write s (take n d)
          ∙ ap (◌++◌ (contents s.stream_buffer)) (take-all n d (omega arith)),
      omega arith,
      refl,
    )
  where
    n : ℕ
    n = min (length d) (sub64 s.capacity s.size)

-- A read takes a prefix off the queue and hands it over.
pub read_lem :
    (s s' : ByteStream) (n : ℕ) (got : List ℕ)
    → IsValid s
    → read n s ≡ some (got, s')
    → IsValid s'
      × (got ≡ take n (contents s.stream_buffer))
      × (contents s'.stream_buffer ≡ drop n (contents s.stream_buffer))
      × (s'.capacity ≡ s.capacity)
      × (s'.num_write ≡ s.num_write)
unfolding read Fifo.step
read_lem s s' n got v e =
    let (s'', e', m) = pop_output-Simulated s n v in
    let both : some (peek_output n s, s'') ≡ some (got, s') = sym (rw (e', read)) ∙ e in
    let pair = some_eq both in
    subst
      (λ (t : ByteStream).
        IsValid t
        × (got ≡ take n (contents s.stream_buffer))
        × (contents t.stream_buffer ≡ drop n (contents s.stream_buffer))
        × (t.capacity ≡ s.capacity)
        × (t.num_write ≡ s.num_write))
      (ap (λ q. q.1) pair)
      (
        m.valid,
        sym (ap (λ q. q.0) pair) ∙ peek_output_lem s n v,
        sym (ap (λ q. q.1.queue) m.same),
        sym (ap (λ q. q.1.capacity) m.same),
        sym (ap (λ q. q.1.written) m.same),
      )
