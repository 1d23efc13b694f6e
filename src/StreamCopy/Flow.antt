-- ===== src/StreamCopy/Flow.antt =====
-- One direction of apps/bidirectional_stream_copy.cc, and of rule 3 of
-- libsponge/tcp_helpers/tcp_sponge_socket.cc: what has come in is what has gone out and what the
-- stream still holds.
use cs.Prelude.{
  ℕ, zero, suc, ◌≡◌, ◌≢◌, ◌≤◌, refl, sym, ap, subst, ◌∙◌, Bool, true, false, some, List, [], ◌∷◌,
  ◌++◌, append_assoc, append-nil, length, take, min, arith, if◌then◌else◌, take-append-drop,
  length-take,
}
use cs.Outcome.{returned, Holds, Holds-then, of_option, ◌>>=◌}
use cs.ViewList.{BufferViewList}
use cs.ViewList
use cs.ViewList.Laws.{joined}
use cs.BufferList.Laws.{contents}
use cs.ByteStream.{
  ByteStream, init, peek_output, pop_output, end_input, set_error, buffer_size, remaining_capacity,
}
use cs.ByteStream
use cs.ByteStream.Fifo
use cs.ByteStream.Valid.{IsValid, write_fits, pop_output-Simulated, peek_output_lem}
use cs.FileDescriptor.{SystemCalls, FileDescriptor, read, write}
use cs.FileDescriptor.Kernel.{IsKernel, Read, Wrote, read-Read, write-Wrote}
use cs.StreamCopy.{copy_in, copy_out, max_copy_length}

take-take : (n m : ℕ) (xs : List ℕ) → n ≤ m → take n (take m xs) ≡ take n xs
take-take zero m xs h = refl
take-take (suc n) zero xs h = absurd (omega arith)
take-take (suc n) (suc m) [] h = refl
take-take (suc n) (suc m) (x ∷ xs) h = ap (◌∷◌ x) (take-take n m xs (omega arith))

-- What has come into a stream, and what has gone out of it.
pub record Flow (came went : List ℕ) (b : ByteStream) : Type 0 where
  pub valid : IsValid b
  pub moved : came ≡ went ++ contents b.stream_buffer

pub end_input-Flow :
    (came went : List ℕ) (b : ByteStream) → Flow came went b → Flow came went (end_input b)
unfolding end_input
end_input-Flow came went b f = record {
  valid = record {
    in_memory = f.valid.in_memory;
    sized = f.valid.sized;
    within = f.valid.within;
    small = f.valid.small;
    counted = f.valid.counted;
  };
  moved = f.moved;
}

pub set_error-Flow :
    (came went : List ℕ) (b : ByteStream) → Flow came went b → Flow came went (set_error b)
unfolding set_error
set_error-Flow came went b f = record {
  valid = record {
    in_memory = f.valid.in_memory;
    sized = f.valid.sized;
    within = f.valid.within;
    small = f.valid.small;
    counted = f.valid.counted;
  };
  moved = f.moved;
}

-- Bytes that fit come in at the end.
pub write-Flow :
    (came went bytes : List ℕ) (b : ByteStream)
    → length bytes ≤ remaining_capacity b
    → Flow came went b
    → Flow (came ++ bytes) went (ByteStream.write bytes b).1
write-Flow came went bytes b h f =
    let (n, v, size, held, counted, room) = write_fits b bytes f.valid (omega (arith, f.valid)) in
    record {
      valid = v;
      moved = ap (λ x. x ++ bytes) f.moved ∙ append_assoc went _ bytes ∙ ap (◌++◌ went) (sym held);
    }

-- Bytes from the front go out, and no exception is thrown.
pub pop_output-Flow :
    (came went : List ℕ) (n : ℕ) (b : ByteStream)
    → Flow came went b
    → (b' : ByteStream) × (pop_output n b ≡ some b')
      × Flow came (went ++ take n (contents b.stream_buffer)) b'
unfolding Fifo.step
pop_output-Flow came went n b f =
    let (b', e, sim) = pop_output-Simulated b n f.valid in
    (
      b',
      e,
      record {
        valid = sim.valid;
        moved =
            f.moved
            ∙ ap (◌++◌ went) (
                sym (take-append-drop n (contents b.stream_buffer))
                ∙ ap (◌++◌ (take n (contents b.stream_buffer))) (ap (λ q. q.1.queue) sim.same))
            ∙ sym (append_assoc went _ _);
      },
    )

-- The first bytes of what a peek shows are the first bytes held.
peeked :
    (n m : ℕ) (b : ByteStream)
    → IsValid b
    → n ≤ length (joined (ViewList.of_string (peek_output m b)))
    → take n (joined (ViewList.of_string (peek_output m b))) ≡ take n (contents b.stream_buffer)
peeked n m b v h =
    let shown : joined (ViewList.of_string (peek_output m b)) ≡ take m (contents b.stream_buffer) =
      append-nil _ ∙ peek_output_lem b m v in
    ap (take n) shown
    ∙ take-take n m (contents b.stream_buffer)
        (omega (arith, ap length shown, length-take m (contents b.stream_buffer), h))

module _ {K : Type 0} (os : SystemCalls K) (got sent : ℕ → K → List ℕ) (law : IsKernel os got sent)
    (went came : List ℕ) where
  -- After `copy_in`, with what has gone out so far.
  pub record CopiedIn (d : FileDescriptor) (k : K) (r : FileDescriptor × ByteStream × K)
      : Type 0 where
    pub same : r.0.fd ≡ d.fd
    pub flow : Flow (got d.fd r.2) went r.1
    pub others : (g : ℕ) → g ≢ d.fd → got g r.2 ≡ got g k
    pub unsent : (g : ℕ) → sent g r.2 ≡ sent g k

  -- After `copy_out`, with what has come in so far.
  pub record CopiedOut (d : FileDescriptor) (k : K) (r : FileDescriptor × ByteStream × K)
      : Type 0 where
    pub same : r.0.fd ≡ d.fd
    pub flow : Flow came (sent d.fd r.2) r.1
    pub others : (g : ℕ) → g ≢ d.fd → sent g r.2 ≡ sent g k
    pub unread : (g : ℕ) → got g r.2 ≡ got g k

  ended_if :
      (e : Bool) (c : List ℕ) (b : ByteStream)
      → Flow c went b
      → Flow c went (if e then end_input b else b)
  ended_if true c b f = end_input-Flow c went b f
  ended_if false c b f = f

  pub copy_in-CopiedIn :
      (d : FileDescriptor) (b : ByteStream) (k : K)
      → Flow (got d.fd k) went b
      → Holds (CopiedIn d k) (copy_in os d b k)
  unfolding copy_in
  copy_in-CopiedIn d b k f =
      Holds-then (Read os got sent law (remaining_capacity b) d k) (CopiedIn d k)
        (read os (remaining_capacity b) d k) _
        (read-Read os got sent law (remaining_capacity b) d k)
        (λ (bytes, d', k') r. record {
          same = r.same;
          flow = ended_if d'.eof (got d.fd k') (ByteStream.write bytes b).1 (
              subst (λ c. Flow c went (ByteStream.write bytes b).1) (sym r.taken)
                (write-Flow (got d.fd k) went bytes b r.short f));
          others = r.others;
          unsent = r.unsent;
        })

  pub copy_out-CopiedOut :
      (d : FileDescriptor) (b : ByteStream) (k : K)
      → Flow came (sent d.fd k) b
      → Holds (CopiedOut d k) (copy_out os d b k)
  unfolding copy_out
  copy_out-CopiedOut d b k f =
      Holds-then (Wrote os got sent law shown d k) (CopiedOut d k) (write os shown false d k) _
        (write-Wrote os got sent law shown d k) popped
    where
      m : ℕ
      m = min max_copy_length (buffer_size b)

      shown : BufferViewList
      shown = ViewList.of_string (peek_output m b)

      popped :
          (r : ℕ × FileDescriptor × K)
          → Wrote os got sent law shown d k r
          → Holds (CopiedOut d k) (of_option (pop_output r.0 b) >>= (λ b'. returned (r.1, b', r.2)))
      popped (n, d', k') w =
          let (b', e, flow) = pop_output-Flow came (sent d.fd k) n b f in
          rw e (record {
            same = w.same;
            flow =
                subst (λ x. Flow came x b')
                  (ap (◌++◌ (sent d.fd k)) (sym (peeked n m b f.valid w.within)) ∙ sym w.gone) flow;
            others = w.others;
            unread = w.unread;
          })
