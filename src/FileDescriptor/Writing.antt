-- ===== src/FileDescriptor/Writing.antt =====
-- What `read` and `write` of a descriptor (libsponge/util/file_descriptor.cc) come to for any
-- kernel, whatever it answers.
use cs.Prelude.{
  ℕ, zero, suc, ◌+◌, ◌≤◌, ◌<◌, ◌≡◌, refl, ap, subst, ◌-◌, ◌∙◌, ◌⊎◌, Bool, true, false, not, ◌&&◌,
  ◌||◌, Option, none, some, length, drop, ltb, ◌==◌, if◌then◌else◌, arith, inl, inr, Bool-cases,
  length-drop,
}
use cs.Outcome.{returned, Ends, Ends-then, Ends-weaken}
use cs.ViewList.{BufferViewList, size}
use cs.ViewList.Laws.{joined, size_lem, remove_prefix_lem}
use cs.FileDescriptor.{
  SystemCalls, FileDescriptor, after_writev, write_turn, write_loop, write, register_write,
}

-- How much of a string of this length a call of `write` may report.
abbrev pub Amount : Bool → ℕ → ℕ → Type 0
Amount true n length = n ≡ length
Amount false n length = n ≤ length

-- What one turn leaves: the bytes that went, and the rest.
pub record Turn {K : Type 0} (buffer : BufferViewList) (d : FileDescriptor)
    (r : ℕ × BufferViewList × FileDescriptor × K) : Type 0 where
  pub within : r.0 ≤ length (joined buffer)
  pub progress : (length (joined buffer) ≡ 0) ⊎ (0 < r.0)
  pub rest : joined r.1 ≡ drop r.0 (joined buffer)
  pub counted : r.2 ≡ register_write d

-- What `write` leaves of a string: the amount that it reports, and the flags as they were.
pub record Written {K : Type 0} (write_all : Bool) (total : ℕ) (d : FileDescriptor)
    (r : ℕ × FileDescriptor × K) : Type 0 where
  pub amount : Amount write_all r.0 total
  pub same_fd : r.1.fd ≡ d.fd
  pub same_eof : r.1.eof ≡ d.eof
  pub same_closed : r.1.closed ≡ d.closed

left :
    {K : Type 0} {buffer : BufferViewList} {d : FileDescriptor}
    {r : ℕ × BufferViewList × FileDescriptor × K}
    → Turn buffer d r
    → length (joined r.1) ≡ length (joined buffer) - r.0
left {buffer} {r} t = ap length t.rest ∙ length-drop r.0 (joined buffer)

-- The loop's end: nothing is left where all had to go.
last_turn :
    (write_all : Bool) (total n : ℕ) (buffer rest : BufferViewList)
    → write_all && not (size rest == 0) ≡ false
    → n ≤ length (joined buffer)
    → length (joined rest) ≡ length (joined buffer) - n
    → Amount write_all (total + n) (total + length (joined buffer))
last_turn true total n buffer rest e h l = ground (arith, size_lem rest)
last_turn false total n buffer rest e h l = omega arith

module _ {K : Type 0} where
  -- What the later turns report counts the bytes of this one.
  earlier :
      (write_all : Bool) (total total' : ℕ) (d d' : FileDescriptor) (r : ℕ × FileDescriptor × K)
      → total' ≡ total
      → d' ≡ register_write d
      → Written write_all total' d' r
      → Written write_all total d r
  earlier write_all total total' d d' r e c w = record {
    amount = subst (Amount write_all r.0) e w.amount;
    same_fd = w.same_fd ∙ ap (λ x. x.fd) c;
    same_eof = w.same_eof ∙ ap (λ x. x.eof) c;
    same_closed = w.same_closed ∙ ap (λ x. x.closed) c;
  }

  whole :
      (write_all : Bool) (total total' : ℕ) (d : FileDescriptor) (r : ℕ × FileDescriptor × K)
      → total' ≡ total
      → Written write_all total' d r
      → Written write_all total d r
  whole write_all total total' d r e w = subst (λ t. Written write_all t d r) e w

module _ {K : Type 0} (os : SystemCalls K) where
  after_writev-Turn :
      (buffer : BufferViewList) (d : FileDescriptor) (a : Option ℕ × K)
      → Ends (Turn buffer d) (after_writev os buffer d a)
  after_writev-Turn buffer d (none, k) = tt
  after_writev-Turn buffer d (some n, k) =
      elim (Bool-cases ((n == 0) && not (size buffer == 0) || ltb (size buffer) n)) [
        | inl bad ↦ rw bad tt
        | inr good ↦
            let (rest, e, c) = remove_prefix_lem n buffer (ground (arith, size_lem buffer, good)) in
            rw (good, e)
              (record {
                within = ground (arith, size_lem buffer, good);
                progress = ground (arith, size_lem buffer, good);
                rest = c;
                counted = refl;
              })
      ]

  pub write_turn-Turn :
      (buffer : BufferViewList) (d : FileDescriptor) (k : K)
      → Ends (Turn buffer d) (write_turn os buffer d k)
  unfolding write_turn
  write_turn-Turn buffer d k = after_writev-Turn buffer d (os.writev d.fd buffer k)

  write_loop-Written :
      (fuel : ℕ) (write_all : Bool) (total : ℕ) (buffer : BufferViewList) (d : FileDescriptor)
      (k : K)
      → length (joined buffer) < fuel
      → Ends
          (Written write_all (total + length (joined buffer)) d)
          (write_loop os fuel write_all total buffer d k)
  unfolding write_loop
  write_loop-Written zero write_all total buffer d k h = absurd (omega arith)
  write_loop-Written (suc fuel) write_all total buffer d k h =
      Ends-then (Turn buffer d) _ (write_turn os buffer d k) _ (write_turn-Turn buffer d k)
        (next (write_loop-Written fuel write_all))
    where
      next :
          ((total : ℕ) (buffer : BufferViewList) (d : FileDescriptor) (k : K)
            → length (joined buffer) < fuel
            → Ends
                (Written write_all (total + length (joined buffer)) d)
                (write_loop os fuel write_all total buffer d k))
          → (r : ℕ × BufferViewList × FileDescriptor × K) → Turn buffer d r
          → Ends (Written write_all (total + length (joined buffer)) d) (
              let (n, rest, d', k') = r in
              if write_all && not (size rest == 0)
              then write_loop os fuel write_all (total + n) rest d' k'
              else returned (total + n, d', k'))
      next later (n, rest, d', k') t = elim (Bool-cases (write_all && not (size rest == 0))) [
        | inl more ↦ rw more (
            Ends-weaken _ _ (write_loop os fuel write_all (total + n) rest d' k')
              (λ r. earlier write_all _ _ d d' r (omega (arith, left t, t.within)) t.counted)
              (later (total + n) rest d' k'
                (ground (arith, left t, t.within, t.progress, size_lem rest))))
        | inr last ↦ rw last (record {
          amount = last_turn write_all total n buffer rest last t.within (left t);
          same_fd = ap (λ x. x.fd) t.counted;
          same_eof = ap (λ x. x.eof) t.counted;
          same_closed = ap (λ x. x.closed) t.counted;
        })
      ]

  -- For any kernel, `write` comes to a value or an exception, the loop never runs on: it reports the
  -- length of the whole string where all of it is to be written and at most that length where not,
  -- and the descriptor's number and flags stay as they were.
  pub write-Written :
      (buffer : BufferViewList) (write_all : Bool) (d : FileDescriptor) (k : K)
      → Ends (Written write_all (length (joined buffer)) d) (write os buffer write_all d k)
  unfolding write
  write-Written buffer write_all d k =
      Ends-weaken _ _ (write_loop os (suc (size buffer)) write_all 0 buffer d k)
        (λ r. whole write_all _ _ d r (omega arith))
        (write_loop-Written (suc (size buffer)) write_all 0 buffer d k
          (omega (arith, size_lem buffer)))
