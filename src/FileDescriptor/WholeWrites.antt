-- ===== src/FileDescriptor/WholeWrites.antt =====
-- What a call of `write` for all of a string (libsponge/util/file_descriptor.cc) has sent, however
-- many system calls it takes.
use cs.Prelude.{
  ℕ, zero, suc, subst, length-drop, append_assoc, take-append-drop, take-all, ◌+◌, ◌≡◌, ◌≢◌, ap,
  ◌∙◌, true, not, ◌&&◌, List, ◌++◌, length, take, ◌==◌, if◌then◌else◌, arith, inl, inr, Bool-cases,
}
use cs.Outcome.{returned, Holds, Holds-then, Holds-weaken}
use cs.ViewList.{BufferViewList, size}
use cs.ViewList.Laws.{joined, size_lem}
use cs.FileDescriptor.{SystemCalls, FileDescriptor, write_turn, write_loop, write}
use cs.FileDescriptor.Kernel.{IsKernel, Turned, write_turn-Turned}

module _ {K : Type 0} (os : SystemCalls K) (got sent : ℕ → K → List ℕ)
    (law : IsKernel os got sent) where
  -- `write` of all of a string: every byte, in order.
  pub record WroteAll (buffer : BufferViewList) (d : FileDescriptor) (k : K)
      (r : ℕ × FileDescriptor × K) : Type 0 where
    pub same : r.1.fd ≡ d.fd
    pub gone : sent d.fd r.2 ≡ sent d.fd k ++ joined buffer
    pub others : (g : ℕ) → g ≢ d.fd → sent g r.2 ≡ sent g k
    pub unread : (g : ℕ) → got g r.2 ≡ got g k

  -- Nothing is left, so that the bytes that went are all.
  all_gone :
      (buffer : BufferViewList) (d : FileDescriptor) (k : K) (total : ℕ)
      (r : ℕ × BufferViewList × FileDescriptor × K)
      → length (joined r.1) ≡ 0
      → Turned os got sent law buffer d k r
      → WroteAll buffer d k (total, r.2, r.3)
  all_gone buffer d k total r empty t = record {
    same = t.same;
    gone =
        t.gone
        ∙ ap (◌++◌ (sent d.fd k)) (
            take-all r.0 (joined buffer)
              (omega (arith, empty, ap length t.rest, length-drop r.0 (joined buffer))));
    others = t.others;
    unread = t.unread;
  }

  -- The bytes of this turn come before those of the later ones.
  turn_before :
      (buffer : BufferViewList) (d : FileDescriptor) (k : K)
      (t : ℕ × BufferViewList × FileDescriptor × K) (r : ℕ × FileDescriptor × K)
      → Turned os got sent law buffer d k t
      → WroteAll t.1 t.2 t.3 r
      → WroteAll buffer d k r
  turn_before buffer d k (n, rest, d', k') r t w = record {
    same = w.same ∙ t.same;
    gone =
        subst (λ g. sent g r.2 ≡ sent g k' ++ joined rest) t.same w.gone
        ∙ ap (λ x. x ++ joined rest) t.gone
        ∙ append_assoc (sent d.fd k) _ _
        ∙ ap (λ x. sent d.fd k ++ (take n (joined buffer) ++ x)) t.rest
        ∙ ap (◌++◌ (sent d.fd k)) (take-append-drop n (joined buffer));
    others = λ g h. w.others g (λ e. h (e ∙ t.same)) ∙ t.others g h;
    unread = λ g. w.unread g ∙ t.unread g;
  }

  write_loop-WroteAll :
      (fuel total : ℕ) (buffer : BufferViewList) (d : FileDescriptor) (k : K)
      → Holds (WroteAll buffer d k) (write_loop os fuel true total buffer d k)
  unfolding write_loop
  write_loop-WroteAll zero total buffer d k = tt
  write_loop-WroteAll (suc fuel) total buffer d k =
      Holds-then (Turned os got sent law buffer d k) (WroteAll buffer d k)
        (write_turn os buffer d k) _ (write_turn-Turned os got sent law buffer d k)
        (next (write_loop-WroteAll fuel))
    where
      next :
          ((total : ℕ) (buffer : BufferViewList) (d : FileDescriptor) (k : K)
            → Holds (WroteAll buffer d k) (write_loop os fuel true total buffer d k))
          → (r : ℕ × BufferViewList × FileDescriptor × K) → Turned os got sent law buffer d k r
          → Holds (WroteAll buffer d k) (
              if true && not (size r.1 == 0)
              then write_loop os fuel true (total + r.0) r.1 r.2 r.3
              else returned (total + r.0, r.2, r.3))
      next later (n, rest, d', k') t = elim (Bool-cases (size rest == 0)) [
        | inl none_left ↦
            rw none_left
              (all_gone buffer d k (total + n) (n, rest, d', k') (ground (arith, size_lem rest)) t)
        | inr some_left ↦ rw some_left (
            Holds-weaken (WroteAll rest d' k') (WroteAll buffer d k)
              (write_loop os fuel true (total + n) rest d' k')
              (λ r w. turn_before buffer d k (n, rest, d', k') r t w)
              (later (total + n) rest d' k'))
      ]

  -- A call of `write` for all of a string that comes to a value has sent every byte of it, in order
  -- and once, however many system calls that took, and has moved no other bytes.
  pub write-WroteAll :
      (buffer : BufferViewList) (d : FileDescriptor) (k : K)
      → Holds (WroteAll buffer d k) (write os buffer true d k)
  unfolding write
  write-WroteAll buffer d k = write_loop-WroteAll (suc (size buffer)) 0 buffer d k
