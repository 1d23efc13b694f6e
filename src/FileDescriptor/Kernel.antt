-- ===== src/FileDescriptor/Kernel.antt =====
-- What the code relies on of a kernel, read(2), writev(2), close(2) and shutdown(2): for each
-- descriptor the bytes that have been read from it and those that have been written to it, in order.
-- It gives what `read` and one turn of `write` of libsponge/util/file_descriptor.cc do to these.
use cs.Prelude.{
  ℕ, ◌+◌, ◌≡◌, ◌≢◌, refl, false, not, ◌&&◌, ◌||◌, Option, none, some, List, [], ◌++◌, length, take,
  drop, min, ltb, ◌≤◌, ◌==◌, arith, inl, inr, Bool-cases,
}
use cs.Outcome.{Holds, Holds-then}
use cs.ViewList.{BufferViewList, size}
use cs.ViewList.Laws.{joined, size_lem, remove_prefix_lem}
use cs.FileDescriptor.{
  SystemCalls, FileDescriptor, read, after_read, after_writev, write_turn, write_loop, write,
  buffer_size, How, close, shutdown, registered,
}

-- The bytes of an answer, none for an error.
abbrev pub bytes_in : Option (List ℕ) → List ℕ
bytes_in none = []
bytes_in (some bytes) = bytes

abbrev pub count_in : Option ℕ → ℕ
count_in none = 0
count_in (some n) = n

pub record IsKernel {K : Type 0} (os : SystemCalls K) (got sent : ℕ → K → List ℕ) : Type 0 where
  pub got-read : (f n : ℕ) (k : K) → got f (os.read f n k).1 ≡ got f k ++ bytes_in (os.read f n k).0
  pub got-read_other : (f g n : ℕ) (k : K) → g ≢ f → got g (os.read f n k).1 ≡ got g k
  pub sent-read : (f g n : ℕ) (k : K) → sent g (os.read f n k).1 ≡ sent g k
  pub sent-writev :
      (f : ℕ) (b : BufferViewList) (k : K)
      → sent f (os.writev f b k).1 ≡ sent f k ++ take (count_in (os.writev f b k).0) (joined b)
  pub sent-writev_other :
      (f g : ℕ) (b : BufferViewList) (k : K) → g ≢ f → sent g (os.writev f b k).1 ≡ sent g k
  pub got-writev : (f g : ℕ) (b : BufferViewList) (k : K) → got g (os.writev f b k).1 ≡ got g k
  pub got-close : (f g : ℕ) (k : K) → got g (os.close f k).1 ≡ got g k
  pub sent-close : (f g : ℕ) (k : K) → sent g (os.close f k).1 ≡ sent g k
  pub got-shutdown : (f g : ℕ) (how : How) (k : K) → got g (os.shutdown f how k).1 ≡ got g k
  pub sent-shutdown : (f g : ℕ) (how : How) (k : K) → sent g (os.shutdown f how k).1 ≡ sent g k

-- What a call leaves of the descriptor that it is on: its number.
abbrev pub SameFd : FileDescriptor → FileDescriptor → Type 0
SameFd d d' = d'.fd ≡ d.fd

module _ {K : Type 0} (os : SystemCalls K) (got sent : ℕ → K → List ℕ)
    (law : IsKernel os got sent) where
  -- `read` on a descriptor: no more bytes than asked for, and they are the next ones.
  pub record Read (limit : ℕ) (d : FileDescriptor) (k : K) (r : List ℕ × FileDescriptor × K)
      : Type 0 where
    pub short : length r.0 ≤ limit
    pub same : r.1.fd ≡ d.fd
    pub taken : got d.fd r.2 ≡ got d.fd k ++ r.0
    pub others : (g : ℕ) → g ≢ d.fd → got g r.2 ≡ got g k
    pub unsent : (g : ℕ) → sent g r.2 ≡ sent g k

  after_read-Read :
      (limit : ℕ) (d : FileDescriptor) (k : K) (a : Option (List ℕ) × K)
      → got d.fd a.1 ≡ got d.fd k ++ bytes_in a.0
      → ((g : ℕ) → g ≢ d.fd → got g a.1 ≡ got g k)
      → ((g : ℕ) → sent g a.1 ≡ sent g k)
      → Holds (Read limit d k) (after_read os limit d a)
  after_read-Read limit d k (none, k') t o u = tt
  after_read-Read limit d k (some bytes, k') t o u =
      elim (Bool-cases (ltb (min buffer_size limit) (length bytes))) [
        | inl long ↦ rw long tt
        | inr fits ↦
            rw fits
              (record { short = ground arith; same = refl; taken = t; others = o; unsent = u })
      ]

  pub read-Read :
      (limit : ℕ) (d : FileDescriptor) (k : K) → Holds (Read limit d k) (read os limit d k)
  unfolding read
  read-Read limit d k =
      after_read-Read limit d k (os.read d.fd (min buffer_size limit) k)
        (law.got-read d.fd (min buffer_size limit) k)
        (λ g. law.got-read_other d.fd g (min buffer_size limit) k)
        (λ g. law.sent-read d.fd g (min buffer_size limit) k)

  -- `write` of a string without `write_all`: the first bytes, as many as it reports.
  pub record Wrote (buffer : BufferViewList) (d : FileDescriptor) (k : K)
      (r : ℕ × FileDescriptor × K) : Type 0 where
    pub within : r.0 ≤ length (joined buffer)
    pub same : r.1.fd ≡ d.fd
    pub gone : sent d.fd r.2 ≡ sent d.fd k ++ take r.0 (joined buffer)
    pub others : (g : ℕ) → g ≢ d.fd → sent g r.2 ≡ sent g k
    pub unread : (g : ℕ) → got g r.2 ≡ got g k

  -- One turn of `write`: the first bytes went, and the others are left.
  pub record Turned (buffer : BufferViewList) (d : FileDescriptor) (k : K)
      (r : ℕ × BufferViewList × FileDescriptor × K) : Type 0 where
    pub within : r.0 ≤ length (joined buffer)
    pub rest : joined r.1 ≡ drop r.0 (joined buffer)
    pub same : r.2.fd ≡ d.fd
    pub gone : sent d.fd r.3 ≡ sent d.fd k ++ take r.0 (joined buffer)
    pub others : (g : ℕ) → g ≢ d.fd → sent g r.3 ≡ sent g k
    pub unread : (g : ℕ) → got g r.3 ≡ got g k

  after_writev-Turned :
      (buffer : BufferViewList) (d : FileDescriptor) (k : K) (a : Option ℕ × K)
      → sent d.fd a.1 ≡ sent d.fd k ++ take (count_in a.0) (joined buffer)
      → ((g : ℕ) → g ≢ d.fd → sent g a.1 ≡ sent g k)
      → ((g : ℕ) → got g a.1 ≡ got g k)
      → Holds (Turned buffer d k) (after_writev os buffer d a)
  after_writev-Turned buffer d k (none, k') t o u = tt
  after_writev-Turned buffer d k (some n, k') t o u =
      elim (Bool-cases ((n == 0) && not (size buffer == 0) || ltb (size buffer) n)) [
        | inl bad ↦ rw bad tt
        | inr good ↦
            let (rest, e, c) = remove_prefix_lem n buffer (ground (arith, size_lem buffer, good)) in
            rw (good, e)
              (record {
                within = ground (arith, size_lem buffer, good);
                rest = c;
                same = refl;
                gone = t;
                others = o;
                unread = u;
              })
      ]

  pub write_turn-Turned :
      (buffer : BufferViewList) (d : FileDescriptor) (k : K)
      → Holds (Turned buffer d k) (write_turn os buffer d k)
  unfolding write_turn
  write_turn-Turned buffer d k =
      after_writev-Turned buffer d k (os.writev d.fd buffer k) (law.sent-writev d.fd buffer k)
        (λ g. law.sent-writev_other d.fd g buffer k) (λ g. law.got-writev d.fd g buffer k)

  pub write-Wrote :
      (buffer : BufferViewList) (d : FileDescriptor) (k : K)
      → Holds (Wrote buffer d k) (write os buffer false d k)
  unfolding write write_loop
  write-Wrote buffer d k =
      Holds-then (Turned buffer d k) (Wrote buffer d k) (write_turn os buffer d k) _
        (write_turn-Turned buffer d k)
        (λ (n, rest, d', k') t.
          let same_count : 0 + n ≡ n = omega arith in
          record {
            within = omega (arith, t.within);
            same = t.same;
            gone = rw same_count t.gone;
            others = t.others;
            unread = t.unread;
          })

  -- A call that moves no bytes.
  pub record Quiet (d : FileDescriptor) (k : K) (r : FileDescriptor × K) : Type 0 where
    pub same : r.0.fd ≡ d.fd
    pub unread : (g : ℕ) → got g r.1 ≡ got g k
    pub unsent : (g : ℕ) → sent g r.1 ≡ sent g k

  pub close-Quiet : (d : FileDescriptor) (k : K) → Holds (Quiet d k) (close os d k)
  unfolding close
  close-Quiet d k = elim (Bool-cases (os.close d.fd k).0) [
    | inl ok ↦ rw ok (record {
      same = refl;
      unread = λ g. law.got-close d.fd g k;
      unsent = λ g. law.sent-close d.fd g k;
    })
    | inr failed ↦ rw failed tt
  ]

  registered_same : (how : How) (d : FileDescriptor) → (registered os how d).fd ≡ d.fd
  registered_same How.shut_rd d = refl
  registered_same How.shut_wr d = refl
  registered_same How.shut_rdwr d = refl

  pub shutdown-Quiet :
      (how : How) (d : FileDescriptor) (k : K) → Holds (Quiet d k) (shutdown os how d k)
  unfolding shutdown
  shutdown-Quiet how d k = elim (Bool-cases (os.shutdown d.fd how k).0) [
    | inl ok ↦ rw ok (record {
      same = registered_same how d;
      unread = λ g. law.got-shutdown d.fd g how k;
      unsent = λ g. law.sent-shutdown d.fd g how k;
    })
    | inr failed ↦ rw failed tt
  ]
