-- ===== src/FileDescriptor/Working.antt =====
-- A kernel whose calls do not fail, and what `read`, `write`, `close` and `shutdown` of a descriptor
-- (libsponge/util/file_descriptor.cc) come to then.
use cs.Prelude.{
  ℕ, ◌≡◌, ◌≤◌, ◌<◌, ◌⊎◌, refl, sym, ap, some_eq, true, false, not, ◌&&◌, ◌||◌, Option, none, some,
  List, length, min, ltb, ◌==◌, add32, arith, subst,
}
use cs.Outcome.{Returns, Returns-then}
use cs.ViewList.{BufferViewList, size}
use cs.ViewList.Laws.{joined, size_lem, remove_prefix_lem}
use cs.FileDescriptor.{
  SystemCalls, FileDescriptor, How, read, after_read, write, write_loop, write_turn, after_writev,
  close, shutdown, buffer_size,
}

pub record IsWorking {K : Type 0} (os : SystemCalls K) : Type 0 where
  pub reads :
      (f n : ℕ) (k : K) → (bytes : List ℕ) × ((os.read f n k).0 ≡ some bytes) × (length bytes ≤ n)
  pub writes :
      (f : ℕ) (b : BufferViewList) (k : K)
      → (n : ℕ) × ((os.writev f b k).0 ≡ some n)
        × (n ≤ length (joined b))
        × ((length (joined b) ≡ 0) ⊎ (0 < n))
  pub closes : (f : ℕ) (k : K) → (os.close f k).0 ≡ true
  pub shuts : (f : ℕ) (how : How) (k : K) → (os.shutdown f how k).0 ≡ true

module _ {K : Type 0} (os : SystemCalls K) (works : IsWorking os) where
  after_read_works :
      (limit : ℕ) (d : FileDescriptor) (bytes : List ℕ) (a : Option (List ℕ) × K)
      → a.0 ≡ some bytes
      → length bytes ≤ min buffer_size limit
      → Returns (λ r. r.1.read_count ≡ add32 d.read_count 1) (after_read os limit d a)
  after_read_works limit d bytes (none, k) e h = absurd (subst NotNone (sym e) tt)
    where
      NotNone : Option (List ℕ) → Type 0
      NotNone none = ⊥
      NotNone (some x) = Unit {0}
  after_read_works limit d bytes (some got, k) e h =
      let same : length got ≡ length bytes = ap length (some_eq e) in
      let fits : ltb (min buffer_size limit) (length got) ≡ false = ground (arith, same) in
      rw fits refl

  pub read-Returns :
      (limit : ℕ) (d : FileDescriptor) (k : K)
      → Returns (λ r. r.1.read_count ≡ add32 d.read_count 1) (read os limit d k)
  unfolding read
  read-Returns limit d k =
      let (bytes, e, h) = works.reads d.fd (min buffer_size limit) k in
      after_read_works limit d bytes (os.read d.fd (min buffer_size limit) k) e h

  after_writev_works :
      (buffer : BufferViewList) (d : FileDescriptor) (n : ℕ) (a : Option ℕ × K)
      → a.0 ≡ some n
      → n ≤ length (joined buffer)
      → (length (joined buffer) ≡ 0) ⊎ (0 < n)
      → Returns (λ r. r.2.write_count ≡ add32 d.write_count 1) (after_writev os buffer d a)
  after_writev_works buffer d n (none, k) e h p = absurd (subst NotNone (sym e) tt)
    where
      NotNone : Option ℕ → Type 0
      NotNone none = ⊥
      NotNone (some x) = Unit {0}
  after_writev_works buffer d n (some m, k) e h p =
      let same : m ≡ n = some_eq e in
      let good : ((m == 0) && not (size buffer == 0) || ltb (size buffer) m) ≡ false =
        ground (arith, same, size_lem buffer) in
      let (rest, f, c) = remove_prefix_lem m buffer (omega (arith, same)) in rw (good, f) refl

  pub write-Returns :
      (buffer : BufferViewList) (d : FileDescriptor) (k : K)
      → Returns (λ r. r.1.write_count ≡ add32 d.write_count 1) (write os buffer false d k)
  unfolding write write_loop write_turn
  write-Returns buffer d k =
      let (n, e, h, p) = works.writes d.fd buffer k in
      Returns-then _ (λ r. r.1.write_count ≡ add32 d.write_count 1)
        (after_writev os buffer d (os.writev d.fd buffer k)) _
        (after_writev_works buffer d n (os.writev d.fd buffer k) e h p) (λ r w. w)

  pub close-Returns :
      (d : FileDescriptor) (k : K) → Returns (λ r. r.0.write_count ≡ d.write_count) (close os d k)
  unfolding close
  close-Returns d k = rw (works.closes d.fd k) refl

  pub shut_wr-Returns :
      (d : FileDescriptor) (k : K)
      → Returns (λ r. r.0.write_count ≡ add32 d.write_count 1) (shutdown os How.shut_wr d k)
  unfolding shutdown
  shut_wr-Returns d k = rw (works.shuts d.fd How.shut_wr k) refl
