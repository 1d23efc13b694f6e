-- ===== src/FileDescriptor.antt =====
-- libsponge/util/file_descriptor.hh and file_descriptor.cc, with `shutdown` of socket.cc. A
-- descriptor is what its wrapper keeps, which every duplicate shares. The kernel is a parameter: its
-- state and its answers to the system calls, `none` an answer for which `SystemCall` throws.
pub mod Writing
pub mod Kernel
pub mod WholeWrites
pub mod Working
pub mod Pipes
mod Tests
use cs.Prelude.{
  ℕ, zero, suc, ◌+◌, ◌*◌, Bool, true, false, not, ◌&&◌, ◌||◌, Option, none, some, List, [], ltb,
  ◌==◌, if◌then◌else◌, length, min, add32,
}
use cs.Outcome.{Outcome, returned, thrown, undefined, ◌>>=◌, of_option}
use cs.ViewList.{BufferViewList, remove_prefix}
use cs.ViewList

-- Which side of a socket `shutdown` closes.
pub data How : Type 0 where
  shut_rd : How
  shut_wr : How
  shut_rdwr : How

pub record SystemCalls (K : Type 0) : Type 0 where
  pub read : ℕ → ℕ → K → Option (List ℕ) × K
  pub writev : ℕ → BufferViewList → K → Option ℕ × K
  pub close : ℕ → K → Bool × K
  pub shutdown : ℕ → How → K → Bool × K

pub record FileDescriptor : Type 0 where
  pub fd : ℕ
  pub eof : Bool
  pub closed : Bool
  pub read_count : ℕ
  pub write_count : ℕ

abbrev pub new : ℕ → FileDescriptor
new fd = record { fd = fd; eof = false; closed = false; read_count = 0; write_count = 0 }

abbrev pub register_read : FileDescriptor → FileDescriptor
register_read d = record d { read_count = add32 d.read_count 1 }

abbrev pub register_write : FileDescriptor → FileDescriptor
register_write d = record d { write_count = add32 d.write_count 1 }

-- The most bytes of one read.
abbrev pub buffer_size : ℕ
buffer_size = 1024 * 1024

module _ {K : Type 0} (os : SystemCalls K) where
  -- From the answer of the kernel on.
  abbrev pub after_read :
      ℕ → FileDescriptor → Option (List ℕ) × K → Outcome (List ℕ × FileDescriptor × K)
  after_read limit d (none, k) = thrown
  after_read limit d (some bytes, k) =
      let d' : FileDescriptor = record d { eof = d.eof || ltb 0 limit && (length bytes == 0) } in
      if ltb (min buffer_size limit) (length bytes)
      then thrown
      else returned (bytes, register_read d', k)

  unfoldable pub read : ℕ → FileDescriptor → K → Outcome (List ℕ × FileDescriptor × K)
  read limit d k = after_read limit d (os.read d.fd (min buffer_size limit) k)

  -- One turn of the loop from the answer of the kernel on: how many bytes went, and what is left.
  abbrev pub after_writev :
      BufferViewList
      → FileDescriptor
      → Option ℕ × K
      → Outcome (ℕ × BufferViewList × FileDescriptor × K)
  after_writev buffer d (none, k) = thrown
  after_writev buffer d (some n, k) =
      if (n == 0) && not (ViewList.size buffer == 0) || ltb (ViewList.size buffer) n
      then thrown
      else of_option (remove_prefix n buffer) >>= (λ rest. returned (n, rest, register_write d, k))

  unfoldable pub write_turn :
      BufferViewList → FileDescriptor → K → Outcome (ℕ × BufferViewList × FileDescriptor × K)
  write_turn buffer d k = after_writev buffer d (os.writev d.fd buffer k)

  -- The loop on fuel, `undefined` where it runs out.
  unfoldable pub write_loop :
      ℕ → Bool → ℕ → BufferViewList → FileDescriptor → K → Outcome (ℕ × FileDescriptor × K)
  unfolding write_turn
  write_loop zero write_all total buffer d k = undefined
  write_loop (suc fuel) write_all total buffer d k = write_turn buffer d k >>= (λ (n, rest, d', k').
      if write_all && not (ViewList.size rest == 0)
      then write_loop fuel write_all (total + n) rest d' k'
      else returned (total + n, d', k'))

  -- Every turn but the last takes a byte.
  unfoldable pub write :
      BufferViewList → Bool → FileDescriptor → K → Outcome (ℕ × FileDescriptor × K)
  unfolding write_loop
  write buffer write_all d k = write_loop (suc (ViewList.size buffer)) write_all 0 buffer d k

  unfoldable pub close : FileDescriptor → K → Outcome (FileDescriptor × K)
  close d k =
      let (ok, k') = os.close d.fd k in
      if ok then returned (record d { eof = true; closed = true }, k') else thrown

  -- The counts that `shutdown` of a socket changes.
  abbrev pub registered : How → FileDescriptor → FileDescriptor
  registered shut_rd d = register_read d
  registered shut_wr d = register_write d
  registered shut_rdwr d = register_write (register_read d)

  unfoldable pub shutdown : How → FileDescriptor → K → Outcome (FileDescriptor × K)
  shutdown how d k =
      let (ok, k') = os.shutdown d.fd how k in
      if ok then returned (registered how d, k') else thrown
