-- ===== src/Benchmark/Writing.antt =====
-- The writing loop of apps/tcp_benchmark.cc ends.
use cs.Prelude.{
  ℕ, zero, suc, ◌≤◌, ◌≡◌, inl, inr, ap, refl, Bool, true, false, Bool-cases, arith, min, ltb, ◌==◌,
  ◌&&◌, length, length-drop,
}
use cs.Outcome.{returned, ◌>>=◌, Holds, Holds-then, Holds-of_option}
use cs.Buffer.{size, str}
use cs.BufferList.Laws.{InMemory, buffer_remove_prefix}
use cs.Connection.{TcpConnection}
use cs.SpongeSocket.{remaining_outbound_capacity}
use cs.Benchmark.{Bench, want, more_to_write, after_write, write_once, write_input_loop}

-- So many bytes are left at most, of a string that is in memory.
abbrev pub Left : ℕ → Bench → Type 0
Left n s = InMemory s.bytes_to_send × (size s.bytes_to_send ≤ n)

wanted : (c z w : ℕ) → (min c z == w) ≡ true → (ltb 0 z && ltb 0 c) ≡ true → (1 ≤ w) × (w ≤ z)
wanted c z w e more = (ground arith, ground arith)

after_write-Left :
    (n : ℕ) (s : Bench) (r : ℕ × TcpConnection)
    → Left (suc n) s
    → more_to_write s ≡ true
    → Holds (Left n) (after_write r s)
after_write-Left n s (written, x) (m, h) more = elim (Bool-cases (want s == written)) [
  | inl e ↦
      (let (some_written, fits) =
          wanted (remaining_outbound_capacity s.x) (size s.bytes_to_send) written e more in
        let (left, e', d, m') = buffer_remove_prefix written s.bytes_to_send fits m in
        rw (e, e')
          (
            m',
            omega (arith, h, some_written, ap length d, length-drop written (str s.bytes_to_send)),
          ))
  | inr e ↦ rw e tt
]

write_once-Left :
    (n : ℕ) (s : Bench) → Left (suc n) s → more_to_write s ≡ true → Holds (Left n) (write_once s)
write_once-Left n s l more =
    Holds-of_option (Left n) _ (λ r. after_write r s) (λ r. after_write-Left n s r l more)

-- Where at most `n` bytes are left, of a string that is in memory: after at most `n` turns of the
-- loop, if they return, its condition is false, so that nothing is left or nothing fits.
pub write_input_loop_ends :
    (n : ℕ) (s : Bench) → Left n s → Holds (λ t. more_to_write t ≡ false) (write_input_loop n s)
unfolding write_input_loop
write_input_loop_ends zero s (m, h) = ground arith
write_input_loop_ends (suc n) s l = go (more_to_write s) refl (λ t l'. write_input_loop_ends n t l')
  where
    go :
        (b : Bool)
        → more_to_write s ≡ b
        → ((t : Bench) → Left n t → Holds (λ t. more_to_write t ≡ false) (write_input_loop n t))
        → Holds
            (λ t. more_to_write t ≡ false)
            (elim b [ true ↦ write_once s >>= write_input_loop n | false ↦ returned s ])
    go true e rest =
        Holds-then (Left n) _ (write_once s) (write_input_loop n) (write_once-Left n s l e) rest
    go false e rest = e
