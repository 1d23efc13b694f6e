-- ===== src/StreamCopy/Serving.antt =====
-- The callbacks of apps/bidirectional_stream_copy.cc come to a value where the kernel's calls do not
-- fail, and never set off the event loop's check for a busy wait.
use cs.Prelude.{
  All, ℕ, ◌≡◌, ◌≢◌, ◌⊎◌, inl, inr, ap, ◌∙◌, false, List, min, ◌==◌, add32, arith, Bool-cases,
}
use cs.Outcome.{Returns, Returns-then, Returns-Holds}
use cs.ViewList
use cs.ByteStream.{ByteStream, peek_output, eof, buffer_size, remaining_capacity}
use cs.FileDescriptor.{SystemCalls, FileDescriptor, How, read, write, shutdown, close}
use cs.FileDescriptor.Kernel.{IsKernel}
use cs.FileDescriptor.Working.{
  IsWorking, read-Returns, write-Returns, close-Returns, shut_wr-Returns,
}
use cs.EventLoop.{Rule, serve, service_count}
use cs.StreamCopy.{
  Copy, copy_in, copy_out, read_input, write_socket, read_socket, write_output, rules, rule_1,
  rule_2, rule_3, rule_4, max_copy_length,
}
use cs.StreamCopy.Flow.{Flow, pop_output-Flow}
use cs.StreamCopy.Copying.{Moved, rules-Keeps}

-- A count after a call that has serviced the descriptor once or twice.
abbrev pub Serviced : ℕ → ℕ → Type 0
Serviced n m = (m ≡ add32 n 1) ⊎ (m ≡ add32 (add32 n 1) 1)

not_idle : (n m : ℕ) → Serviced n m → (n == m) ≡ false
not_idle n m (inl e) = ground arith
not_idle n m (inr e) = ground arith

-- Where a rule's callback services the descriptor, its turn returns.
served :
    {S : Type 0} (I : S → Type 0) (rule : Rule S) (s : S)
    → Returns
        (λ s'. Serviced (service_count rule s) (service_count rule s') × I s')
        (rule.callback s)
    → Returns I (serve rule s)
unfolding serve
served I rule s h = Returns-then _ I (rule.callback s) _ h (λ s' (e, i).
    let busy : (service_count rule s == service_count rule s') ≡ false = not_idle _ _ e in
    rw busy i)

module _ {K : Type 0} (os : SystemCalls K) (works : IsWorking os) where
  copy_in_works :
      (d : FileDescriptor) (b : ByteStream) (k : K)
      → Returns (λ r. r.0.read_count ≡ add32 d.read_count 1) (copy_in os d b k)
  unfolding copy_in
  copy_in_works d b k =
      Returns-then _ _ (read os (remaining_capacity b) d k) _
        (read-Returns os works (remaining_capacity b) d k) (λ r e. e)

  pub copy_out_works :
      (came went : List ℕ) (d : FileDescriptor) (b : ByteStream) (k : K)
      → Flow came went b
      → Returns (λ r. r.0.write_count ≡ add32 d.write_count 1) (copy_out os d b k)
  unfolding copy_out
  copy_out_works came went d b k f =
      Returns-then _ _ (write os shown false d k) _ (write-Returns os works shown d k)
        (λ (n, d', k') e. let (b', p, g) = pop_output-Flow came went n b f in rw p e)
    where
      shown : ViewList.BufferViewList
      shown = ViewList.of_string (peek_output (min max_copy_length (buffer_size b)) b)

  read_input_works :
      (s : Copy K) → Returns (λ t. Serviced s.input.read_count t.input.read_count) (read_input os s)
  unfolding read_input
  read_input_works s =
      Returns-then _ _ (copy_in os s.input s.outbound s.kernel) _
        (copy_in_works s.input s.outbound s.kernel) (λ r e. inl e)

  read_socket_works :
      (s : Copy K)
      → Returns (λ t. Serviced s.socket.read_count t.socket.read_count) (read_socket os s)
  unfolding read_socket
  read_socket_works s =
      Returns-then _ _ (copy_in os s.socket s.inbound s.kernel) _
        (copy_in_works s.socket s.inbound s.kernel) (λ r e. inl e)

  write_socket_works :
      (came went : List ℕ) (s : Copy K)
      → Flow came went s.outbound
      → Returns (λ t. Serviced s.socket.write_count t.socket.write_count) (write_socket os s)
  unfolding write_socket
  write_socket_works came went s f =
      Returns-then _ _ (copy_out os s.socket s.outbound s.kernel) _
        (copy_out_works came went s.socket s.outbound s.kernel f)
        (λ (d, b, k) e. elim (Bool-cases (eof b)) [
          | inl over ↦ rw over (
              Returns-then _ _ (shutdown os How.shut_wr d k) _ (shut_wr-Returns os works d k)
                (λ r e'. inr (e' ∙ ap (λ n. add32 n 1) e)))
          | inr on ↦ rw on (inl e)
        ])

  write_output_works :
      (came went : List ℕ) (s : Copy K)
      → Flow came went s.inbound
      → Returns (λ t. Serviced s.output.write_count t.output.write_count) (write_output os s)
  unfolding write_output
  write_output_works came went s f =
      Returns-then _ _ (copy_out os s.output s.inbound s.kernel) _
        (copy_out_works came went s.output s.inbound s.kernel f)
        (λ (d, b, k) e. elim (Bool-cases (eof b)) [
          | inl over ↦ rw over (
              Returns-then _ _ (close os d k) _ (close-Returns os works d k) (λ r e'. inl (e' ∙ e)))
          | inr on ↦ rw on (inl e)
        ])

  module _ (got sent : ℕ → K → List ℕ) (law : IsKernel os got sent) (f : ℕ) (h0 : f ≢ 0)
      (h1 : f ≢ 1) where
    -- Where the kernel's calls do not fail, in a state of the copy each of the four rules that is
    -- serviced comes to a state of the copy: no exception is thrown, and in particular not the event
    -- loop's for a busy wait.
    pub rules-serve :
        (s : Copy K)
        → Moved os got sent law f s
        → All (λ rule. Returns (Moved os got sent law f) (serve rule s)) (rules os)
    unfolding service_count
    rules-serve s m =
        let (k1, (k2, (k3, (k4, u)))) = rules-Keeps os got sent law f h0 h1 in
        (
          served _ (rule_1 os) s
              (Returns-Holds _ _ (read_input os s) (read_input_works s) (k1.callback s m)),
          (
            served _ (rule_2 os) s (
                Returns-Holds _ _ (write_socket os s) (write_socket_works _ _ s m.forth)
                  (k2.callback s m)),
            (
              served _ (rule_3 os) s
                  (Returns-Holds _ _ (read_socket os s) (read_socket_works s) (k3.callback s m)),
              (
                served _ (rule_4 os) s (
                    Returns-Holds _ _ (write_output os s) (write_output_works _ _ s m.back)
                      (k4.callback s m)),
                tt,
              ),
            ),
          ),
        )
