-- ===== src/StreamCopy/Copying.antt =====
-- No byte is lost, made up or put out of order by apps/bidirectional_stream_copy.cc: its four rules
-- keep the two flows, and so does its loop.
use cs.Prelude.{All, ℕ, ◌≡◌, ◌≢◌, refl, sym, subst, ◌∙◌, Bool, true, false, List, [], if◌then◌else◌}
use cs.Outcome.{Outcome, returned, Holds, Holds-then}
use cs.ByteStream.{ByteStream, end_input, set_error, eof}
use cs.FileDescriptor.{SystemCalls, shutdown, close, How}
use cs.FileDescriptor.Kernel.{IsKernel, Quiet, shutdown-Quiet, close-Quiet}
use cs.EventLoop.Keeping.{Keeps}
use cs.StreamCopy.{
  Copy, copy_in, copy_out, read_input, write_socket, read_socket, write_output, shut_socket,
  close_output, rules, rule_1, rule_2, rule_3, rule_4,
}
use cs.StreamCopy.Flow.{
  Flow, CopiedIn, CopiedOut, copy_in-CopiedIn, copy_out-CopiedOut, end_input-Flow, set_error-Flow,
}

pub Flow-at :
    {came came' went went' : List ℕ} {b : ByteStream}
    → came' ≡ came
    → went' ≡ went
    → Flow came went b
    → Flow came' went' b
Flow-at {came} {came'} {went} {went'} {b} e e' f =
    subst (λ c. Flow c went' b) (sym e) (subst (λ w. Flow came w b) (sym e') f)

module _ {K : Type 0} (os : SystemCalls K) (got sent : ℕ → K → List ℕ) (law : IsKernel os got sent)
    (f : ℕ) where
  -- The state of the copy: what has been read from standard input is what has been written to the
  -- socket and what the outbound stream holds, and so from the socket to standard output.
  pub record Moved (s : Copy K) : Type 0 where
    pub input_fd : s.input.fd ≡ 0
    pub output_fd : s.output.fd ≡ 1
    pub socket_fd : s.socket.fd ≡ f
    pub forth : Flow (got 0 s.kernel) (sent f s.kernel) s.outbound
    pub back : Flow (got f s.kernel) (sent 1 s.kernel) s.inbound

  module _ (h0 : f ≢ 0) (h1 : f ≢ 1) where
    read_input-Moved : (s : Copy K) → Moved s → Holds Moved (read_input os s)
    unfolding read_input
    read_input-Moved s m =
        Holds-then (CopiedIn os got sent law (sent f s.kernel) [] s.input s.kernel) Moved
          (copy_in os s.input s.outbound s.kernel) _
          (copy_in-CopiedIn os got sent law (sent f s.kernel) [] s.input s.outbound s.kernel (
            subst (λ g. Flow (got g s.kernel) (sent f s.kernel) s.outbound) (sym m.input_fd)
              m.forth))
          (λ (d, b, k) c. record {
            input_fd = c.same ∙ m.input_fd;
            output_fd = m.output_fd;
            socket_fd = m.socket_fd;
            forth =
                Flow-at refl (c.unsent f)
                  (subst (λ g. Flow (got g k) (sent f s.kernel) b) m.input_fd c.flow);
            back = Flow-at (c.others f (λ e. h0 (e ∙ m.input_fd))) (c.unsent 1) m.back;
          })

    read_socket-Moved : (s : Copy K) → Moved s → Holds Moved (read_socket os s)
    unfolding read_socket
    read_socket-Moved s m =
        Holds-then (CopiedIn os got sent law (sent 1 s.kernel) [] s.socket s.kernel) Moved
          (copy_in os s.socket s.inbound s.kernel) _
          (copy_in-CopiedIn os got sent law (sent 1 s.kernel) [] s.socket s.inbound s.kernel (
            subst (λ g. Flow (got g s.kernel) (sent 1 s.kernel) s.inbound) (sym m.socket_fd)
              m.back))
          (λ (d, b, k) c. record {
            input_fd = m.input_fd;
            output_fd = m.output_fd;
            socket_fd = c.same ∙ m.socket_fd;
            forth = Flow-at (c.others 0 (λ e. h0 (sym (e ∙ m.socket_fd)))) (c.unsent f) m.forth;
            back =
                Flow-at refl (c.unsent 1)
                  (subst (λ g. Flow (got g k) (sent 1 s.kernel) b) m.socket_fd c.flow);
          })

    shut_socket-Moved : (s : Copy K) → Moved s → Holds Moved (shut_socket os s)
    shut_socket-Moved s m =
        Holds-then (Quiet os got sent law s.socket s.kernel) Moved
          (shutdown os How.shut_wr s.socket s.kernel) _
          (shutdown-Quiet os got sent law How.shut_wr s.socket s.kernel)
          (λ (d, k) q. record {
            input_fd = m.input_fd;
            output_fd = m.output_fd;
            socket_fd = q.same ∙ m.socket_fd;
            forth = Flow-at (q.unread 0) (q.unsent f) m.forth;
            back = Flow-at (q.unread f) (q.unsent 1) m.back;
          })

    close_output-Moved : (s : Copy K) → Moved s → Holds Moved (close_output os s)
    close_output-Moved s m =
        Holds-then (Quiet os got sent law s.output s.kernel) Moved (close os s.output s.kernel) _
          (close-Quiet os got sent law s.output s.kernel)
          (λ (d, k) q. record {
            input_fd = m.input_fd;
            output_fd = q.same ∙ m.output_fd;
            socket_fd = m.socket_fd;
            forth = Flow-at (q.unread 0) (q.unsent f) m.forth;
            back = Flow-at (q.unread f) (q.unsent 1) m.back;
          })

    -- A test for the end, where either branch keeps the flows.
    if_over :
        (over : Bool) (s : Copy K) (m : Outcome (Copy K))
        → Holds Moved m
        → Moved s
        → Holds Moved (if over then m else returned s)
    if_over true s m h i = h
    if_over false s m h i = i

    write_socket-Moved : (s : Copy K) → Moved s → Holds Moved (write_socket os s)
    unfolding write_socket
    write_socket-Moved s m =
        Holds-then (CopiedOut os got sent law [] (got 0 s.kernel) s.socket s.kernel) Moved
          (copy_out os s.socket s.outbound s.kernel) _
          (copy_out-CopiedOut os got sent law [] (got 0 s.kernel) s.socket s.outbound s.kernel (
            subst (λ g. Flow (got 0 s.kernel) (sent g s.kernel) s.outbound) (sym m.socket_fd)
              m.forth))
          (λ (d, b, k) c.
            let i : Moved (record s { socket = d; outbound = b; kernel = k }) = record {
              input_fd = m.input_fd;
              output_fd = m.output_fd;
              socket_fd = c.same ∙ m.socket_fd;
              forth =
                  Flow-at (c.unread 0) refl
                    (subst (λ g. Flow (got 0 s.kernel) (sent g k) b) m.socket_fd c.flow);
              back = Flow-at (c.unread f) (c.others 1 (λ e. h1 (sym (e ∙ m.socket_fd)))) m.back;
            } in
            if_over (eof b) _ _ (shut_socket-Moved _ i) i)

    write_output-Moved : (s : Copy K) → Moved s → Holds Moved (write_output os s)
    unfolding write_output
    write_output-Moved s m =
        Holds-then (CopiedOut os got sent law [] (got f s.kernel) s.output s.kernel) Moved
          (copy_out os s.output s.inbound s.kernel) _
          (copy_out-CopiedOut os got sent law [] (got f s.kernel) s.output s.inbound s.kernel (
            subst (λ g. Flow (got f s.kernel) (sent g s.kernel) s.inbound) (sym m.output_fd)
              m.back))
          (λ (d, b, k) c.
            let i : Moved (record s { output = d; inbound = b; kernel = k }) = record {
              input_fd = m.input_fd;
              output_fd = c.same ∙ m.output_fd;
              socket_fd = m.socket_fd;
              forth = Flow-at (c.unread 0) (c.others f (λ e. h1 (e ∙ m.output_fd))) m.forth;
              back =
                  Flow-at (c.unread f) refl
                    (subst (λ g. Flow (got f s.kernel) (sent g k) b) m.output_fd c.flow);
            } in
            if_over (eof b) _ _ (close_output-Moved _ i) i)

    rule_1-Keeps : Keeps Moved (rule_1 os)
    rule_1-Keeps = record { callback = read_input-Moved; cancel = λ s m. ended s m }
      where
        ended : (s : Copy K) → Moved s → Moved (record s { outbound = end_input s.outbound })
        ended s m = record {
          input_fd = m.input_fd;
          output_fd = m.output_fd;
          socket_fd = m.socket_fd;
          forth = end_input-Flow (got 0 s.kernel) (sent f s.kernel) s.outbound m.forth;
          back = m.back;
        }

    rule_2-Keeps : Keeps Moved (rule_2 os)
    rule_2-Keeps = record { callback = write_socket-Moved; cancel = λ s m. broken s m }
      where
        broken : (s : Copy K) → Moved s → Moved (record s { outbound = set_error s.outbound })
        broken s m = record {
          input_fd = m.input_fd;
          output_fd = m.output_fd;
          socket_fd = m.socket_fd;
          forth = set_error-Flow (got 0 s.kernel) (sent f s.kernel) s.outbound m.forth;
          back = m.back;
        }

    rule_3-Keeps : Keeps Moved (rule_3 os)
    rule_3-Keeps = record { callback = read_socket-Moved; cancel = λ s m. ended s m }
      where
        ended : (s : Copy K) → Moved s → Moved (record s { inbound = end_input s.inbound })
        ended s m = record {
          input_fd = m.input_fd;
          output_fd = m.output_fd;
          socket_fd = m.socket_fd;
          forth = m.forth;
          back = end_input-Flow (got f s.kernel) (sent 1 s.kernel) s.inbound m.back;
        }

    rule_4-Keeps : Keeps Moved (rule_4 os)
    rule_4-Keeps = record { callback = write_output-Moved; cancel = λ s m. broken s m }
      where
        broken : (s : Copy K) → Moved s → Moved (record s { inbound = set_error s.inbound })
        broken s m = record {
          input_fd = m.input_fd;
          output_fd = m.output_fd;
          socket_fd = m.socket_fd;
          forth = m.forth;
          back = set_error-Flow (got f s.kernel) (sent 1 s.kernel) s.inbound m.back;
        }

    pub rules-Keeps : All (Keeps Moved) (rules os)
    rules-Keeps = (rule_1-Keeps, (rule_2-Keeps, (rule_3-Keeps, (rule_4-Keeps, tt))))
