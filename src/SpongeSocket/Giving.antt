-- ===== src/SpongeSocket/Giving.antt =====
-- Rule 3 of libsponge/tcp_helpers/tcp_sponge_socket.cc with a kernel whose calls do not fail.
use cs.Prelude.{ℕ, ◌≡◌, inl, inr, ap, ◌∙◌, Bool-cases, List, add32, ◌||◌}
use cs.Outcome.{Returns, Returns-then, Returns-Holds}
use cs.ByteStream.{eof}
use cs.FileDescriptor.{SystemCalls, How, shutdown}
use cs.FileDescriptor.Kernel.{IsKernel}
use cs.FileDescriptor.Working.{IsWorking, shut_wr-Returns}
use cs.StreamCopy.{copy_out}
use cs.StreamCopy.Flow.{Flow}
use cs.StreamCopy.Serving.{Serviced, copy_out_works}
use cs.Adapter.{Adapter}
use cs.SpongeSocket.{Running, write_owner, shut_owner, inbound_stream, with_inbound}
use cs.SpongeSocket.Rules.{Given, write_owner-Given}

module _ {A K : Type 0} (os : SystemCalls K) (adapter : Adapter A K) (works : IsWorking os)
    (got sent : ℕ → K → List ℕ) (law : IsKernel os got sent) where
  shut_owner_works :
      (n : ℕ) (s : Running A K)
      → s.thread_data.write_count ≡ add32 n 1
      → Returns (λ t. Serviced n t.thread_data.write_count) (shut_owner os adapter s)
  shut_owner_works n s e =
      elim (Bool-cases (eof (inbound_stream s.tcp) || (inbound_stream s.tcp).error)) [
        | inl over ↦ rw over (
            Returns-then _ _ (shutdown os How.shut_wr s.thread_data s.kernel) _
              (shut_wr-Returns os works s.thread_data s.kernel)
              (λ r e'. inr (e' ∙ ap (λ m. add32 m 1) e)))
        | inr on ↦ rw on (inl e)
      ]

  -- With a kernel whose calls do not fail, and where what was assembled is what the owner has been
  -- given followed by what the inbound stream holds: rule 3 throws no exception, services the
  -- descriptor, and that is so after it, however much of the bytes the kernel takes; the sender and
  -- the queue of segments are as they were.
  pub write_owner_run :
      (came : List ℕ) (s : Running A K)
      → Flow came (sent s.thread_data.fd s.kernel) (inbound_stream s.tcp)
      → Returns
          (λ t.
            Serviced s.thread_data.write_count t.thread_data.write_count
            × Given os adapter got sent law came s t)
          (write_owner os adapter s)
  unfolding write_owner
  write_owner_run came s f =
      Returns-Holds _ _ (write_owner os adapter s)
        (Returns-then _ _ (copy_out os s.thread_data (inbound_stream s.tcp) s.kernel) _
          (copy_out_works os works came _ s.thread_data (inbound_stream s.tcp) s.kernel f)
          (λ (d, b, k) e.
            shut_owner_works s.thread_data.write_count
              (record s { thread_data = d; kernel = k; tcp = with_inbound b s.tcp }) e))
        (write_owner-Given os adapter got sent law came s f)
