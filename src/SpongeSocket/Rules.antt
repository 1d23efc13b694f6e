-- ===== src/SpongeSocket/Rules.antt =====
-- What the rules of libsponge/tcp_helpers/tcp_sponge_socket.cc do: no byte of the owner is refused,
-- no assembled byte is lost, and every queued segment goes to the adapter.
use cs.Prelude.{
  ℕ, ◌+◌, ◌-◌, ◌^◌, ◌≤◌, ◌<◌, ◌≡◌, refl, sym, ap, subst, ◌∙◌, true, false, Option, none, some, List,
  [], ◌∷◌, ◌++◌, append_assoc, append-nil, length, min, ltb, ◌==◌, ◌||◌, arith, take-all, inl, inr,
  Bool-cases,
}
use cs.Outcome.{returned, Holds, Holds-then, Holds-weaken}
use cs.BufferList.Laws.{contents}
use cs.ByteStream.{eof}
use cs.Segment.{TcpSegment}
use cs.Sender.Flight.{Valid, load}
use cs.Connection.{TcpConnection}
use cs.Connection.Sending.{Sent, write-Sent}
use cs.FileDescriptor.{SystemCalls, FileDescriptor, read, after_read, shutdown, How}
use cs.FileDescriptor
use cs.FileDescriptor.Kernel.{IsKernel, Quiet, shutdown-Quiet}
use cs.StreamCopy.{copy_out}
use cs.StreamCopy.Flow.{Flow, CopiedOut, copy_out-CopiedOut}
use cs.Adapter.{Adapter}
use cs.SpongeSocket.{
  Running, read_owner, write_owner, write_datagrams_from, write_datagrams, inbound_stream,
  remaining_outbound_capacity, shut_owner,
}

module _ {A K : Type 0} (os : SystemCalls K) (adapter : Adapter A K) where
  -- A read hands over no more than its limit, whatever the kernel answers.
  after_read_short :
      (limit : ℕ) (d : FileDescriptor) (a : Option (List ℕ) × K)
      → Holds (λ r. length r.0 ≤ limit) (after_read os limit d a)
  after_read_short limit d (none, k) = tt
  after_read_short limit d (some bytes, k) =
      elim (Bool-cases (ltb (min FileDescriptor.buffer_size limit) (length bytes))) [
        | inl long ↦ rw long tt
        | inr fits ↦ rw fits (ground arith)
      ]

  read_short :
      (limit : ℕ) (d d' : FileDescriptor) (k k' : K) (bytes : List ℕ)
      → read os limit d k ≡ returned (bytes, d', k')
      → length bytes ≤ limit
  unfolding read
  read_short limit d d' k k' bytes e =
      subst (Holds (λ r. length r.0 ≤ limit)) e
        (after_read_short limit d (os.read d.fd (min FileDescriptor.buffer_size limit) k))

  -- The bytes that rule 2 reads from the owner before the end are all accepted, where the connection
  -- has nothing queued and its sender is valid, has not sent its FIN and has numbers in range with
  -- them: the exception for a short write is not thrown, the segments that go out are numbered
  -- without a gap and carry the receiver's acknowledgment, and their payloads with what stays in the
  -- stream are what was in the stream and the bytes.
  pub read_owner-Sent :
      (s : Running A K) (bytes : List ℕ) (d : FileDescriptor) (k : K)
      → read os (remaining_outbound_capacity s.tcp) s.thread_data s.kernel ≡ returned (bytes, d, k)
      → d.eof ≡ false
      → Valid s.tcp.sender
      → s.tcp.sender.segments_out ≡ []
      → s.tcp.sender.fin_sent ≡ false
      → load s.tcp.sender + length bytes < 2 ^ 62
      → load s.tcp.sender + length bytes < s.tcp.sender.recv_ackno + 2 ^ 30
      → (c : TcpConnection) × (read_owner os adapter s
          ≡ returned (record s { thread_data = d; kernel = k; tcp = c }))
        × Sent s.tcp (contents s.tcp.sender.stream.stream_buffer ++ bytes) c
  unfolding read_owner
  read_owner-Sent s bytes d k got on v queue open_now small near =
      let (c, e, sent) = write-Sent s.tcp bytes v queue open_now small near in
      let fits : length bytes ≤ remaining_outbound_capacity s.tcp =
        read_short (remaining_outbound_capacity s.tcp) s.thread_data d s.kernel k bytes got in
      let n : ℕ = min (length bytes) (s.tcp.sender.stream.capacity - s.tcp.sender.stream.size) in
      let all : n ≡ length bytes = omega (arith, v.stream) in
      let same : (n == length bytes) ≡ true = ground (arith, all) in
      (
        c,
        rw (read_owner, got, e, same, on) refl,
        subst (λ x. Sent s.tcp (contents s.tcp.sender.stream.stream_buffer ++ x) c)
            (take-all n bytes (omega (arith, all))) sent,
      )

  -- What rule 4 leaves: the segments are gone from the queue, and nothing else of the connection has
  -- changed.
  pub record Handed (log : A → K → List TcpSegment) (segs : List TcpSegment) (s s' : Running A K)
      : Type 0 where
    pub logged : log s'.datagram_adapter s'.kernel ≡ log s.datagram_adapter s.kernel ++ segs
    pub same : s'.tcp ≡ record s.tcp { segments_out = [] }

  -- What is relied on of an adapter: a segment that it takes goes to the end of its log.
  abbrev pub IsLogged : (A → K → List TcpSegment) → Type 0
  IsLogged log =
      (seg : TcpSegment) (a : A) (k : K)
      → Holds (λ r. log r.0 r.1 ≡ log a k ++ seg ∷ []) (adapter.write seg a k)

  write_datagrams_from-Handed :
      (log : A → K → List TcpSegment) (segs : List TcpSegment) (s : Running A K)
      → IsLogged log
      → s.tcp.segments_out ≡ segs
      → Holds (Handed log segs s) (write_datagrams_from os adapter segs s)
  unfolding write_datagrams_from
  write_datagrams_from-Handed log [] s h e = record {
    logged = sym (append-nil _);
    same = ap (λ q. record s.tcp { segments_out = q }) e;
  }
  write_datagrams_from-Handed log (seg ∷ segs) s h e =
      Holds-then (λ r. log r.0 r.1 ≡ log s.datagram_adapter s.kernel ++ seg ∷ []) _
        (adapter.write seg s.datagram_adapter s.kernel) _ (h seg s.datagram_adapter s.kernel)
        (λ (a, k) l.
          let s' : Running A K = record s {
            datagram_adapter = a;
            kernel = k;
            tcp = record s.tcp { segments_out = segs };
          } in
          Holds-weaken (Handed log segs s') (Handed log (seg ∷ segs) s)
            (write_datagrams_from os adapter segs s')
            (λ t w. record {
              logged = w.logged ∙ ap (λ x. x ++ segs) l ∙ append_assoc _ (seg ∷ []) segs;
              same = w.same;
            })
            (write_datagrams_from-Handed log segs s' h refl))

  -- Rule 4 hands every queued segment to the adapter, each once and in order, unless the adapter
  -- throws, and leaves the queue empty and the rest of the connection as it was.
  pub write_datagrams-Handed :
      (log : A → K → List TcpSegment) (s : Running A K)
      → IsLogged log
      → Holds (Handed log s.tcp.segments_out s) (write_datagrams os adapter s)
  write_datagrams-Handed log s h = write_datagrams_from-Handed log s.tcp.segments_out s h refl

  module _ (got sent : ℕ → K → List ℕ) (law : IsKernel os got sent) where
    -- What rule 3 leaves: what was assembled is what the owner has been given and what the inbound
    -- stream holds, and the sender is as it was.
    pub record Given (came : List ℕ) (s s' : Running A K) : Type 0 where
      pub flow : Flow came (sent s.thread_data.fd s'.kernel) (inbound_stream s'.tcp)
      pub same_fd : s'.thread_data.fd ≡ s.thread_data.fd
      pub same_sender : s'.tcp.sender ≡ s.tcp.sender
      pub same_queue : s'.tcp.segments_out ≡ s.tcp.segments_out

    shut_owner-Given :
        (came : List ℕ) (s s' : Running A K)
        → Given came s s'
        → Holds (Given came s) (shut_owner os adapter s')
    shut_owner-Given came s s' g =
        elim (Bool-cases (eof (inbound_stream s'.tcp) || (inbound_stream s'.tcp).error)) [
          | inl over ↦ rw over (
              Holds-then (Quiet os got sent law s'.thread_data s'.kernel) (Given came s)
                (shutdown os How.shut_wr s'.thread_data s'.kernel) _
                (shutdown-Quiet os got sent law How.shut_wr s'.thread_data s'.kernel)
                (λ (d, k) q. record {
                  flow =
                      subst (λ w. Flow came w (inbound_stream s'.tcp))
                        (sym (q.unsent s.thread_data.fd)) g.flow;
                  same_fd = q.same ∙ g.same_fd;
                  same_sender = g.same_sender;
                  same_queue = g.same_queue;
                }))
          | inr on ↦ rw on g
        ]

    -- Where what was assembled is what the owner has been given followed by what the inbound stream
    -- holds, that is so after rule 3 where it returns, however much of the bytes the kernel takes, and the sender and
    -- the queue of segments are as they were.
    pub write_owner-Given :
        (came : List ℕ) (s : Running A K)
        → Flow came (sent s.thread_data.fd s.kernel) (inbound_stream s.tcp)
        → Holds (Given came s) (write_owner os adapter s)
    unfolding write_owner
    write_owner-Given came s f =
        Holds-then (CopiedOut os got sent law [] came s.thread_data s.kernel) (Given came s)
          (copy_out os s.thread_data (inbound_stream s.tcp) s.kernel) _
          (copy_out-CopiedOut os got sent law [] came s.thread_data (inbound_stream s.tcp) s.kernel
            f)
          (λ (d, b, k) c.
            shut_owner-Given came s _
              (record { flow = c.flow; same_fd = c.same; same_sender = refl; same_queue = refl }))
