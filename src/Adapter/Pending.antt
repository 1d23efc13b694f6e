-- ===== src/Adapter/Pending.antt =====
-- The Ethernet adapter of libsponge/tcp_helpers/tuntap_adapter.cc hands every frame that its
-- interface queues to the device.
use cs.Prelude.{
  ℕ, ◌≡◌, refl, sym, ap, subst, ◌∙◌, true, Option, none, some, List, [], ◌∷◌, ◌++◌, append-nil,
  append_assoc, inl, inr, Bool-cases,
}
use cs.Outcome.{Outcome, returned, Holds, Holds-then, Holds-weaken, of_option, ◌>>=◌}
use cs.Buffer
use cs.BufferList.Laws.{contents}
use cs.ViewList
use cs.ViewList.Laws.{of_buffers_lem}
use cs.Parser.{ParseResult, failed}
use cs.Segment.{TcpSegment}
use cs.Ipv4.{Ipv4Datagram}
use cs.Ethernet.{EthernetFrame}
use cs.Ethernet
use cs.NetworkInterface.{send_datagram, recv_frame}
use cs.TcpOverIp.{wrap_tcp_in_ip, unwrap_tcp_in_ip}
use cs.FileDescriptor.{SystemCalls, FileDescriptor}
use cs.FileDescriptor
use cs.FileDescriptor.Kernel.{IsKernel}
use cs.FileDescriptor.WholeWrites.{WroteAll, write-WroteAll}
use cs.Adapter.TunTap.{
  EthernetAdapter, write_all, send_pending_from, send_pending, unwrap_received, take_frame,
  ethernet_read, ethernet_tick, ethernet_write, no_limit,
}

-- The bytes of frames, one after the other.
abbrev pub bytes_of : List EthernetFrame → List ℕ
bytes_of [] = []
bytes_of (f ∷ fs) = contents (Ethernet.serialize f) ++ bytes_of fs

-- Nothing is queued.
abbrev pub Idle : EthernetAdapter → Type 0
Idle a = a.interface.frames_out ≡ []

-- Nothing is asked of a call.
any_call {ℓ} : {A : Type ℓ} (m : Outcome A) → Holds (λ r. Unit {0}) m
any_call (returned r) = tt
any_call Outcome.thrown = tt
any_call Outcome.undefined = tt

-- Where the rest of a call ends in a state with this property, so does the call.
after_any {ℓ ℓ'} :
    {A : Type ℓ} {B : Type ℓ'} (P : B → Type 0) (m : Outcome A) (f : A → Outcome B)
    → ((a : A) → Holds P (f a))
    → Holds P (m >>= f)
after_any P m f h = Holds-then (λ r. Unit {0}) P m f (any_call m) (λ a u. h a)

module _ {K : Type 0} (os : SystemCalls K) where
  send_pending_from-Idle :
      (fs : List EthernetFrame) (a : EthernetAdapter) (k : K)
      → a.interface.frames_out ≡ fs
      → Holds (λ r. Idle r.0) (send_pending_from os fs a k)
  unfolding send_pending_from
  send_pending_from-Idle [] a k e = e
  send_pending_from-Idle (f ∷ fs) a k e =
      after_any (λ r. Idle r.0) (write_all os (Ethernet.serialize f) a.tap k) _
        (λ (d, k'). send_pending_from-Idle fs _ k' refl)

  unwrap_received-Idle :
      (ip_dgram : Option Ipv4Datagram) (a : EthernetAdapter) (k : K)
      → Idle a
      → Holds (λ r. Idle r.1) (unwrap_received os ip_dgram (a, k))
  unwrap_received-Idle none a k i = i
  unwrap_received-Idle (some d) a k i =
      after_any (λ r. Idle r.1) (of_option (unwrap_tcp_in_ip d a.base)) _ (λ r. i)

  take_frame-Idle :
      (r : ParseResult × EthernetFrame) (a : EthernetAdapter) (k : K)
      → Idle a
      → Holds (λ x. Idle x.1) (take_frame os r a k)
  take_frame-Idle (r, frame) a k i = elim (Bool-cases (failed r)) [
    | inl bad ↦ rw bad i
    | inr good ↦ rw good (
        after_any (λ x. Idle x.1) (recv_frame frame a.interface) _
          (λ (ip_dgram, ni).
            Holds-then (λ x. Idle x.0) _ (send_pending os (record a { interface = ni }) k) _
              (send_pending_from-Idle ni.frames_out _ k refl)
              (λ (b, k') j. unwrap_received-Idle ip_dgram b k' j)))
  ]

  -- Whatever a call of `read` finds, and whatever segment or time a call of `write` or `tick` is
  -- given: when it returns, every frame that the interface has queued has been written to the device,
  -- where none was queued before.
  pub ethernet-Idle :
      (a : EthernetAdapter) (k : K) (seg : TcpSegment) (ms : ℕ)
      → Idle a
      → Holds (λ r. Idle r.1) (ethernet_read os a k)
        × Holds (λ r. Idle r.0) (ethernet_write os seg a k)
        × Holds (λ r. Idle r.0) (ethernet_tick os ms a k)
  unfolding ethernet_read ethernet_write ethernet_tick
  ethernet-Idle a k seg ms i = (
    after_any (λ r. Idle r.1) (FileDescriptor.read os no_limit a.tap k) _
        (λ (bytes, d, k').
          after_any (λ r. Idle r.1)
            (of_option (Ethernet.parse (Buffer.of_string bytes) Ethernet.new)) _
            (λ r. take_frame-Idle r (record a { tap = d }) k' i)),
    after_any (λ r. Idle r.0) (of_option (wrap_tcp_in_ip seg a.base)) _
        (λ (seg', datagram).
          after_any (λ r. Idle r.0) (send_datagram datagram a.next_hop a.interface) _
            (λ ni. send_pending_from-Idle ni.frames_out _ k refl)),
    send_pending_from-Idle _ _ k refl,
  )

  module _ (got sent : ℕ → K → List ℕ) (law : IsKernel os got sent) where
    -- What `send_pending` leaves of an adapter with these frames queued.
    pub record Pushed (fs : List EthernetFrame) (a : EthernetAdapter) (k : K)
        (r : EthernetAdapter × K) : Type 0 where
      pub bytes : sent a.tap.fd r.1 ≡ sent a.tap.fd k ++ bytes_of fs
      pub same_fd : r.0.tap.fd ≡ a.tap.fd
      pub interface : r.0.interface ≡ record a.interface { frames_out = [] }
      pub unread : (g : ℕ) → got g r.1 ≡ got g k

    write_all-Sent :
        (f : EthernetFrame) (d : FileDescriptor) (k : K)
        → Holds
            (λ r.
              (sent d.fd r.1 ≡ sent d.fd k ++ contents (Ethernet.serialize f))
              × (r.0.fd ≡ d.fd)
              × ((g : ℕ) → got g r.1 ≡ got g k))
            (write_all os (Ethernet.serialize f) d k)
    write_all-Sent f d k =
        Holds-then (WroteAll os got sent law (ViewList.of_buffers (Ethernet.serialize f)) d k) _
          (FileDescriptor.write os (ViewList.of_buffers (Ethernet.serialize f)) true d k) _
          (write-WroteAll os got sent law (ViewList.of_buffers (Ethernet.serialize f)) d k)
          (λ r w. (
            w.gone ∙ ap (◌++◌ (sent d.fd k)) (of_buffers_lem (Ethernet.serialize f)),
            w.same,
            w.unread,
          ))

    -- The queued frames go to the device, each once, whole and in order, unless a system call fails;
    -- nothing else of the interface changes, and nothing is read.
    pub send_pending-Pushed :
        (fs : List EthernetFrame) (a : EthernetAdapter) (k : K)
        → a.interface.frames_out ≡ fs
        → Holds (Pushed fs a k) (send_pending_from os fs a k)
    unfolding send_pending_from
    send_pending-Pushed [] a k e = record {
      bytes = sym (append-nil _);
      same_fd = refl;
      interface = ap (λ q. record a.interface { frames_out = q }) e;
      unread = λ g. refl;
    }
    send_pending-Pushed (f ∷ fs) a k e =
        Holds-then _ (Pushed (f ∷ fs) a k) (write_all os (Ethernet.serialize f) a.tap k) _
          (write_all-Sent f a.tap k)
          (λ (d, k') (went, same, unread).
            let b : EthernetAdapter = record a {
              tap = d;
              interface = record a.interface { frames_out = fs };
            } in
            Holds-weaken (Pushed fs b k') (Pushed (f ∷ fs) a k) (send_pending_from os fs b k')
              (λ r w. record {
                bytes =
                    subst (λ g. sent g r.1 ≡ sent g k' ++ bytes_of fs) same w.bytes
                    ∙ ap (λ x. x ++ bytes_of fs) went
                    ∙ append_assoc (sent a.tap.fd k) _ _;
                same_fd = w.same_fd ∙ same;
                interface = w.interface;
                unread = λ g. w.unread g ∙ unread g;
              })
              (send_pending-Pushed fs b k' refl))
