-- ===== src/Connection/Sending.antt =====
-- What a connection sends (`send_segment`, `write` and `connect` of libsponge/tcp_connection.cc).
use cs.Prelude.{
  ℕ, ◌+◌, ◌-◌, ◌^◌, ◌<◌, ◌≡◌, refl, sym, ap, ◌∙◌, false, some, List, [], ◌∷◌, ◌++◌, append-nil,
  append_assoc, map, arith, length, take, min,
}
use cs.BufferList.Laws.{contents}
use cs.ByteStream
use cs.ByteStream.Valid.{write_cut, write-Simulated}
use cs.Segment.{TcpSegment}
use cs.Sender.{TcpSender}
use cs.Sender.Flight.{Chain, payloads, load, InRange, Valid}
use cs.Sender.Fill.{fill_window-Sends}
use cs.Connection.{
  TcpConnection, set_ack_and_window, send_all, send_segment, pop, fill, flush_filled, write,
  connect,
}

abbrev pub stamped : TcpConnection → List TcpSegment → TcpConnection
stamped c segs = record c {
  segments_out = c.segments_out ++ map (set_ack_and_window c.receiver) segs;
  sender = record c.sender { segments_out = [] };
}

-- The queue goes out in order, each segment with the receiver's acknowledgment and window.
pub send_all_lem :
    (segs : List TcpSegment) (c : TcpConnection)
    → c.sender.segments_out ≡ segs
    → send_all segs c ≡ stamped c segs
unfolding send_all
send_all_lem [] c e =
    ap (λ q. record c { sender = record c.sender { segments_out = q } }) e
    ∙ ap (λ q. record c { segments_out = q; sender = record c.sender { segments_out = [] } })
        (sym (append-nil c.segments_out))
send_all_lem (seg ∷ segs) c e =
    send_all_lem segs (send_segment seg (pop segs c)) refl
    ∙ ap (λ q. record c { segments_out = q; sender = record c.sender { segments_out = [] } })
        (append_assoc c.segments_out (set_ack_and_window c.receiver seg ∷ [])
          (map (set_ack_and_window c.receiver) segs))

requeued-Valid :
    (s : TcpSender) (q : List TcpSegment) → Valid s → Valid (record s { segments_out = q })
requeued-Valid s q v = record {
  word = v.word;
  stream = v.stream;
  chain = v.chain;
  counted = v.counted;
  ended = v.ended;
}

-- What went out in a call that fills the window: new segments, numbered without a gap, that carry
-- the first bytes of `held`, with the receiver's acknowledgment and window on each.
pub record Sent (c : TcpConnection) (held : List ℕ) (c' : TcpConnection) : Type 0 where
  pub fresh : List TcpSegment
  pub out : c'.segments_out ≡ c.segments_out ++ map (set_ack_and_window c.receiver) fresh
  pub chain : Chain c.sender.isn c.sender.next_seqno fresh c'.sender.next_seqno
  pub bytes : payloads fresh ++ contents c'.sender.stream.stream_buffer ≡ held
  pub emptied : c'.sender.segments_out ≡ []
  pub valid : Valid c'.sender
  pub same_receiver : c'.receiver ≡ c.receiver

filled-Sent :
    (c : TcpConnection)
    → Valid c.sender
    → InRange c.sender
    → c.sender.segments_out ≡ []
    → (c' : TcpConnection) × (flush_filled (fill c) ≡ some c')
      × Sent c (contents c.sender.stream.stream_buffer) c'
filled-Sent c v range e =
    let (s, f, a) = fill_window-Sends c.sender v range in
    let queue : s.segments_out ≡ a.sent = a.out ∙ ap (λ q. q ++ a.sent) e in
    (
      stamped (record c { sender = s }) a.sent,
      rw f (
          ap some (
            send_all_lem s.segments_out (record c { sender = s }) refl
            ∙ ap (stamped (record c { sender = s })) queue)),
      record {
        fresh = a.sent;
        out = refl;
        chain = a.chain;
        bytes = a.bytes;
        emptied = refl;
        valid = requeued-Valid s [] a.valid;
        same_receiver = refl;
      },
    )

-- `connect` on a connection with nothing queued, whose sender is valid with numbers in range, never
-- fails, and sends what the window lets out.
pub connect-Sent :
    (c : TcpConnection)
    → Valid c.sender
    → InRange c.sender
    → c.sender.segments_out ≡ []
    → (c' : TcpConnection) × (connect c ≡ some c')
      × Sent c (contents c.sender.stream.stream_buffer) c'
unfolding connect
connect-Sent = filled-Sent

-- `write` on a connection with nothing queued, whose sender is valid, has not sent its FIN and has
-- numbers in range with the new bytes, never fails: it
-- accepts as many bytes as the outbound stream has room for, the segments that go out are numbered
-- without a gap and carry the receiver's acknowledgment, and their payloads with what stays in the
-- stream are what was in the stream and the accepted bytes.
pub write-Sent :
    (c : TcpConnection) (data_in : List ℕ)
    → Valid c.sender
    → c.sender.segments_out ≡ []
    → c.sender.fin_sent ≡ false
    → load c.sender + length data_in < 2 ^ 62
    → load c.sender + length data_in < c.sender.recv_ackno + 2 ^ 30
    → let n : ℕ = min (length data_in) (c.sender.stream.capacity - c.sender.stream.size) in
      (c' : TcpConnection) × (write data_in c ≡ some (n, c'))
      × Sent c (contents c.sender.stream.stream_buffer ++ take n data_in) c'
unfolding write
write-Sent c data_in v e open_now small near =
    let (n, size, held) = write_cut c.sender.stream data_in v.stream in
    let (c', f, a) =
      filled-Sent written written-Valid (omega (arith, n, size), omega (arith, n, size)) e in
    (
      c',
      rw (write, f) (ap (λ k. some (k, c')) n),
      record {
        fresh = a.fresh;
        out = a.out;
        chain = a.chain;
        bytes =
            a.bytes ∙ held ∙ ap (λ k. contents c.sender.stream.stream_buffer ++ take k data_in) n;
        emptied = a.emptied;
        valid = a.valid;
        same_receiver = a.same_receiver;
      },
    )
  where
    written : TcpConnection
    written = record c {
      sender = record c.sender { stream = (ByteStream.write data_in c.sender.stream).1 };
    }

    written-Valid : Valid written.sender
    written-Valid = record {
      word = v.word;
      stream = (write-Simulated c.sender.stream data_in v.stream (omega arith)).valid;
      chain = v.chain;
      counted = v.counted;
      ended = rw open_now;
    }
