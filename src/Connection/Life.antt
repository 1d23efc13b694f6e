-- ===== src/Connection/Life.antt =====
-- The events of a connection (the public methods of libsponge/tcp_connection.hh), and that none
-- makes it active again.
use cs.Prelude.{
  ℕ, ◌≡◌, refl, ◌∙◌, Bool, true, false, ◌&&◌, ◌||◌, not, Option, none, some, List, [], ◌∷◌, ltb,
  if◌then◌else◌, leb, ◌*◌, add64, Bool-cases, inl, inr,
}
use cs.Segment.{TcpSegment, length_in_sequence_space}
use cs.ByteStream.{eof}
use cs.ByteStream
use cs.Receiver.{TcpReceiver, stream_out}
use cs.Sender
use cs.Sender.{TcpSender, is_empty, fill_window, ack_received}
use cs.Connection.{
  TcpConnection, send_all, send_segment, send_front, pop, fill, with_sender, flush_filled, flushed,
  after_ack, answered, fail, send_reset_segment, take_rst, take_ack, take_data, received,
  passive_close, syn_sent_only, max_retx_attempts, retransmit, half_close, lingered, all_acked,
  write, connect, end_input_stream, segment_received, tick, destroy,
}

pub data Event : Type 0 where
  connecting : Event
  writing : List ℕ → Event
  ending : Event
  arriving : TcpSegment → Event
  ticking : ℕ → Event
  dropping : Event

abbrev written : Option (ℕ × TcpConnection) → Option TcpConnection
written none = none
written (some (n, c)) = some c

unfoldable pub step : Event → TcpConnection → Option TcpConnection
step connecting c = connect c
step (writing bytes) c = written (write bytes c)
step ending c = end_input_stream c
step (arriving seg) c = segment_received seg c
step (ticking ms) c = some (tick ms c)
step dropping c = some (destroy c)

-- Events in order, up to the first that fails.
unfoldable pub run : List Event → Option TcpConnection → Option TcpConnection
run [] o = o
run (e ∷ es) none = none
run (e ∷ es) (some c) = run es (step e c)

-- Whether a connection came out, and is active.
abbrev pub active : Option TcpConnection → Bool
active none = false
active (some c) = c.if_active

abbrev is_active : TcpConnection → Bool
is_active c = c.if_active

either {ℓ} :
    {A : Type ℓ} (f : A → Bool) (b : Bool) {x y : A}
    → f x ≡ false
    → f y ≡ false
    → f (if b then x else y) ≡ false
either f true h k = h
either f false h k = k

send_all_active :
    (segs : List TcpSegment) (c : TcpConnection) → (send_all segs c).if_active ≡ c.if_active
unfolding send_all
send_all_active [] c = refl
send_all_active (seg ∷ segs) c = send_all_active segs (send_segment seg (pop segs c))

flush_filled-active :
    (s : Option TcpSender) (c : TcpConnection)
    → c.if_active ≡ false
    → active (flush_filled (with_sender s c)) ≡ false
flush_filled-active none c e = refl
flush_filled-active (some s) c e = send_all_active s.segments_out (record c { sender = s }) ∙ e

send_front_active :
    (segs : List TcpSegment) (c : TcpConnection) → (send_front segs c).if_active ≡ c.if_active
send_front_active [] c = refl
send_front_active (seg ∷ segs) c = refl

answered-active :
    (s : Option TcpSender) (c : TcpConnection)
    → c.if_active ≡ false
    → active (answered (with_sender s c)) ≡ false
answered-active none c e = refl
answered-active (some s) c e = elim (Bool-cases (is_empty s.segments_out)) [
  | inl none_left ↦ rw none_left (send_front_active _ _ ∙ e)
  | inr some_left ↦ rw some_left (send_all_active s.segments_out (record c { sender = s }) ∙ e)
]

-- The same with the flag that tells whether the call goes on.
abbrev active_next : Option (Bool × TcpConnection) → Bool
active_next none = false
active_next (some (b, c)) = c.if_active

flushed_active :
    (s : Option TcpSender) (c : TcpConnection)
    → c.if_active ≡ false
    → active_next (flushed (with_sender s c)) ≡ false
flushed_active none c e = refl
flushed_active (some s) c e = send_all_active s.segments_out (record c { sender = s }) ∙ e

after_ack_active :
    (s : Option (Bool × TcpSender)) (c : TcpConnection)
    → c.if_active ≡ false
    → active_next (after_ack s c) ≡ false
after_ack_active none c e = refl
after_ack_active (some (true, s)) c e = flushed_active (fill_window s) (record c { sender = s }) e
after_ack_active (some (false, s)) c e = elim (Bool-cases s.old_syn_flag) [
  | inl started ↦ rw started (send_front_active _ _ ∙ e)
  | inr fresh ↦ rw fresh e
]

take_ack_active :
    (seg : TcpSegment) (c : TcpConnection)
    → c.if_active ≡ false
    → active_next (take_ack seg c) ≡ false
unfolding take_ack
take_ack_active seg c e = either active_next (not seg.header.ack) e (
    either active_next (not c.sender.syn_flag) e
      (after_ack_active (ack_received seg.header.ackno seg.header.win c.sender) c e))

take_data-active :
    (seg : TcpSegment) (o : Option (Bool × TcpConnection))
    → active_next o ≡ false
    → active (take_data seg o) ≡ false
unfolding take_data
take_data-active seg none e = refl
take_data-active seg (some (false, c)) e = e
take_data-active seg (some (true, c)) e =
    either active (ltb 0 (length_in_sequence_space seg))
      (answered-active (fill_window c.sender) c e) e

take_rst_active :
    (seg : TcpSegment) (c : TcpConnection)
    → c.if_active ≡ false
    → (take_rst seg c).if_active ≡ false
unfolding take_rst send_reset_segment fail
take_rst_active seg c e =
    either is_active (not c.sender.syn_flag || not seg.header.ack && syn_sent_only c) e
      (either is_active (seg.header.ack && syn_sent_only c) refl refl)

passive_close_active :
    (c : TcpConnection) → c.if_active ≡ false → (passive_close c).if_active ≡ false
passive_close_active c e =
    either is_active (eof (stream_out c.receiver) && not (eof c.sender.stream) && c.sender.syn_flag)
      {x = record c { linger_after_streams_finish = false }} {y = c} e e

received-active :
    (seg : TcpSegment) (o : Option (Bool × TcpReceiver)) (c : TcpConnection)
    → c.if_active ≡ false
    → active (received seg o c) ≡ false
received-active seg none c e = refl
received-active seg (some (ok, r)) c e =
    let c' : TcpConnection = record c { receiver = r } in
    either active seg.header.rst (take_rst_active seg c' e)
      (take_data-active seg _ (take_ack_active seg (passive_close c') (passive_close_active c' e)))

retransmit_active :
    (segs : List TcpSegment) (c : TcpConnection)
    → c.if_active ≡ false
    → (retransmit segs c).if_active ≡ false
unfolding retransmit fail
retransmit_active [] c e = e
retransmit_active (seg ∷ segs) c e =
    either is_active (ltb max_retx_attempts c.sender.consecutive_retransmissions) refl e

half_close_active : (c : TcpConnection) → c.if_active ≡ false → (half_close c).if_active ≡ false
half_close_active c e =
    either is_active (not c.linger_after_streams_finish && all_acked c)
      {x = record c { if_active = false }} {y = c} refl e

lingered_active : (c : TcpConnection) → c.if_active ≡ false → (lingered c).if_active ≡ false
lingered_active c e =
    either is_active
      (eof (stream_out c.receiver)
        && eof c.sender.stream
        && all_acked c
        && leb (10 * c.rt_timeout) c.time_since_last_segment_received)
      {x = record c { if_active = false }} {y = c} refl e

tick_active : (ms : ℕ) (c : TcpConnection) → c.if_active ≡ false → (tick ms c).if_active ≡ false
unfolding tick
tick_active ms c e =
    let c' : TcpConnection = record c {
      time_since_last_segment_received = add64 c.time_since_last_segment_received ms;
      sender = Sender.tick ms c.sender;
    } in
    let again : TcpConnection = retransmit c'.sender.segments_out c' in
    lingered_active (half_close again)
      (half_close_active again (retransmit_active c'.sender.segments_out c' e))

written_active :
    (n : ℕ) (o : Option TcpConnection)
    → active o ≡ false
    → active (written (elim o [ none ↦ none | some c ↦ some (n, c) ])) ≡ false
written_active n none e = refl
written_active n (some c) e = e

step-active : (ev : Event) (c : TcpConnection) → c.if_active ≡ false → active (step ev c) ≡ false
unfolding step connect write end_input_stream segment_received destroy send_reset_segment fail
step-active connecting c e = flush_filled-active (fill_window c.sender) c e
step-active (writing bytes) c e =
    let c' : TcpConnection = record c {
      sender = record c.sender { stream = (ByteStream.write bytes c.sender.stream).1 };
    } in
    written_active (ByteStream.write bytes c.sender.stream).0 (flush_filled (fill c'))
      (flush_filled-active (fill_window c'.sender) c' e)
step-active ending c e = flush_filled-active _ _ e
step-active (arriving seg) c e = received-active seg _ _ e
step-active (ticking ms) c e = tick_active ms c e
step-active dropping c e = either is_active c.if_active refl e

-- A connection that is over stays so, whatever events follow.
pub run-active :
    (es : List Event) (o : Option TcpConnection) → active o ≡ false → active (run es o) ≡ false
unfolding run
run-active [] o e = e
run-active (ev ∷ es) none e = refl
run-active (ev ∷ es) (some c) e = run-active es (step ev c) (step-active ev c e)
