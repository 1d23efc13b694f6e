-- ===== src/State/Official.antt =====
-- Official states and the connection (libsponge/tcp_helpers/tcp_state.cc).
use cs.Prelude.{ℕ, ◌≡◌, refl, sym, ap, ◌∙◌, some_eq, Bool, true, false, Option, none, some}
use cs.Seqno.{WrappingInt32}
use cs.ByteStream
use cs.Sender
use cs.Receiver
use cs.Reassembler
use cs.Connection.{TcpConnection, init, connect, send_all}
use cs.Connection.Closing.{Dead}
use cs.State.{
  ReceiverSummary, SenderSummary, Summary, State, of_state, receiver_summary, sender_summary,
  summary, state,
}

-- The official state that a summary stands for, read off its sender and receiver.
official : Summary → Option State
official q = named q.sender q.receiver q.linger_after_streams_finish q.active
  where
    named : SenderSummary → ReceiverSummary → Bool → Bool → Option State
    named SenderSummary.closed ReceiverSummary.listen linger active = some State.listen
    named SenderSummary.syn_sent ReceiverSummary.syn_recv linger active = some State.syn_rcvd
    named SenderSummary.syn_sent ReceiverSummary.listen linger active = some State.syn_sent
    named SenderSummary.syn_acked ReceiverSummary.syn_recv linger active = some State.established
    named SenderSummary.syn_acked ReceiverSummary.fin_recv linger active = some State.close_wait
    named SenderSummary.fin_sent ReceiverSummary.syn_recv linger active = some State.fin_wait_1
    named SenderSummary.fin_sent ReceiverSummary.fin_recv true active = some State.closing
    named SenderSummary.fin_sent ReceiverSummary.fin_recv false active = some State.last_ack
    named SenderSummary.fin_acked ReceiverSummary.syn_recv linger active = some State.fin_wait_2
    named SenderSummary.fin_acked ReceiverSummary.fin_recv true active = some State.time_wait
    named SenderSummary.fin_acked ReceiverSummary.fin_recv false active = some State.closed
    named SenderSummary.error r linger active = some State.reset
    named s r linger active = none

official-of_state : (t : State) → official (of_state t) ≡ some t
unfolding official of_state
official-of_state State.listen = refl
official-of_state State.syn_rcvd = refl
official-of_state State.syn_sent = refl
official-of_state State.established = refl
official-of_state State.close_wait = refl
official-of_state State.last_ack = refl
official-of_state State.fin_wait_1 = refl
official-of_state State.fin_wait_2 = refl
official-of_state State.closing = refl
official-of_state State.time_wait = refl
official-of_state State.closed = refl
official-of_state State.reset = refl

-- No two official states have the same summary.
pub of_state_injective : (t u : State) → of_state t ≡ of_state u → t ≡ u
of_state_injective t u e = some_eq (sym (official-of_state t) ∙ ap official e ∙ official-of_state u)

-- A new connection is in LISTEN, whatever its capacities, timeout and initial number, and is in
-- SYN_SENT once it has connected.
pub state-connect :
    (recv_capacity send_capacity rt_timeout : ℕ) (isn : WrappingInt32)
    → let c : TcpConnection = init recv_capacity send_capacity rt_timeout isn in
      (state c ≡ of_state State.listen)
      × (c' : TcpConnection) × (connect c ≡ some c')
      × (state c' ≡ of_state State.syn_sent)
unfolding init connect summary of_state sender_summary receiver_summary Sender.fill_window
    Sender.make_segment_and_send send_all Sender.init Receiver.init Reassembler.init ByteStream.init
state-connect recv_capacity send_capacity rt_timeout isn = (refl, _, refl, refl)

-- A connection that a reset or too many retransmissions ended is in RESET.
pub state-Dead : (c : TcpConnection) → Dead c → state c ≡ of_state State.reset
unfolding summary of_state sender_summary receiver_summary
state-Dead c d = rw (d.inactive, d.inbound, d.outbound)
