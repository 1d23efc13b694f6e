-- ===== src/State.antt =====
-- libsponge/tcp_helpers/tcp_state.hh and tcp_state.cc: what a connection's state is called. A summary
-- is a string in the code, which holds one of a few constants; here each constant is a constructor.
pub mod Official
mod Tests
use cs.Prelude.{
  ℕ, Bool, true, false, not, ◌&&◌, Option, none, some, ◌==◌, ltb, if◌then◌else◌, add64,
}
use cs.ByteStream.{ByteStream, eof, input_ended, bytes_written}
use cs.Seqno.{WrappingInt32}
use cs.Sender.{TcpSender}
use cs.Receiver.{TcpReceiver, ackno, stream_out}
use cs.Connection.{TcpConnection}

-- Namespace `TCPReceiverStateSummary`.
pub data ReceiverSummary : Type 0 where
  error : ReceiverSummary
  listen : ReceiverSummary
  syn_recv : ReceiverSummary
  fin_recv : ReceiverSummary

-- Namespace `TCPSenderStateSummary`.
pub data SenderSummary : Type 0 where
  error : SenderSummary
  closed : SenderSummary
  syn_sent : SenderSummary
  syn_acked : SenderSummary
  fin_sent : SenderSummary
  fin_acked : SenderSummary

-- Class `TCPState`.
pub record Summary : Type 0 where
  pub sender : SenderSummary
  pub receiver : ReceiverSummary
  pub active : Bool
  pub linger_after_streams_finish : Bool

-- Enumeration `TCPState::State`.
pub data State : Type 0 where
  listen : State
  syn_rcvd : State
  syn_sent : State
  established : State
  close_wait : State
  last_ack : State
  fin_wait_1 : State
  fin_wait_2 : State
  closing : State
  time_wait : State
  closed : State
  reset : State

abbrev lasting : SenderSummary → ReceiverSummary → Summary
lasting s r = record { sender = s; receiver = r; active = true; linger_after_streams_finish = true }

abbrev brief : Bool → SenderSummary → ReceiverSummary → Summary
brief live s r = record {
  sender = s;
  receiver = r;
  active = live;
  linger_after_streams_finish = false;
}

-- The constructor from an official state.
unfoldable pub of_state : State → Summary
of_state State.listen = lasting SenderSummary.closed ReceiverSummary.listen
of_state State.syn_rcvd = lasting SenderSummary.syn_sent ReceiverSummary.syn_recv
of_state State.syn_sent = lasting SenderSummary.syn_sent ReceiverSummary.listen
of_state State.established = lasting SenderSummary.syn_acked ReceiverSummary.syn_recv
of_state State.close_wait = brief true SenderSummary.syn_acked ReceiverSummary.fin_recv
of_state State.last_ack = brief true SenderSummary.fin_sent ReceiverSummary.fin_recv
of_state State.closing = lasting SenderSummary.fin_sent ReceiverSummary.fin_recv
of_state State.fin_wait_1 = lasting SenderSummary.fin_sent ReceiverSummary.syn_recv
of_state State.fin_wait_2 = lasting SenderSummary.fin_acked ReceiverSummary.syn_recv
of_state State.time_wait = lasting SenderSummary.fin_acked ReceiverSummary.fin_recv
of_state State.reset = brief false SenderSummary.error ReceiverSummary.error
of_state State.closed = brief false SenderSummary.fin_acked ReceiverSummary.fin_recv

abbrev has_value : Option WrappingInt32 → Bool
has_value none = false
has_value (some n) = true

unfoldable pub receiver_summary : TcpReceiver → ReceiverSummary
receiver_summary r =
    if (stream_out r).error
    then ReceiverSummary.error
    else if not (has_value (ackno r))
    then ReceiverSummary.listen
    else if input_ended (stream_out r)
    then ReceiverSummary.fin_recv
    else ReceiverSummary.syn_recv

unfoldable pub sender_summary : TcpSender → SenderSummary
sender_summary s =
    if s.stream.error
    then SenderSummary.error
    else if s.next_seqno == 0
    then SenderSummary.closed
    else if s.next_seqno == s.bytes_in_flight
    then SenderSummary.syn_sent
    else if not (eof s.stream)
    then SenderSummary.syn_acked
    else if ltb s.next_seqno (add64 (bytes_written s.stream) 2)
    then SenderSummary.syn_acked
    else if not (s.bytes_in_flight == 0)
    then SenderSummary.fin_sent
    else SenderSummary.fin_acked

-- The constructor from the parts.
unfoldable pub summary : TcpSender → TcpReceiver → Bool → Bool → Summary
summary s r active linger = record {
  sender = sender_summary s;
  receiver = receiver_summary r;
  active = active;
  linger_after_streams_finish = if active then linger else false;
}

-- `TCPConnection::state`.
abbrev pub state : TcpConnection → Summary
state c = summary c.sender c.receiver c.if_active c.linger_after_streams_finish

-- The place of a constant among those of its namespace, by which constants are told apart.
abbrev pub receiver_place : ReceiverSummary → ℕ
receiver_place ReceiverSummary.error = 0
receiver_place ReceiverSummary.listen = 1
receiver_place ReceiverSummary.syn_recv = 2
receiver_place ReceiverSummary.fin_recv = 3

abbrev pub sender_place : SenderSummary → ℕ
sender_place SenderSummary.error = 0
sender_place SenderSummary.closed = 1
sender_place SenderSummary.syn_sent = 2
sender_place SenderSummary.syn_acked = 3
sender_place SenderSummary.fin_sent = 4
sender_place SenderSummary.fin_acked = 5

abbrev pub same_flag : Bool → Bool → Bool
same_flag true b = b
same_flag false b = not b

-- `TCPState::operator==`.
unfoldable pub same_state : Summary → Summary → Bool
same_state a b =
    same_flag a.active b.active
    && same_flag a.linger_after_streams_finish b.linger_after_streams_finish
    && (sender_place a.sender == sender_place b.sender)
    && (receiver_place a.receiver == receiver_place b.receiver)
