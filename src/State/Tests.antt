-- ===== src/State/Tests.antt =====
-- Summaries of concrete connections (libsponge/tcp_helpers/tcp_state.cc).
use cs.Prelude.{refl, false}
use cs.Seqno.{WrappingInt32}
use cs.ByteStream
use cs.Sender
use cs.Receiver
use cs.Connection.{TcpConnection, init}
use cs.Connection.Closing.{Dead}

abbrev isn : WrappingInt32
isn = record { raw_value = 5 }

abbrev broken : TcpConnection
broken =
    let r = Receiver.init 10 in
    let s = Sender.init 10 1000 isn in
    let q = r.reassembler in
    record (init 10 10 1000 isn) {
      receiver = record r { reassembler = record q { output = ByteStream.set_error q.output } };
      sender = record s { stream = ByteStream.set_error s.stream };
      if_active = false;
    }

broken-Dead : Dead broken
unfolding ByteStream.set_error
broken-Dead = record { inactive = refl; inbound = refl; outbound = refl }
