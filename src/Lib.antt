-- ===== src/Lib.antt =====
-- A model of the TCP library of this repository (libsponge/), with the theorems that show its parts
-- correct. The program's core is a stack. `WrappingInt32` relates 32-bit sequence numbers to 64-bit
-- ones. A `ByteStream` is a bounded buffer over a list of shared strings (`BufferList`). A
-- `StreamReassembler` puts substrings that arrive in any order together and writes them to such a
-- stream. A `TCPReceiver` turns the segments of a peer into substrings, and says what to acknowledge.
-- A `TCPSender` reads a stream, cuts it to segments within the peer's window, keeps those in flight
-- and sends the oldest again when its timer runs out. A `TCPConnection` joins a receiver and a sender.
-- Below it, segments, datagrams, frames and messages are written to bytes and parsed; a
-- `NetworkInterface` finds Ethernet addresses for datagrams, and a `Router` forwards them between
-- interfaces.
--
-- Around it, a `TCPSpongeSocket` runs a connection between a local socket and an adapter, with an
-- `EventLoop` that calls its rules as descriptors become ready; the adapters carry segments in UDP
-- datagrams, in IPv4 datagrams or in Ethernet frames. Three applications use these parts: a
-- copy between standard input and output and a socket, a benchmark and a simulated network.
--
-- Which file models which code:
--   Seqno         libsponge/wrapping_integers.hh and .cc: `wrap`, `unwrap` and the operators
--   Buffer, BufferList   libsponge/util/buffer.hh and .cc: a string with an offset, and a list of them
--   ByteStream    libsponge/byte_stream.hh and .cc; ByteStream/Fifo is the queue that it promises to be
--   Reassembler   libsponge/stream_reassembler.hh and .cc: `push_substring` is cut at the comments of
--                 the source, in `trim`, `merge_back`, `merge_forward`, `write_out` and `keep_back`;
--                 Reassembler/Merge holds the ordered set and the two loops over it,
--                 Reassembler/Taken says which bytes a state has
--   Segment       libsponge/tcp_helpers/tcp_header.hh, tcp_segment.hh and tcp_segment.cc
--   Receiver      libsponge/tcp_receiver.hh and .cc
--   Sender        libsponge/tcp_sender.hh and .cc: the loop of `fill_window` is `fill_once` again and
--                 again, the one of `ack_received` is `drop_acked`, the private member `state` keeps
--                 its name
--   Connection    libsponge/tcp_connection.hh and .cc: `segment_received` is cut at its outer tests, in
--                 `take_rst`, `passive_close`, `take_ack` and `take_data`; Connection/Life lists the
--                 public calls as events
--   State         libsponge/tcp_helpers/tcp_state.hh and .cc: the summary of a connection's state
--   Parser        libsponge/util/parser.hh and .cc: `NetParser` is a state that readers pass on, with do
--                 blocks; Parser/Safety shows which readers never throw
--   Checksum      `InternetChecksum` of libsponge/util/util.hh and .cc
--   Segment/Wire  the bytes of a segment: `parse` and `serialize` of libsponge/tcp_helpers/tcp_header.cc
--                 and tcp_segment.cc
--   Ipv4          libsponge/tcp_helpers/ipv4_header.hh, .cc and ipv4_datagram.hh, .cc
--   Ethernet      libsponge/tcp_helpers/ethernet_header.hh, .cc and ethernet_frame.hh, .cc
--   Arp           libsponge/tcp_helpers/arp_message.hh and .cc
--   NetworkInterface   libsponge/network_interface.hh and .cc: `recv_frame` is cut at the frame's type and
--                 the message's, `tick` at its two loops
--   Router        libsponge/router.hh and .cc: `choose` is the loop over the table
--   Transfer      one direction of a connection, composed of libsponge/tcp_sender.cc and tcp_receiver.cc:
--                 two ends, a network that loses, repeats and reorders, and two clients, as a step
--                 relation; Transfer/Handshake has the calls that lead to its first state,
--                 Transfer/Invariant what every step keeps, and Transfer/Recovery the timer's part
--   Outcome, Table   a value, an exception or undefined behaviour; `std::map` as a list of pairs
--   TcpOverIp     libsponge/tcp_helpers/tcp_over_ip.hh and .cc: segments in datagrams, with the state of
--                 `FdAdapterBase` of fd_adapter.hh
--   ViewList      `BufferViewList` of libsponge/util/buffer.hh and .cc
--   FileDescriptor   libsponge/util/file_descriptor.hh and .cc, with `shutdown` of socket.cc: the loop
--                 of `write` is `write_turn` again and again; FileDescriptor/Kernel says what is relied
--                 on of the system calls, FileDescriptor/Working that they do not fail, and
--                 FileDescriptor/Pipes has a kernel that does so
--   EventLoop     libsponge/util/eventloop.hh and .cc: `wait_next_event` is `set_up`, the poll and
--                 `go_through`, which are its two loops; EventLoop/Calling lists the calls of the
--                 second one
--   UdpSocket     `UDPSocket` of libsponge/util/socket.hh and .cc
--   Adapter       the interface of an adapter; Adapter/Udp is libsponge/tcp_helpers/fd_adapter.cc,
--                 Adapter/Lossy lossy_fd_adapter.hh, and Adapter/TunTap tuntap_adapter.hh and .cc
--   SpongeSocket  libsponge/tcp_helpers/tcp_sponge_socket.hh and .cc: a function for the callback of each
--                 of the four rules; SpongeSocket/Loop has `_tcp_loop`, `connect` and
--                 `listen_and_accept`
--   StreamCopy    apps/bidirectional_stream_copy.cc: its loop is `turns`
--   Benchmark     apps/tcp_benchmark.cc: `loop` is `bench_turn`, and the two loops around it take a bound
--                 on their turns, which is the fuel of the model
--   Simulator     apps/network_simulator.cc: Simulator/Hosts has class `Host`, Simulator/Exchange the
--                 exchange of frames, Simulator itself class `Network`
-- Prelude passes on the libraries' names and adds Boolean tests, lists over the native numbers and
-- machine words.
--
-- A C++ object is a record, a method a function from the record to its next value, with its result
-- in front. A byte is a number. Unsigned arithmetic wraps where the code's does: `add64`, `sub64` and
-- `mul64` for `size_t` and `uint64_t`, `add32` and `sub32` for 32 bits. `none` stands for an exception
-- or for a call whose behaviour is undefined. Loops over a list are structural. The loop of
-- `fill_window` has as many rounds as the stream has bytes and two more, since every round but the
-- last takes a byte or sends the FIN. An ordered set is a list that is kept in order.
--
-- Bits that are joined by `|` do not overlap and are added; a mask or a shift is a remainder or a
-- quotient. The loop that folds a checksum is recursion on `Acc`. The loop over a router's queue has as
-- many rounds as datagrams in the queue, since routing adds none. An `Address` is its IPv4 number.
--
-- A file descriptor is what its wrapper keeps; the kernel is a state that the system calls pass on,
-- with their answers, and the calls are parameters. The callbacks of the event loop's rules work on
-- one state, in which a rule's descriptor is a place, so that rules share what their lambdas capture
-- by reference. The loop of `write` has as many turns as the string has bytes and one more, since
-- every turn but the last takes a byte. The loops of `_tcp_loop` and of the stream copy, which may
-- go on for ever, are modelled for any number of turns.
--
-- Not modelled: printing; threads, and the calls that join them; how sockets and devices are opened,
-- bound and configured, and how names of hosts are looked up, which are system calls; the programs
-- that read arguments and run the stream copy; the tests.
pub mod Prelude
pub mod Seqno
pub mod Buffer
pub mod BufferList
pub mod ByteStream
pub mod Reassembler
pub mod Segment
pub mod Receiver
pub mod Sender
pub mod Connection
pub mod ViewList
pub mod FileDescriptor
pub mod EventLoop
pub mod StreamCopy
pub mod UdpSocket
pub mod Adapter
pub mod SpongeSocket
pub mod Benchmark
pub mod Transfer
pub mod Simulator
pub mod State
pub mod Parser
pub mod Checksum
pub mod Ipv4
pub mod Ethernet
pub mod Arp
pub mod Outcome
pub mod Table
pub mod NetworkInterface
pub mod TcpOverIp
pub mod Router
