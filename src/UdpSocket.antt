-- ===== src/UdpSocket.antt =====
-- Class `UDPSocket` of libsponge/util/socket.hh and socket.cc. recvfrom(2) and sendmsg(2) are
-- parameters, `none` an answer for which `SystemCall` throws.
use cs.Prelude.{ℕ, not, Option, none, some, List, ltb, ◌==◌, if◌then◌else◌, length}
use cs.Outcome.{Outcome, returned, thrown}
use cs.ViewList.{BufferViewList}
use cs.ViewList
use cs.TcpOverIp.{Address}
use cs.FileDescriptor.{FileDescriptor, register_read, register_write}

-- `recvfrom` gives a datagram's source and its bytes, all of them with the flag `MSG_TRUNC`; `sendmsg`
-- is told where to, if anywhere, and gives the number of bytes sent.
pub record DatagramCalls (K : Type 0) : Type 0 where
  pub recvfrom : ℕ → ℕ → K → Option (Address × List ℕ) × K
  pub sendmsg : ℕ → Option Address → BufferViewList → K → Option ℕ × K

pub record ReceivedDatagram : Type 0 where
  pub source_address : Address
  pub payload : List ℕ

abbrev pub default_mtu : ℕ
default_mtu = 65536

module _ {K : Type 0} (calls : DatagramCalls K) where
  abbrev pub after_recv :
      ℕ
      → FileDescriptor
      → Option (Address × List ℕ) × K
      → Outcome (ReceivedDatagram × FileDescriptor × K)
  after_recv mtu d (none, k) = thrown
  after_recv mtu d (some (source, bytes), k) =
      if ltb mtu (length bytes)
      then thrown
      else returned (record { source_address = source; payload = bytes }, register_read d, k)

  unfoldable pub recv : ℕ → FileDescriptor → K → Outcome (ReceivedDatagram × FileDescriptor × K)
  recv mtu d k = after_recv mtu d (calls.recvfrom d.fd mtu k)

  abbrev pub after_send :
      BufferViewList → FileDescriptor → Option ℕ × K → Outcome (FileDescriptor × K)
  after_send payload d (none, k) = thrown
  after_send payload d (some n, k) =
      if not (n == ViewList.size payload) then thrown else returned (register_write d, k)

  unfoldable pub sendto :
      Address → BufferViewList → FileDescriptor → K → Outcome (FileDescriptor × K)
  sendto destination payload d k =
      after_send payload d (calls.sendmsg d.fd (some destination) payload k)

  unfoldable pub send : BufferViewList → FileDescriptor → K → Outcome (FileDescriptor × K)
  send payload d k = after_send payload d (calls.sendmsg d.fd none payload k)
