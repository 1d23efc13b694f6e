-- ===== src/Adapter.antt =====
-- What libsponge/tcp_helpers/tcp_sponge_socket.cc calls of its adapter: the interface that the
-- adapters of fd_adapter.hh, lossy_fd_adapter.hh and tuntap_adapter.hh have in common.
pub mod Udp
pub mod Lossy
pub mod TunTap
pub mod Pending
pub mod Delivery
mod Tests
use cs.Prelude.{ℕ, Bool, Option}
use cs.Outcome.{Outcome}
use cs.Segment.{TcpSegment}
use cs.TcpOverIp.{FdAdapterConfig}
use cs.FileDescriptor.{FileDescriptor}

pub record Adapter (A K : Type 0) : Type 0 where
  pub fd : A → FileDescriptor
  pub config : A → FdAdapterConfig
  pub read : A → K → Outcome (Option TcpSegment × A × K)
  pub write : TcpSegment → A → K → Outcome (A × K)
  pub tick : ℕ → A → K → Outcome (A × K)
  pub set_config : FdAdapterConfig → A → A
  pub set_listening : Bool → A → A
