-- ===== src/SpongeSocket/Loop.antt =====
-- The calls of libsponge/tcp_helpers/tcp_sponge_socket.cc that make a connection and run its loop:
-- `_tcp_loop`, `_initialize_TCP`, `connect`, `listen_and_accept` and the end of `_tcp_main`. A call
-- that starts the thread of `_tcp_main` returns the rules and the state that this starts from.
use cs.Prelude.{
  ℕ, zero, suc, Bool, true, false, not, ◌||◌, Option, none, some, List, sub64, if◌then◌else◌,
}
use cs.Outcome.{Outcome, returned, thrown, ◌>>=◌}
use cs.Seqno.{WrappingInt32}
use cs.Connection.{TcpConnection, init, connect, tick}
use cs.State.{State, state, of_state, same_state}
use cs.TcpOverIp.{FdAdapterConfig}
use cs.FileDescriptor.{SystemCalls, FileDescriptor, shutdown, How}
use cs.EventLoop.{Rule, PollFd, Polled, Result, wait_next_event}
use cs.Adapter.{Adapter}
use cs.SpongeSocket.{Running, rules}

-- What the loop takes from outside: `poll`, the clock and the owner's request to stop.
pub record Environment (K : Type 0) : Type 0 where
  pub poll : List PollFd → Option ℕ → K → Polled × K
  pub timestamp_ms : K → ℕ × K
  pub abort : K → Bool

pub record TcpConfig : Type 0 where
  pub rt_timeout : ℕ
  pub recv_capacity : ℕ
  pub send_capacity : ℕ

abbrev pub default_capacity : ℕ
default_capacity = 64000

abbrev pub timeout_dflt : ℕ
timeout_dflt = 1000

-- A configuration as it is made.
abbrev pub default_config : TcpConfig
default_config = record {
  rt_timeout = timeout_dflt;
  recv_capacity = default_capacity;
  send_capacity = default_capacity;
}

-- The socket between calls: it may have no connection yet.
pub record Socket (A K : Type 0) : Type 0 where
  pub kernel : K
  pub datagram_adapter : A
  pub thread_data : FileDescriptor
  pub tcp : Option TcpConnection

abbrev pub tcp_tick_ms : ℕ
tcp_tick_ms = 10

abbrev pub is_exit : Result → Bool
is_exit Result.exit = true
is_exit _ = false

module _ {A K : Type 0} (os : SystemCalls K) (adapter : Adapter A K) (env : Environment K) where
  abbrev pub poll_in : List PollFd → Option ℕ → Running A K → Polled × Running A K
  poll_in ps t s = let (a, k) = env.poll ps t s.kernel in (a, record s { kernel = k })

  -- The time that has passed is told to the connection and the adapter, and the time is now.
  unfoldable pub pass_time : ℕ → Running A K → Outcome (ℕ × Running A K)
  pass_time base_time s =
      if s.tcp.if_active
      then (let (next_time, k) = env.timestamp_ms s.kernel in
          adapter.tick (sub64 next_time base_time) s.datagram_adapter k >>= (λ (a, k'). returned (
            next_time,
            record s {
              kernel = k';
              datagram_adapter = a;
              tcp = tick (sub64 next_time base_time) s.tcp;
            },
          )))
      else returned (base_time, s)

  -- `while (condition())` with the base time, for so many turns at most: after these the result is
  -- the state that the next turn starts from.
  unfoldable pub loop_from :
      ℕ
      → (Running A K → Bool)
      → ℕ
      → List (Rule (Running A K))
      → Running A K
      → Outcome (List (Rule (Running A K)) × Running A K)
  unfolding pass_time
  loop_from zero condition base_time rs s = returned (rs, s)
  loop_from (suc n) condition base_time rs s =
      if not (condition s)
      then returned (rs, s)
      else wait_next_event poll_in (some tcp_tick_ms) rs s >>= (λ (r, rs', s').
        if is_exit r || env.abort s'.kernel
        then returned (rs', s')
        else pass_time base_time s' >>= (λ (base, s''). loop_from n condition base rs' s''))

  unfoldable pub tcp_loop :
      ℕ
      → (Running A K → Bool)
      → List (Rule (Running A K))
      → Running A K
      → Outcome (List (Rule (Running A K)) × Running A K)
  unfolding loop_from
  tcp_loop n condition rs s =
      let (base_time, k) = env.timestamp_ms s.kernel in
      loop_from n condition base_time rs (record s { kernel = k })

  -- `_initialize_TCP`, with the initial number that the connection draws.
  abbrev pub initialize_tcp : TcpConfig → WrappingInt32 → Socket A K → Running A K
  initialize_tcp config isn s = record {
    kernel = s.kernel;
    datagram_adapter = s.datagram_adapter;
    thread_data = s.thread_data;
    tcp = init config.recv_capacity config.send_capacity config.rt_timeout isn;
    inbound_shutdown = false;
    outbound_shutdown = false;
    fully_acked = false;
  }

  abbrev pub in_state : State → Running A K → Bool
  in_state t s = same_state (state s.tcp) (of_state t)

  -- From `_tcp->connect()` on.
  abbrev pub connected :
      ℕ → Option TcpConnection → Running A K → Outcome (List (Rule (Running A K)) × Running A K)
  connected n none s = thrown
  connected n (some c) s =
      if not (same_state (state c) (of_state State.syn_sent))
      then thrown
      else tcp_loop n (in_state State.syn_sent) (rules os adapter) (record s { tcp = c })

  abbrev pub has_tcp : Option TcpConnection → Bool
  has_tcp none = false
  has_tcp (some c) = true

  -- `_datagram_adapter.config_mut() = c_ad`.
  abbrev pub configured : FdAdapterConfig → Running A K → Running A K
  configured c_ad s = record s { datagram_adapter = adapter.set_config c_ad s.datagram_adapter }

  unfoldable pub connect_socket :
      ℕ
      → TcpConfig
      → FdAdapterConfig
      → WrappingInt32
      → Socket A K
      → Outcome (List (Rule (Running A K)) × Running A K)
  unfolding tcp_loop
  connect_socket n c_tcp c_ad isn s =
      if has_tcp s.tcp
      then thrown
      else (let s' : Running A K = configured c_ad (initialize_tcp c_tcp isn s) in
          connected n (connect s'.tcp) s')

  abbrev pub accepting : Running A K → Bool
  accepting s = in_state State.listen s || in_state State.syn_rcvd s || in_state State.syn_sent s

  unfoldable pub listen_and_accept :
      ℕ
      → TcpConfig
      → FdAdapterConfig
      → WrappingInt32
      → Socket A K
      → Outcome (List (Rule (Running A K)) × Running A K)
  unfolding tcp_loop
  listen_and_accept n c_tcp c_ad isn s =
      if has_tcp s.tcp
      then thrown
      else (let s' : Running A K = configured c_ad (initialize_tcp c_tcp isn s) in
          let a : A = adapter.set_listening true s'.datagram_adapter in
          tcp_loop n accepting (rules os adapter) (record s' { datagram_adapter = a }))

  -- `_tcp_main` after its loop: the owner's descriptor is shut down and the connection is dropped.
  unfoldable pub end_main : FileDescriptor → Running A K → Outcome (FileDescriptor × Socket A K)
  end_main owner s = shutdown os How.shut_rdwr owner s.kernel >>= (λ (d, k). returned (
    d,
    record {
      kernel = k;
      datagram_adapter = s.datagram_adapter;
      thread_data = s.thread_data;
      tcp = none;
    },
  ))
