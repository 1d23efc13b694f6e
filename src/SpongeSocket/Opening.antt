-- ===== src/SpongeSocket/Opening.antt =====
-- How libsponge/tcp_helpers/tcp_sponge_socket.cc opens a connection.
use cs.Prelude.{ℕ, ◌≡◌, refl, true, none, some, ap}
use cs.Seqno.{WrappingInt32}
use cs.Connection.{TcpConnection, init, connect}
use cs.State.{State, Summary, state, of_state, same_state}
use cs.State.Official.{state-connect}
use cs.TcpOverIp.{FdAdapterConfig}
use cs.FileDescriptor.{SystemCalls}
use cs.Adapter.{Adapter}
use cs.SpongeSocket.{rules}
use cs.SpongeSocket.Loop.{
  Environment, Socket, TcpConfig, connect_socket, configured, initialize_tcp, tcp_loop, in_state,
}

same_syn_sent :
    (q : Summary) → q ≡ of_state State.syn_sent → same_state q (of_state State.syn_sent) ≡ true
unfolding same_state of_state
same_syn_sent q e = ap (λ x. same_state x (of_state State.syn_sent)) e

module _ {A K : Type 0} (os : SystemCalls K) (adapter : Adapter A K) (env : Environment K) where
  -- `connect` on a socket without a connection never throws for the state that it finds: whatever the
  -- configuration and the initial number, the connection is in SYN_SENT, and the loop runs on it for
  -- as long as it is.
  pub connect_socket-SynSent :
      (n : ℕ) (c_tcp : TcpConfig) (c_ad : FdAdapterConfig) (isn : WrappingInt32) (s : Socket A K)
      → s.tcp ≡ none
      → (c : TcpConnection) × (connect
            (init c_tcp.recv_capacity c_tcp.send_capacity c_tcp.rt_timeout isn)
          ≡ some c)
        × (state c ≡ of_state State.syn_sent)
        × (connect_socket os adapter env n c_tcp c_ad isn s
            ≡ tcp_loop os adapter env n
                (in_state os adapter env State.syn_sent)
                (rules os adapter)
                (record (configured os adapter env c_ad
                  (initialize_tcp os adapter env c_tcp isn s)) { tcp = c }))
  unfolding connect_socket
  connect_socket-SynSent n c_tcp c_ad isn s e =
      let (fresh, c, f, q) =
        state-connect c_tcp.recv_capacity c_tcp.send_capacity c_tcp.rt_timeout isn in
      (c, f, q, rw (connect_socket, e, f, same_syn_sent (state c) q) refl)
