-- ===== src/Adapter/Lossy.antt =====
-- Class template `LossyFdAdapter` of libsponge/tcp_helpers/lossy_fd_adapter.hh, for any adapter. The
-- random numbers are a parameter.
use cs.Prelude.{ℕ, ◌%◌, ◌^◌, Bool, true, false, Option, none, ltb, ◌==◌, if◌then◌else◌}
use cs.Outcome.{Outcome, returned, ◌>>=◌}
use cs.Segment.{TcpSegment}
use cs.TcpOverIp.{FdAdapterConfig}
use cs.Adapter.{Adapter}

pub record LossyFdAdapter (A G : Type 0) : Type 0 where
  pub rand : G
  pub adapter : A

module _ {A G K : Type 0} (random : G → ℕ × G) (inner : Adapter A K) where
  -- `_should_drop`: no number is drawn where nothing is to be lost.
  unfoldable pub should_drop : Bool → LossyFdAdapter A G → Bool × LossyFdAdapter A G
  should_drop uplink a =
      let cfg : FdAdapterConfig = inner.config a.adapter in
      let loss : ℕ = if uplink then cfg.loss_rate_up else cfg.loss_rate_dn in
      let (n, g) = random a.rand in
      if loss == 0 then (false, a) else (ltb (n % 2 ^ 16) loss, record a { rand = g })

  abbrev pub given :
      Option TcpSegment → Bool × LossyFdAdapter A G → K → Option TcpSegment × LossyFdAdapter A G × K
  given ret (drop_it, a) k = if drop_it then (none, a, k) else (ret, a, k)

  unfoldable pub read :
      LossyFdAdapter A G → K → Outcome (Option TcpSegment × LossyFdAdapter A G × K)
  unfolding should_drop
  read a k =
      inner.read a.adapter k
      >>= (λ (ret, b, k'). returned (given ret (should_drop false (record a { adapter = b })) k'))

  abbrev pub written : TcpSegment → Bool × LossyFdAdapter A G → K → Outcome (LossyFdAdapter A G × K)
  written seg (drop_it, a) k =
      if drop_it
      then returned (a, k)
      else inner.write seg a.adapter k >>= (λ (b, k'). returned (record a { adapter = b }, k'))

  unfoldable pub write : TcpSegment → LossyFdAdapter A G → K → Outcome (LossyFdAdapter A G × K)
  unfolding should_drop
  write seg a k = written seg (should_drop true a) k

  abbrev pub lossy_adapter : Adapter (LossyFdAdapter A G) K
  lossy_adapter = record {
    fd = λ a. inner.fd a.adapter;
    config = λ a. inner.config a.adapter;
    read = read;
    write = write;
    tick = λ ms a k.
        inner.tick ms a.adapter k >>= (λ (b, k'). returned (record a { adapter = b }, k'));
    set_config = λ c a. record a { adapter = inner.set_config c a.adapter };
    set_listening = λ l a. record a { adapter = inner.set_listening l a.adapter };
  }
