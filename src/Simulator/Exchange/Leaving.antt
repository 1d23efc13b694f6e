-- ===== src/Simulator/Exchange/Leaving.antt =====
-- What `exchange_frames` of apps/network_simulator.cc leaves on the queues.
use cs.Prelude.{◌≡◌, refl, sym, ap, ◌∙◌, List, [], ◌∷◌, ◌++◌}
use cs.Outcome.{Outcome, returned, thrown, undefined, Holds, Holds-then, Holds-weaken, ◌>>=◌}
use cs.Ethernet.{EthernetFrame}
use cs.NetworkInterface.{NetworkInterface}
use cs.NetworkInterface
use cs.Router.{AsyncNetworkInterface, recv_frame}
use cs.Simulator.Exchange.{clear, deliver, flattened, frames_out, cleared, exchange_two}
use cs.Simulator.Exchange.Appending.{
  Extends, Extends-same, Extends-then, GrownAfter, interface_recv_frame-Grown,
}

abbrev Longer : AsyncNetworkInterface → AsyncNetworkInterface → Type 0
Longer a b = Extends (frames_out a) (frames_out b)

recv_frame-Longer :
    (f : EthernetFrame) (a : AsyncNetworkInterface) → Holds (Longer a) (recv_frame f a)
unfolding recv_frame
recv_frame-Longer f a =
    Holds-then (GrownAfter a.interface) (Longer a) (NetworkInterface.recv_frame f a.interface) _
      (interface_recv_frame-Grown f a.interface) (λ r g. g)

deliver-Longer :
    (fs : List EthernetFrame) (a : AsyncNetworkInterface) → Holds (Longer a) (deliver fs a)
unfolding deliver
deliver-Longer [] a = Extends-same (frames_out a)
deliver-Longer (f ∷ fs) a =
    Holds-then (Longer a) (Longer a) (recv_frame (flattened f) a) (deliver fs)
      (recv_frame-Longer (flattened f) a)
      (λ b g.
        Holds-weaken (Longer b) (Longer a) (deliver fs b)
          (λ c h. Extends-then (frames_out a) (frames_out b) (frames_out c) g h)
          (deliver-Longer fs b))

clear-append : (fs gs : List EthernetFrame) → clear fs (fs ++ gs) ≡ gs
unfolding clear
clear-append [] gs = refl
clear-append (f ∷ fs) gs = clear-append fs gs

cleared_lem :
    (a b : AsyncNetworkInterface) (e : Longer a b)
    → frames_out (cleared (frames_out a) b) ≡ Extends.new e
cleared_lem a b e = ap (clear (frames_out a)) e.more ∙ clear-append (frames_out a) e.new

-- Where an interface is from before an exchange and has this one's frames delivered to it, it ends
-- with the datagrams from them, and with the frames on its queue that it put there meanwhile.
pub record Left (before : AsyncNetworkInterface) (frames : List EthernetFrame)
    (after : AsyncNetworkInterface) : Type 0 where
  pub delivered : AsyncNetworkInterface
  pub delivery : deliver frames before ≡ returned delivered
  pub added : frames_out delivered ≡ frames_out before ++ frames_out after
  pub datagrams : after.datagrams_out ≡ delivered.datagrams_out

left :
    (a b : AsyncNetworkInterface) (fs : List EthernetFrame)
    → deliver fs a ≡ returned b
    → Longer a b
    → Left a fs (cleared (frames_out a) b)
left a b fs e g = record {
  delivered = b;
  delivery = e;
  added = g.more ∙ ap (◌++◌ (frames_out a)) (sym (cleared_lem a b g));
  datagrams = refl;
}

abbrev pub BothLeft :
    AsyncNetworkInterface
    → AsyncNetworkInterface
    → AsyncNetworkInterface × AsyncNetworkInterface
    → Type 0
BothLeft x y (x', y') = Left x (frames_out y) x' × Left y (frames_out x) y'

-- An exchange between two interfaces that returns: each has received every frame that the other had
-- queued, and has on its queue the frames that it put there meanwhile, in order, and no other.
pub exchange_two-Left : (x y : AsyncNetworkInterface) → Holds (BothLeft x y) (exchange_two x y)
unfolding exchange_two
exchange_two-Left x y =
    go (deliver (frames_out x) y) refl (deliver-Longer (frames_out x) y) (deliver (frames_out y) x)
      refl (deliver-Longer (frames_out y) x)
  where
    go :
        (m : Outcome AsyncNetworkInterface)
        → deliver (frames_out x) y ≡ m
        → Holds (Longer y) m
        → (n : Outcome AsyncNetworkInterface) → deliver (frames_out y) x ≡ n
        → Holds (Longer x) n
        → Holds (BothLeft x y) (
            m >>= (λ y'.
              n >>= (λ x'. returned (cleared (frames_out x) x', cleared (frames_out y) y'))))
    go (returned y') e g (returned x') e' g' =
        (left x x' (frames_out y) e' g', left y y' (frames_out x) e g)
    go (returned y') e g thrown e' g' = tt
    go (returned y') e g undefined e' g' = tt
    go thrown e g n e' g' = tt
    go undefined e g n e' g' = tt
