-- ===== src/Simulator/Exchange.antt =====
-- `exchange_frames`, `deliver` and `clear` of apps/network_simulator.cc: the frames that were queued
-- when the exchange began go to the other ends and off their queues.
pub mod Appending
pub mod Leaving
use cs.Prelude.{ℕ, List, [], ◌∷◌}
use cs.Outcome.{Outcome, returned, ◌>>=◌}
use cs.BufferList.{concatenate_all}
use cs.BufferList
use cs.Ethernet.{EthernetFrame}
use cs.NetworkInterface.{NetworkInterface}
use cs.Router.{AsyncNetworkInterface, recv_frame}

-- `queue.pop()`.
abbrev pub popped : List EthernetFrame → List EthernetFrame
popped [] = []
popped (f ∷ fs) = fs

-- Both queues are popped until the first is empty.
unfoldable pub clear : List EthernetFrame → List EthernetFrame → List EthernetFrame
clear [] queue2 = queue2
clear (f ∷ queue1) queue2 = clear queue1 (popped queue2)

-- A frame with its payload in one buffer.
abbrev pub flattened : EthernetFrame → EthernetFrame
flattened f = record f { payload = BufferList.of_string (concatenate_all f.payload) }

unfoldable pub deliver : List EthernetFrame → AsyncNetworkInterface → Outcome AsyncNetworkInterface
deliver [] dst = returned dst
deliver (f ∷ fs) dst = recv_frame (flattened f) dst >>= deliver fs

abbrev pub frames_out : AsyncNetworkInterface → List EthernetFrame
frames_out a = a.interface.frames_out

-- An interface whose queue was cleared by these frames.
abbrev pub cleared : List EthernetFrame → AsyncNetworkInterface → AsyncNetworkInterface
cleared fs a = record a { interface = record a.interface { frames_out = clear fs (frames_out a) } }

unfoldable pub exchange_two :
    AsyncNetworkInterface
    → AsyncNetworkInterface
    → Outcome (AsyncNetworkInterface × AsyncNetworkInterface)
unfolding deliver clear
exchange_two x y = deliver (frames_out x) y >>= (λ y'.
    deliver (frames_out y) x
    >>= (λ x'. returned (cleared (frames_out x) x', cleared (frames_out y) y')))

unfoldable pub exchange_three :
    AsyncNetworkInterface
    → AsyncNetworkInterface
    → AsyncNetworkInterface
    → Outcome (AsyncNetworkInterface × AsyncNetworkInterface × AsyncNetworkInterface)
unfolding deliver clear
exchange_three x y z = deliver (frames_out x) y >>= (λ y'. deliver (frames_out x) z >>= (λ z'.
    deliver (frames_out y) x >>= (λ x'. deliver (frames_out y) z' >>= (λ z''.
      deliver (frames_out z) x' >>= (λ x''. deliver (frames_out z) y' >>= (λ y''.
        returned
          (cleared (frames_out x) x'', cleared (frames_out y) y'', cleared (frames_out z) z'')))))))
