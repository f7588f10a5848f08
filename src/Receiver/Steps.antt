-- ===== src/Receiver/Steps.antt =====
-- The receiver as a machine: the events of its tasks, one at a time, and the run of a sequence of
-- them.
pub mod Inert
pub mod Asked
pub mod Waiting
use bilbycast_rist.Prelude.{ℕ, Bool, true, false, Option, none, some, List, [], ◌∷◌}
use bilbycast_rist.Wire.{Buf}
use bilbycast_rist.Guard.{SocketAddr}
use bilbycast_rist.Receiver.State.{Receiver, RistSocketConfig}
use bilbycast_rist.Receiver.Media.{Datagram, on_rtp}
use bilbycast_rist.Receiver.Control.{on_rtcp}
use bilbycast_rist.Receiver.Pump.{on_pump, on_report}

-- The branches of the `select!`, with what the environment chooses: the datagrams, the clock, and the
-- jitter's value.
pub data Event : Type 0 where
  rtp : Datagram → List Datagram → ℕ → ℕ → Event
  rtcp : List ℕ → SocketAddr → ℕ → (ℕ → ℕ) → Event
  pump : ℕ → ℕ → Event
  report : ℕ → ℕ → Event

module _ {Net : Type 0} (config : RistSocketConfig) (w : Buf) (from_utf8_lossy : List ℕ → List ℕ)
    (send_rtcp : Net → List ℕ → SocketAddr → Net × Bool) (ssrc : ℕ) where
  unfoldable pub step : Receiver × Net → Event → Receiver × Net
  unfolding on_rtp on_rtcp on_pump on_report
  step (st, net) (rtp d ready arrived_at now) = (on_rtp config w d ready arrived_at now st, net)
  step (st, net) (rtcp bytes from now clock) =
      on_rtcp config w from_utf8_lossy send_rtcp ssrc from now bytes clock (st, net)
  step (st, net) (pump jitter now) = on_pump config w send_rtcp ssrc jitter now (st, net)
  step (st, net) (report jitter now) = on_report config w send_rtcp ssrc jitter now (st, net)

  unfoldable pub run : Receiver × Net → List Event → Receiver × Net
  unfolding step
  run st [] = st
  run st (e ∷ es) = run (step st e) es
