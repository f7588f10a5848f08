-- ===== src/SenderLoop/Run.antt =====
-- What the sender keeps of the media over any interleaving of its events.
use bilbycast_rist.Prelude.{
  arith, zero, suc, Option, none, some, subst, ℕ, ◌+◌, ◌-◌, ◌^◌, ◌/◌, ◌≤◌, ◌<◌, ◌≡◌, ◌∙◌, refl, ap,
  Bool, List, [], ◌∷◌, length, wrapping_add, get_elem?,
}
use bilbycast_rist.Ring.{IsRing}
use bilbycast_rist.Wire.{Buf}
use bilbycast_rist.Guard.{SocketAddr}
use bilbycast_rist.Retransmit.{get}
use bilbycast_rist.Sender.{ntp_to_rtp90k}
use bilbycast_rist.Sender.Media.{media_run, get-media_run}
use bilbycast_rist.SenderLoop.{SenderConfig, SenderLoop, Event, payload, rtcp, report, step, run}

-- The timestamps and payloads of a sequence of events.
abbrev pub stamped : ℕ → ℕ → List Event → List (ℕ × List ℕ)
stamped epoch_system epoch [] = []
stamped epoch_system epoch (payload bytes now ∷ es) =
    (ntp_to_rtp90k (epoch_system / 1000) ((now - epoch) / 1000), bytes)
    ∷ stamped epoch_system epoch es
stamped epoch_system epoch (rtcp bytes from recv_at clock ∷ es) = stamped epoch_system epoch es
stamped epoch_system epoch (report now system_now ∷ es) = stamped epoch_system epoch es

-- A timestamp, if there is one, is of 32 bits.
abbrev Low : Option (ℕ × List ℕ) → Type 0
Low none = Unit
Low (some m) = m.0 < 2 ^ 32

pub stamped_lt :
    (epoch_system epoch : ℕ) (es : List Event) (j : ℕ) {m : ℕ × List ℕ}
    → get_elem? (stamped epoch_system epoch es) j ≡ some m
    → m.0 < 2 ^ 32
unfolding ntp_to_rtp90k
stamped_lt epoch_system epoch [] j e = cc
stamped_lt epoch_system epoch (payload bytes now ∷ es) zero e = subst Low e (omega arith)
stamped_lt epoch_system epoch (payload bytes now ∷ es) (suc j) e =
    stamped_lt epoch_system epoch es j e
stamped_lt epoch_system epoch (rtcp bytes from recv_at clock ∷ es) j e =
    stamped_lt epoch_system epoch es j e
stamped_lt epoch_system epoch (report now system_now ∷ es) j e =
    stamped_lt epoch_system epoch es j e

module _ {Net : Type 0} (config : SenderConfig) (w : Buf) (utf8 : List ℕ → List ℕ)
    (send_rtp send_rtcp : Net → List ℕ → SocketAddr → Net × Bool) (remote : SocketAddr)
    (ssrc : ℕ) where
  abbrev ran : SenderLoop Net → List Event → SenderLoop Net
  ran = run config w utf8 send_rtp send_rtcp remote ssrc

  -- Control traffic and reports in between change nothing of what media packets do to the ring and
  -- the number.
  pub run-media :
      (st : SenderLoop Net) (es : List Event)
      → (ran st es).media
        ≡ (media_run w ssrc st.media (stamped st.ts_epoch_system st.ts_epoch es)).1
  unfolding run step media_run
  run-media st [] = refl
  run-media st (payload bytes now ∷ es) =
      run-media (step config w utf8 send_rtp send_rtcp remote ssrc st (payload bytes now)) es
  run-media st (rtcp bytes from recv_at clock ∷ es) =
      run-media
        (step config w utf8 send_rtp send_rtcp remote ssrc st (rtcp bytes from recv_at clock)) es
  run-media st (report now system_now ∷ es) =
      run-media (step config w utf8 send_rtp send_rtcp remote ssrc st (report now system_now)) es

  -- With a capacity that is a power of two and divides the sequence space, after any run of the
  -- sender's events: the ring holds each of the last `capacity` datagrams sent, under its number.
  pub get-run :
      (st : SenderLoop Net) (es : List Event) (j : ℕ)
      → IsRing (st.media.retransmit_buf.capacity - 1) st.media.retransmit_buf.capacity
      → st.media.seq < 2 ^ 16
      → j < length (stamped st.ts_epoch_system st.ts_epoch es)
      → length (stamped st.ts_epoch_system st.ts_epoch es) ≤ j + st.media.retransmit_buf.capacity
      → get (ran st es).media.retransmit_buf (wrapping_add st.media.seq j)
        ≡ get_elem? (media_run w ssrc st.media (stamped st.ts_epoch_system st.ts_epoch es)).0 j
  get-run st es j r h k recent =
      ap (λ t. get t.retransmit_buf (wrapping_add st.media.seq j)) (run-media st es)
      ∙ get-media_run w ssrc st.media (stamped st.ts_epoch_system st.ts_epoch es) j r h k recent
