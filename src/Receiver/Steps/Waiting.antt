-- ===== src/Receiver/Steps/Waiting.antt =====
-- What happens at the receiver while a number waits for its first request.
use bilbycast_rist.Prelude.{
  ℕ, ◌+◌, ◌^◌, ◌<◌, ◌≡◌, sym, subst, Bool, true, false, Option, none, some, List, [], ◌∷◌,
  if◌then◌else◌, Bool-cases, inl, inr,
}
use bilbycast_rist.Wire.{Buf, Result, ok, err, panic, received}
use bilbycast_rist.Guard.{SocketAddr, source_allowed}
use bilbycast_rist.App.{echo_request, echo_response, range_nack, unknown}
use bilbycast_rist.Compound.{
  RtcpPacket, sender_report, receiver_report, sdes, nack, app, unknown_packet, parse_compound,
}
use bilbycast_rist.Rtt.{on_response}
use bilbycast_rist.Scheduler.{NackScheduler, max_trackable_gap, get_pending_nacks}
use bilbycast_rist.Scheduler.Asked.{
  Waits, Spares, delay-Waits, get_pending_nacks-Waits, spared-Waits,
}
use bilbycast_rist.Receiver.State.{Receiver, RistSocketConfig}
use bilbycast_rist.Receiver.Media.{ParsedRtp, Datagram, parse_rtp, on_rtp}
use bilbycast_rist.Receiver.Media.One.{on_rtp-one}
use bilbycast_rist.Receiver.Control.{tighten, later_of, on_packet, on_packets, on_compound, on_rtcp}
use bilbycast_rist.Receiver.Pump.{request_pending, pump_to, on_pump, report_to, on_report}
use bilbycast_rist.Receiver.Steps.{Event, rtp, rtcp, pump, report, step, run}

-- The receiver's number `x` waits.
abbrev pub Holds : Receiver → ℕ → ℕ → Type 0
Holds st x due = Waits st.nack_scheduler x due

Holds-if :
    (b : Bool) (s t : Receiver) (x due : ℕ)
    → Holds s x due
    → Holds t x due
    → Holds (if b then s else t) x due
Holds-if true s t x due v u = v
Holds-if false s t x due v u = u

tighten-Holds :
    (rtt : Option ℕ) (st : Receiver) (x due : ℕ) → Holds st x due → Holds (tighten rtt st) x due
tighten-Holds none st x due v = v
tighten-Holds (some rtt) st x due v = delay-Waits st.nack_scheduler x due _ v

module _ {Net : Type 0} (config : RistSocketConfig) (w : Buf) (utf8 : List ℕ → List ℕ)
    (send_rtcp : Net → List ℕ → SocketAddr → Net × Bool) (ssrc : ℕ) where
  module _ (from : SocketAddr) (now x due : ℕ) where
    on_packet-Holds :
        (p : RtcpPacket) (at : ℕ) (st : Receiver) (net : Net)
        → Holds st x due
        → Holds (on_packet config w utf8 send_rtcp ssrc from now p at (st, net)).0 x due
    unfolding on_packet
    on_packet-Holds (sender_report r) at st net v = v
    on_packet-Holds (app (echo_request q)) at st net v = v
    on_packet-Holds (app (echo_response r)) at st net v =
        tighten-Holds _
          (record st {
            rtt_estimator =
                on_response st.rtt_estimator now r.timestamp_msw r.timestamp_lsw
                  r.processing_delay_us;
          })
          x due v
    on_packet-Holds (app (range_nack n)) at st net v = v
    on_packet-Holds (app (unknown t bytes)) at st net v = v
    on_packet-Holds (receiver_report r) at st net v = v
    on_packet-Holds (sdes d) at st net v = v
    on_packet-Holds (nack n) at st net v = v
    on_packet-Holds (unknown_packet t bytes) at st net v = v

    on_packets-Holds :
        (ps : List RtcpPacket) (clock : ℕ → ℕ) (i : ℕ) (st : Receiver × Net)
        → Holds st.0 x due
        → Holds (on_packets config w utf8 send_rtcp ssrc from now ps clock i st).0 x due
    unfolding on_packets
    on_packets-Holds [] clock i st v = v
    on_packets-Holds (p ∷ ps) clock i st v =
        on_packets-Holds ps clock (i + 1) _ (on_packet-Holds p (clock i) st.0 st.1 v)

    on_compound-Holds :
        (r : Result (List RtcpPacket)) (clock : ℕ → ℕ) (st : Receiver) (net : Net)
        → Holds st x due
        → Holds (on_compound config w utf8 send_rtcp ssrc from now r clock (st, net)).0 x due
    unfolding on_compound
    on_compound-Holds (ok []) clock st net v = v
    on_compound-Holds (ok (p ∷ ps)) clock st net v = on_packets-Holds (p ∷ ps) clock 0 _ v
    on_compound-Holds (err e) clock st net v = v
    on_compound-Holds panic clock st net v = v

    on_rtcp-Holds :
        (bytes : List ℕ) (clock : ℕ → ℕ) (st : Receiver) (net : Net)
        → Holds st x due
        → Holds (on_rtcp config w utf8 send_rtcp ssrc from now bytes clock (st, net)).0 x due
    unfolding on_rtcp
    on_rtcp-Holds bytes clock st net v =
        elim (Bool-cases (
          source_allowed from config.pinned_source_ip st.sender_rtcp_addr
            (later_of st.rtcp_peer_live st.rtp_peer_live) now)) [
              | inl e ↦
                  rw e (on_compound-Holds (parse_compound w utf8 (received bytes)) clock st net v)
              | inr e ↦ rw e v
            ]

  module _ (jitter now x due : ℕ) where
    request_pending-Holds :
        (pending : List ℕ) (dest : SocketAddr) (st : Receiver) (net : Net)
        → Holds st x due
        → Holds (request_pending config w send_rtcp ssrc jitter now pending dest st net).0 x due
    request_pending-Holds [] dest st net v = v
    request_pending-Holds (p ∷ ps) dest st net v = Holds-if _ _ _ x due v v

    pump_to-Holds :
        (dest : Option SocketAddr) (st : Receiver) (net : Net)
        → now < due
        → Holds st x due
        → Holds (pump_to config w send_rtcp ssrc jitter now dest st net).0 x due
    pump_to-Holds none st net early v = v
    pump_to-Holds (some dest) st net early v =
        request_pending-Holds (get_pending_nacks st.nack_scheduler now st.rtt_estimator.srtt).1 dest
          _ net (get_pending_nacks-Waits st.nack_scheduler x due now st.rtt_estimator.srtt v early)

    report_to-Holds :
        (dest : Option SocketAddr) (st : Receiver) (net : Net)
        → Holds st x due
        → Holds (report_to config w send_rtcp ssrc jitter now dest st net).0 x due
    report_to-Holds none st net v = v
    report_to-Holds (some dest) st net v = v

  -- A run from `st` while `x` waits until `due`: pumps before then, reports, RTCP datagrams from
  -- anyone, RTP datagrams that are not admitted, and packets that spare the slot of `x`, one by
  -- one.
  pub data Meanwhile (x due : ℕ) : Receiver × Net → List Event → Type 0 where
    done : (st : Receiver × Net) → Meanwhile x due st []
    pumped :
        (st : Receiver × Net) (jitter now : ℕ) (es : List Event)
        → now < due
        → Meanwhile x due (step config w utf8 send_rtcp ssrc st (pump jitter now)) es
        → Meanwhile x due st (pump jitter now ∷ es)
    reported :
        (st : Receiver × Net) (jitter now : ℕ) (es : List Event)
        → Meanwhile x due (step config w utf8 send_rtcp ssrc st (report jitter now)) es
        → Meanwhile x due st (report jitter now ∷ es)
    controlled :
        (st : Receiver × Net) (bytes : List ℕ) (from : SocketAddr) (now : ℕ) (clock : ℕ → ℕ)
        (es : List Event)
        → Meanwhile x due (step config w utf8 send_rtcp ssrc st (rtcp bytes from now clock)) es
        → Meanwhile x due st (rtcp bytes from now clock ∷ es)
    refused :
        (st : Receiver × Net) (d : Datagram) (ready : List Datagram) (arrived_at now : ℕ)
        (es : List Event)
        → source_allowed d.src config.pinned_source_ip st.0.sender_rtp_addr st.0.rtp_peer_live
            arrived_at
          ≡ false
        → Meanwhile x due (step config w utf8 send_rtcp ssrc st (rtp d ready arrived_at now)) es
        → Meanwhile x due st (rtp d ready arrived_at now ∷ es)
    spared :
        (st : Receiver × Net) (d : Datagram) (p : ParsedRtp) (arrived_at now : ℕ) (es : List Event)
        → source_allowed d.src config.pinned_source_ip st.0.sender_rtp_addr st.0.rtp_peer_live
            arrived_at
          ≡ true
        → parse_rtp w (received d.bytes) d.arrival_us ≡ some p
        → st.0.nack_scheduler.active_count + max_trackable_gap < 2 ^ 32
        → Spares st.0.nack_scheduler st.0.nack_scheduler.expected_seq x p.seq
        → Meanwhile x due (step config w utf8 send_rtcp ssrc st (rtp d [] arrived_at now)) es
        → Meanwhile x due st (rtp d [] arrived_at now ∷ es)

  pub run-Holds :
      (x due : ℕ) {st : Receiver × Net} {es : List Event}
      → Meanwhile x due st es
      → Holds st.0 x due
      → Holds (run config w utf8 send_rtcp ssrc st es).0 x due
  unfolding run step on_pump on_report on_rtp
  run-Holds x due (done st) v = v
  run-Holds x due (pumped st jitter now es early m) v =
      run-Holds x due m (pump_to-Holds jitter now x due st.0.sender_rtcp_addr st.0 st.1 early v)
  run-Holds x due (reported st jitter now es m) v =
      run-Holds x due m (report_to-Holds jitter now x due st.0.sender_rtcp_addr st.0 st.1 v)
  run-Holds x due (controlled st bytes from now clock es m) v =
      run-Holds x due m (on_rtcp-Holds from now x due bytes clock st.0 st.1 v)
  run-Holds x due (refused st d ready arrived_at now es refuses m) v =
      run-Holds x due m (rw refuses v)
  run-Holds x due (spared st d p arrived_at now es allows parses room q m) v = run-Holds x due m (
      subst (λ (s : NackScheduler). Waits s x due)
        (sym (on_rtp-one config w d p arrived_at now st.0 allows parses).2)
        (spared-Waits st.0.nack_scheduler x due p.seq now v room q))
