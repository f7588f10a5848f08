-- ===== src/Receiver/Media/One.antt =====
-- What one datagram changes of the receiver, where nothing is ready behind it.
use bilbycast_rist.Prelude.{ℕ, ◌≡◌, refl, ap, ap₂, inl, inr, Bool-cases, true, some, []}
use bilbycast_rist.Wire.{received, Buf}
use bilbycast_rist.Guard.{SocketAddr, source_allowed}
use bilbycast_rist.Reorder.{insert}
use bilbycast_rist.Scheduler.{NackScheduler}
use bilbycast_rist.Scheduler
use bilbycast_rist.Receiver.State.{Receiver, RistSocketConfig}
use bilbycast_rist.Receiver.Media.{
  ParsedRtp, Datagram, parse_rtp, burst, on_batch, insert_all, account, count_packet, latch_rtp,
  differs, on_rtp,
}

latch_rtp-keeps :
    (src : SocketAddr) (st : Receiver)
    → ((latch_rtp src st).reorder ≡ st.reorder)
      × ((latch_rtp src st).stats ≡ st.stats)
      × ((latch_rtp src st).nack_scheduler ≡ st.nack_scheduler)
unfolding latch_rtp
latch_rtp-keeps src st = elim (Bool-cases (differs st.sender_rtp_addr src)) [
  | inl e ↦ rw e (refl, refl, refl)
  | inr e ↦ rw e (refl, refl, refl)
]

-- An admitted datagram that parses.
pub on_rtp-one :
    (config : RistSocketConfig) (w : Buf) (d : Datagram) (p : ParsedRtp) (arrived_at now : ℕ)
    (st : Receiver)
    → source_allowed d.src config.pinned_source_ip st.sender_rtp_addr st.rtp_peer_live arrived_at
      ≡ true
    → parse_rtp w (received d.bytes) d.arrival_us ≡ some p
    → let st' = on_rtp config w d [] arrived_at now st in
      (st'.reorder ≡ (insert st.reorder p.seq p.payload now).0)
      × (st'.stats ≡ count_packet st.stats p (insert st.reorder p.seq p.payload now).1)
      × (st'.nack_scheduler ≡ (Scheduler.on_packet_received st.nack_scheduler p.seq now).0)
unfolding on_rtp burst on_batch insert_all account
on_rtp-one config w d p arrived_at now st allowed e =
    let kept = latch_rtp-keeps d.src st in
    rw (allowed, e)
      (
        ap (λ b. (insert b p.seq p.payload now).0) kept.0,
        ap₂ (λ b s. count_packet s p (insert b p.seq p.payload now).1) kept.0 kept.1,
        ap (λ (s : NackScheduler). (Scheduler.on_packet_received s p.seq now).0) kept.2,
      )
