-- ===== src/Receiver/Steps/Inert.antt =====
-- What a stranger can do to a receiver whose peer is live.
use bilbycast_rist.Prelude.{
  ℕ, ◌+◌, ◌-◌, ◌<◌, ◌≡◌, ◌≢◌, inl, inr, ◌∙◌, refl, ap, arith, max, Bool, true, false, Option, none,
  some, List, [], ◌∷◌, ◌≤◌, length, length-append, if◌then◌else◌, ◌&&◌, ltb, Bool-cases,
}
use bilbycast_rist.Wire.{Buf, received}
use bilbycast_rist.Guard.{
  IpAddr, SocketAddr, same_addr, same_ip, source_allowed, peer_takeover_grace, foreign_to_pin,
}
use bilbycast_rist.Guard.Takeover.{same_ip_iff}
use bilbycast_rist.Receiver.State.{Receiver, RistSocketConfig}
use bilbycast_rist.Receiver.Media.{ParsedRtp, Datagram, parse_rtp, push, burst, max_batch, on_rtp}
use bilbycast_rist.Receiver.Control.{later_of}
use bilbycast_rist.Receiver.Steps.{Event, rtp, rtcp, pump, report, step, run}

-- A datagram from another address.
abbrev pub FromStranger : IpAddr → Event → Type 0
FromStranger ip (rtp d ready arrived_at now) = d.src.ip ≢ ip
FromStranger ip (rtcp bytes from now clock) = from.ip ≢ ip
FromStranger ip (pump jitter now) = ⊥
FromStranger ip (report jitter now) = ⊥

-- The instant at which an event is admitted.
abbrev pub at : Event → ℕ
at (rtp d ready arrived_at now) = arrived_at
at (rtcp bytes from now clock) = now
at (pump jitter now) = now
at (report jitter now) = now

-- Media has come from `ip` less than the grace period ago, and both slots are at that address.
abbrev pub HeldBy : IpAddr → Receiver → ℕ → Type 0
HeldBy ip st now =
    (a : SocketAddr) × (c : SocketAddr) × (live : ℕ) × (st.sender_rtp_addr ≡ some a)
    × (st.sender_rtcp_addr ≡ some c)
    × (st.rtp_peer_live ≡ some live)
    × (a.ip ≡ ip)
    × (c.ip ≡ ip)
    × (now < live + peer_takeover_grace)

rejected :
    (from : SocketAddr) (pin : Option IpAddr) (cur : SocketAddr) (live now : ℕ)
    → from.ip ≢ cur.ip
    → now < live + peer_takeover_grace
    → source_allowed from pin (some cur) (some live) now ≡ false
unfolding source_allowed
rejected from pin cur live now q h =
    let other : same_ip from.ip cur.ip ≡ false = elim (Bool-cases (same_ip from.ip cur.ip)) [
      | inl t ↦ absurd (q ((same_ip_iff from.ip cur.ip).0 t))
      | inr f ↦ f
    ] in
    let held : ltb (now - live) peer_takeover_grace ≡ true = ground (arith, h) in
    elim (Bool-cases (foreign_to_pin from pin)) [
      | inl e ↦ rw e refl
      | inr e ↦ rw e (rw (other, held) refl)
    ]

rejected_later :
    (from : SocketAddr) (pin : Option IpAddr) (cur : SocketAddr) (control : Option ℕ) (live now : ℕ)
    → from.ip ≢ cur.ip
    → now < live + peer_takeover_grace
    → source_allowed from pin (some cur) (later_of control (some live)) now ≡ false
rejected_later from pin cur none live now q h = rejected from pin cur live now q h
rejected_later from pin cur (some l) live now q h =
    rejected from pin cur (max l live) now q (omega arith)

push-grows :
    (batch : List ParsedRtp) (p : Option ParsedRtp) → length (push batch p) ≤ length batch + 1
push-grows batch none = omega arith
push-grows batch (some p) = omega (arith, length-append batch (p ∷ []))

module _ {Net : Type 0} (config : RistSocketConfig) (w : Buf) (from_utf8_lossy : List ℕ → List ℕ)
    (send_rtcp : Net → List ℕ → SocketAddr → Net × Bool) (ssrc : ℕ) where
  -- Of a burst, the datagrams that come from the source of its first one.
  abbrev pub from_source : SocketAddr → List Datagram → List Datagram
  from_source src [] = []
  from_source src (d ∷ ds) =
      let rest = from_source src ds in if same_addr d.src src then d ∷ rest else rest

  -- Within the bound on the datagrams read, the others leave no trace.
  burst-from_source :
      (src : SocketAddr) (ready : List Datagram) (batch : List ParsedRtp) (read read' : ℕ)
      → length batch ≤ read'
      → read' ≤ read
      → read + length ready ≤ max_batch
      → burst w src ready batch read ≡ burst w src (from_source src ready) batch read'
  unfolding burst
  burst-from_source src [] batch read read' h k n = refl
  burst-from_source src (d ∷ ds) batch read read' h k n =
      let more : (ltb (length batch) max_batch && ltb read max_batch) ≡ true =
        ground (arith, h, k, n) in
      let more' : (ltb (length batch) max_batch && ltb read' max_batch) ≡ true =
        ground (arith, h, k, n) in
      elim (Bool-cases (same_addr d.src src)) [
        | inl e ↦
            rw (e, more)
              (rw (e, more')
                (burst-from_source src ds (push batch (parse_rtp w (received d.bytes) d.arrival_us))
                  (read + 1) (read' + 1)
                  (omega (arith, h, push-grows batch (parse_rtp w (received d.bytes) d.arrival_us)))
                  (omega arith) (omega (arith, n))))
        | inr e ↦
            rw (e, more)
              (burst-from_source src ds batch (read + 1) read' h (omega (arith, k))
                (omega (arith, n)))
      ]

  step_burst :
      (st : Receiver) (net : Net) (d : Datagram) (ready : List Datagram) (arrived_at now : ℕ)
      → length ready < max_batch
      → step config w from_utf8_lossy send_rtcp ssrc (st, net) (rtp d ready arrived_at now)
        ≡ step config w from_utf8_lossy send_rtcp ssrc
            (st, net)
            (rtp d (from_source d.src ready) arrived_at now)
  unfolding step on_rtp
  step_burst st net d ready arrived_at now short =
      let first = parse_rtp w (received d.bytes) d.arrival_us in
      rw
        (burst-from_source d.src ready (push [] first) 1 1 (push-grows [] first) (omega arith)
          (omega (arith, short)))
        refl

  step_stranger :
      (ip : IpAddr) (st : Receiver) (net : Net) (e : Event)
      → FromStranger ip e
      → HeldBy ip st (at e)
      → step config w from_utf8_lossy send_rtcp ssrc (st, net) e ≡ (st, net)
  unfolding step
  step_stranger ip st net (rtp d ready arrived_at now) q (a, c, live, ea, ec, el, ia, ic, h) =
      let no : source_allowed d.src config.pinned_source_ip st.sender_rtp_addr st.rtp_peer_live
            arrived_at
          ≡ false =
        rw (ea, el)
          (rejected d.src config.pinned_source_ip a live arrived_at (λ f. q (f ∙ ia)) h) in
      rw no refl
  step_stranger ip st net (rtcp bytes from now clock) q (a, c, live, ea, ec, el, ia, ic, h) =
      let no : source_allowed from config.pinned_source_ip st.sender_rtcp_addr
            (later_of st.rtcp_peer_live st.rtp_peer_live) now
          ≡ false =
        rw (ec, el)
          (rejected_later from config.pinned_source_ip c st.rtcp_peer_live live now
            (λ f. q (f ∙ ic)) h) in
      rw no refl
  step_stranger ip st net (pump jitter now) q h = absurd q
  step_stranger ip st net (report jitter now) q h = absurd q

  -- A run in which each datagram from a stranger comes while the peer at `ip` is live, or is read
  -- behind one of another event in a burst of at most 32; and in the same order the events without
  -- those datagrams.
  pub data Strangers (ip : IpAddr) : Receiver × Net → List Event → List Event → Type 0 where
    done : (st : Receiver × Net) → Strangers ip st [] []
    own :
        (st : Receiver × Net) (e : Event) (es kept : List Event)
        → Strangers ip (step config w from_utf8_lossy send_rtcp ssrc st e) es kept
        → Strangers ip st (e ∷ es) (e ∷ kept)
    mixed :
        (st : Receiver × Net) (d : Datagram) (ready : List Datagram) (arrived_at now : ℕ)
        (es kept : List Event)
        → length ready < max_batch
        → Strangers ip
            (step config w from_utf8_lossy send_rtcp ssrc st (rtp d ready arrived_at now))
            es
            kept
        → Strangers ip st
            (rtp d ready arrived_at now ∷ es)
            (rtp d (from_source d.src ready) arrived_at now ∷ kept)
    stranger :
        (st : Receiver × Net) (e : Event) (es kept : List Event)
        → FromStranger ip e
        → HeldBy ip st.0 (at e)
        → Strangers ip (step config w from_utf8_lossy send_rtcp ssrc st e) es kept
        → Strangers ip st (e ∷ es) kept

  -- However many datagrams a stranger sends to either socket while the peer is live (media came
  -- from its address less than the grace period before, and both slots are at that address), and
  -- however many a burst of at most 32 holds that come from another source than its first: the
  -- receiver's state and what it sends at the end of the run are as if none of them had come.
  pub run_strangers :
      (ip : IpAddr) {st : Receiver × Net} {es kept : List Event}
      → Strangers ip st es kept
      → run config w from_utf8_lossy send_rtcp ssrc st es
        ≡ run config w from_utf8_lossy send_rtcp ssrc st kept
  unfolding run
  run_strangers ip (done st) = refl
  run_strangers ip (own st e es kept r) = run_strangers ip r
  run_strangers ip (mixed st d ready arrived_at now es kept short r) =
      run_strangers ip r
      ∙ ap (λ t. run config w from_utf8_lossy send_rtcp ssrc t kept)
          (step_burst st.0 st.1 d ready arrived_at now short)
  run_strangers ip (stranger st e es kept q h r) =
      run_strangers ip r
      ∙ ap (λ t. run config w from_utf8_lossy send_rtcp ssrc t kept)
          (step_stranger ip st.0 st.1 e q h)
