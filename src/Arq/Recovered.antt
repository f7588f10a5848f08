-- ===== src/Arq/Recovered.antt =====
-- From the sender's retransmit to the receiver's reorder buffer.
use bilbycast_rist.Prelude.{
  ℕ, ◌+◌, ◌-◌, ◌*◌, ◌^◌, ◌<◌, ◌≤◌, ◌≡◌, ◌≢◌, ◌∙◌, refl, ap, sym, subst, arith, max, true, false,
  some, List, [], ◌++◌, length, drop, length-append, drop-append, wrapping_add, if◌then◌else◌, ltb,
  leb, ◌&&◌, lt→ltb, ==_self, ne→not_eq,
}
use bilbycast_rist.Wire.{Buf, ok, max_udp_recv, received, received-whole}
use bilbycast_rist.Wire.BigEndian.{IsBigEndian, length-put_u8, length-put_u16, length-put_u32}
use bilbycast_rist.Guard.{SocketAddr, source_allowed}
use bilbycast_rist.Rtp.{RtpHeader, new_ts, is_retransmit, serialize_header, rtp_header_size}
use bilbycast_rist.Rtp
use bilbycast_rist.Rtp.Header.{parse-serialize_header}
use bilbycast_rist.Sender.{write_rtp_header, retx_copy}
use bilbycast_rist.Sender.Media.{retx_copy-write_rtp_header}
use bilbycast_rist.Sender.Recover.{write_rtp_header_lem, flags}
use bilbycast_rist.Reorder.{InsertOutcome, insert, is_filled, filled, gap}
use bilbycast_rist.Reorder.Window.{Window, content}
use bilbycast_rist.Reorder.Admit.{insert-Admits, admit_outcome}
use bilbycast_rist.Receiver.Media.One.{on_rtp-one}
use bilbycast_rist.Receiver.State.{Receiver, RistSocketConfig, fetch_add}
use bilbycast_rist.Receiver.Media.{ParsedRtp, Datagram, parsed, parse_rtp, count_packet, on_rtp}

module _ {w : Buf} (be : IsBigEndian w) where
  length-write_rtp_header :
      (ssrc seq timestamp : ℕ) → length (write_rtp_header w ssrc seq timestamp) ≡ 12
  unfolding write_rtp_header
  length-write_rtp_header ssrc seq timestamp = omega (
    arith,
    length-append (w.put_u8 0x80)
        (w.put_u8 33 ++ (w.put_u16 seq ++ (w.put_u32 timestamp ++ w.put_u32 ssrc))),
    length-append (w.put_u8 33) (w.put_u16 seq ++ (w.put_u32 timestamp ++ w.put_u32 ssrc)),
    length-append (w.put_u16 seq) (w.put_u32 timestamp ++ w.put_u32 ssrc),
    length-append (w.put_u32 timestamp) (w.put_u32 ssrc),
    length-put_u8 be 0x80,
    length-put_u8 be 33,
    length-put_u16 be seq,
    length-put_u32 be timestamp,
    length-put_u32 be ssrc,
  )

  abbrev parsed_as : ℕ → ℕ → ℕ → List ℕ → ℕ → ParsedRtp
  parsed_as ssrc seq timestamp payload arrival_us = record {
    seq = seq;
    ssrc = ssrc;
    rtp_ts = timestamp;
    payload = payload;
    arrival_us = arrival_us;
    payload_len = length payload;
    is_retransmit = is_retransmit (new_ts ssrc seq timestamp);
  }

  parse_rtp-datagram :
      (ssrc seq timestamp : ℕ) (payload : List ℕ) (arrival_us : ℕ)
      → ssrc < 2 ^ 32
      → seq < 2 ^ 16
      → timestamp < 2 ^ 32
      → parse_rtp w (write_rtp_header w ssrc seq timestamp ++ payload) arrival_us
        ≡ some (parsed_as ssrc seq timestamp payload arrival_us)
  unfolding parse_rtp new_ts
  parse_rtp-datagram ssrc seq timestamp payload arrival_us hs hq ht =
      let buf = write_rtp_header w ssrc seq timestamp ++ payload in
      let header : Rtp.parse_header w buf ≡ ok (new_ts ssrc seq timestamp, rtp_header_size) =
        ap (λ t. Rtp.parse_header w (t ++ payload)) (write_rtp_header_lem be ssrc seq timestamp)
        ∙ parse-serialize_header be (new_ts ssrc seq timestamp) payload
            (record {
              version_is = refl;
              csrc_fits = omega arith;
              type_fits = omega arith;
              seq_fits = hq;
              timestamp_fits = ht;
              ssrc_fits = hs;
            })
            (omega arith) in
      let rest : drop 12 buf ≡ payload =
        ap (λ k. drop k buf) (sym (length-write_rtp_header ssrc seq timestamp))
        ∙ drop-append (write_rtp_header w ssrc seq timestamp) payload in
      let size : length buf - 12 ≡ length payload = omega (
        arith,
        length-append (write_rtp_header w ssrc seq timestamp) payload,
        length-write_rtp_header ssrc seq timestamp,
      ) in
      ap (λ r. parsed r buf arrival_us) header ∙ rw (rest, size) refl

  -- With big-endian byte buffers, an even SSRC, fields that fit their widths, and a datagram that
  -- fits the receiver's buffer of 2048 bytes: when the sender's retransmit of a datagram comes from
  -- a source that the receiver admits, with nothing ready behind it, and its number is a gap of the
  -- reorder buffer's window, then the buffer holds the datagram's payload for that number, with the
  -- instant of this arrival, and all else as before, in the same window; one packet is counted as
  -- received, as a retransmit and as recovered, none as duplicate, dropped or lost.
  pub on_rtp-recovers :
      (config : RistSocketConfig) (half timestamp : ℕ) (payload : List ℕ) (src : SocketAddr)
      (arrival_us arrived_at now o : ℕ) {base highest n : ℕ} (st : Receiver)
      → half < 2 ^ 31
      → timestamp < 2 ^ 32
      → 12 + length payload ≤ max_udp_recv
      → Window st.reorder base highest n
      → o < n
      → is_filled (content st.reorder base o) ≡ false
      → source_allowed src config.pinned_source_ip st.sender_rtp_addr st.rtp_peer_live arrived_at
        ≡ true
      → let bytes =
          retx_copy (write_rtp_header w (half * 2) (wrapping_add base o) timestamp ++ payload) in
        let st' =
          on_rtp config w
            (record { bytes = bytes; src = src; arrival_us = arrival_us })
            []
            arrived_at
            now
            st in
        Window st'.reorder base highest n
        × (content st'.reorder base o ≡ filled payload now)
        × ((y : ℕ)
            → y < st.reorder.capacity
            → y ≢ o
            → content st'.reorder base y ≡ content st.reorder base y)
        × (st'.stats ≡ record st.stats {
          packets_received = fetch_add st.stats.packets_received 1;
          bytes_received = fetch_add st.stats.bytes_received (length payload);
          retransmits_received = fetch_add st.stats.retransmits_received 1;
          packets_recovered = fetch_add st.stats.packets_recovered 1;
        })
  unfolding count_packet
  on_rtp-recovers config half timestamp payload src arrival_us arrived_at now o {base} {highest} {n}
        st hh ht short v ho missing allowed =
      let seq = wrapping_add base o in
      let bytes = retx_copy (write_rtp_header w (half * 2) seq timestamp ++ payload) in
      let d : Datagram = record { bytes = bytes; src = src; arrival_us = arrival_us } in
      let p = parsed_as (half * 2 + 1) seq timestamp payload arrival_us in
      let copy = write_rtp_header w (half * 2 + 1) seq timestamp ++ payload in
      let size = length-append (write_rtp_header w (half * 2 + 1) seq timestamp) payload in
      let reads : parse_rtp w (received bytes) arrival_us ≡ some p =
        ap (λ t. parse_rtp w (received t) arrival_us)
          (retx_copy-write_rtp_header be half seq timestamp payload hh)
        ∙ ap (λ t. parse_rtp w t arrival_us)
            (received-whole copy
              (omega (arith, short, size, length-write_rtp_header (half * 2 + 1) seq timestamp)))
        ∙ parse_rtp-datagram (half * 2 + 1) seq timestamp payload arrival_us (omega arith)
            (omega arith) ht in
      let after = on_rtp-one config w d p arrived_at now st allowed reads in
      let (admits, outcome) = insert-Admits v o payload now (omega (arith, v.fits)) in
      let b' = (insert st.reorder seq payload now).0 in
      let n' : max n (o + 1) ≡ n = omega arith in
      let marked = (flags be half seq timestamp hh).1 in
      let inside : ltb o n ≡ true = lt→ltb o n ho in
      let held : Window b' base highest n =
        subst (λ t. Window b' base t n) (sym v.span)
          (subst (λ k. Window b' base (wrapping_add base (k + (2 ^ 16 - 1))) k) n' admits.window) in
      (
        subst (λ b. Window b base highest n) (sym after.0) held,
        ap (λ b. content b base o) after.0
            ∙ admits.contents o (omega (arith, v.fits))
            ∙ rw (==_self o) (rw inside (rw missing refl)),
        λ y hy ne.
            ap (λ b. content b base y) after.0
            ∙ admits.contents y hy
            ∙ rw (ne→not_eq y o ne) (outside y),
        after.1
            ∙ ap (count_packet st.stats p) (outcome ∙ mends inside)
            ∙ ap (λ r. count_packet st.stats (record p { is_retransmit = r }) mended) marked,
      )
    where
      outside :
          (y : ℕ)
          → (if leb n y && ltb y o then gap now else content st.reorder base y)
            ≡ content st.reorder base y
      outside y = ground arith

      mended : InsertOutcome
      mended = record {
        stale = false;
        duplicate = false;
        recovered = true;
        new_gaps = 0;
        overflow_flushed = 0;
      }

      mends : ltb o n ≡ true → admit_outcome (content st.reorder base) n o ≡ mended
      mends e = let none_new : o - n ≡ 0 = omega arith in rw e (rw (missing, none_new) refl)
