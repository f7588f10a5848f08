-- ===== src/Sender/Media.antt =====
-- Media packets: what the sender puts on the wire is what it can retransmit.
use bilbycast_rist.Prelude.{
  ℕ, zero, suc, some, ◌+◌, ◌-◌, ◌*◌, ◌/◌, ◌%◌, ◌^◌, ◌≤◌, ◌<◌, ◌≡◌, ◌∙◌, refl, ap, sym, arith, true,
  List, [], ◌∷◌, ◌++◌, ltb, length, wrapping_add, bit_or, get_elem?, take, drop, length-take,
  length-drop, take-drop, get_elem?-drop,
}
use bilbycast_rist.Prelude.Bits.{bit_or-shifted}
use mathlib.Core.Option
use bilbycast_rist.Ring.{IsRing}
use bilbycast_rist.Wire.{Buf}
use bilbycast_rist.Wire.BigEndian.{IsBigEndian}
use bilbycast_rist.Retransmit.{get}
use bilbycast_rist.Retransmit.History.{insert_run, get-insert_run}
use bilbycast_rist.Sender.{MediaState, on_media, write_rtp_header, retx_copy}

-- The media branch for a list of timestamps and payloads: the datagrams, oldest first, and the state.
unfoldable pub media_run : Buf → ℕ → MediaState → List (ℕ × List ℕ) → List (List ℕ) × MediaState
media_run w ssrc st [] = ([], st)
media_run w ssrc st (m ∷ ms) =
    let (datagram, st') = on_media w ssrc st m.0 m.1 in
    let (datagrams, end) = media_run w ssrc st' ms in (datagram ∷ datagrams, end)

media_run-insert_run :
    (w : Buf) (ssrc : ℕ) (st : MediaState) (ms : List (ℕ × List ℕ))
    → (media_run w ssrc st ms).1.retransmit_buf
      ≡ insert_run st.retransmit_buf st.seq (media_run w ssrc st ms).0
unfolding media_run insert_run on_media
media_run-insert_run w ssrc st [] = refl
media_run-insert_run w ssrc st (m ∷ ms) =
    media_run-insert_run w ssrc (on_media w ssrc st m.0 m.1).1 ms

or_one : (x : ℕ) → bit_or (x / 2 * 2) 1 ≡ x / 2 * 2 + 1
or_one x = bit_or-shifted 1 (x / 2) 1 (omega arith)

flag_last :
    (a b c d e f g h i j k l : ℕ) (payload : List ℕ)
    → retx_copy (a ∷ b ∷ c ∷ d ∷ e ∷ f ∷ g ∷ h ∷ i ∷ j ∷ k ∷ l ∷ payload)
      ≡ (a ∷ b ∷ c ∷ d ∷ e ∷ f ∷ g ∷ h ∷ i ∷ j ∷ k ∷ bit_or l 1 ∷ payload)
unfolding retx_copy
flag_last a b c d e f g h i j k l payload =
    let long : ltb 11 (length (a ∷ b ∷ c ∷ d ∷ e ∷ f ∷ g ∷ h ∷ i ∷ j ∷ k ∷ l ∷ payload)) ≡ true =
      ground arith in
    rw long refl

pub length-media_run :
    (w : Buf) (ssrc : ℕ) (st : MediaState) (ms : List (ℕ × List ℕ))
    → length (media_run w ssrc st ms).0 ≡ length ms
unfolding media_run
length-media_run w ssrc st [] = refl
length-media_run w ssrc st (m ∷ ms) =
    ap suc (length-media_run w ssrc (on_media w ssrc st m.0 m.1).1 ms)

-- The datagram of each packet of a run.
pub get_elem?-media_run :
    (w : Buf) (ssrc : ℕ) (st : MediaState) (ms : List (ℕ × List ℕ)) (j : ℕ) {m : ℕ × List ℕ}
    → st.seq < 2 ^ 16
    → get_elem? ms j ≡ some m
    → get_elem? (media_run w ssrc st ms).0 j
      ≡ some (write_rtp_header w ssrc (wrapping_add st.seq j) m.0 ++ m.1)
unfolding media_run on_media
get_elem?-media_run w ssrc st [] j h e = cc
get_elem?-media_run w ssrc st (n ∷ ms) zero h e =
    let here : wrapping_add st.seq 0 ≡ st.seq = omega arith in
    rw here (ap (Option.map (λ (m : ℕ × List ℕ). write_rtp_header w ssrc st.seq m.0 ++ m.1)) e)
get_elem?-media_run w ssrc st (n ∷ ms) (suc j) {m} h e =
    let next : wrapping_add (wrapping_add st.seq 1) j ≡ wrapping_add st.seq (suc j) = omega arith in
    get_elem?-media_run w ssrc (on_media w ssrc st n.0 n.1).1 ms j (omega arith) e
    ∙ ap (λ k. some (write_rtp_header w ssrc k m.0 ++ m.1)) next

-- With a capacity that is a power of two and divides the sequence space, after any run of media
-- packets: each of the last `capacity` of them is found in the ring, under its sequence number, as
-- the datagram that was sent.
pub get-media_run :
    (w : Buf) (ssrc : ℕ) (st : MediaState) (ms : List (ℕ × List ℕ)) (j : ℕ)
    → IsRing (st.retransmit_buf.capacity - 1) st.retransmit_buf.capacity
    → st.seq < 2 ^ 16
    → j < length ms
    → length ms ≤ j + st.retransmit_buf.capacity
    → get (media_run w ssrc st ms).1.retransmit_buf (wrapping_add st.seq j)
      ≡ get_elem? (media_run w ssrc st ms).0 j
get-media_run w ssrc st ms j r hs hj recent =
    let ds = (media_run w ssrc st ms).0 in
    let len = length-media_run w ssrc st ms in
    let old : length (take j ds) ≡ j = omega (arith, length-take j ds, len) in
    ap (λ t. get t (wrapping_add st.seq j)) (media_run-insert_run w ssrc st ms)
    ∙ ap (λ t. get (insert_run st.retransmit_buf st.seq t) (wrapping_add st.seq j))
        (sym (take-drop j ds))
    ∙ ap
        (λ (t : ℕ).
          get (insert_run st.retransmit_buf st.seq (take j ds ++ drop j ds))
            (wrapping_add st.seq t))
        {x = j} {y = length (take j ds) + 0} (omega (arith, old))
    ∙ get-insert_run st.retransmit_buf st.seq (take j ds) (drop j ds) 0 r hs
        (omega (arith, length-drop j ds, len)) (omega (arith, length-drop j ds, len))
    ∙ get_elem?-drop j ds

module _ {w : Buf} (be : IsBigEndian w) where
  header_bytes :
      (ssrc seq timestamp : ℕ) (payload : List ℕ)
      → write_rtp_header w ssrc seq timestamp ++ payload ≡ (
          0x80
          ∷ 33
          ∷ seq / 2 ^ 8 % 2 ^ 8
          ∷ seq % 2 ^ 8
          ∷ timestamp / 2 ^ 24 % 2 ^ 8
          ∷ timestamp / 2 ^ 16 % 2 ^ 8
          ∷ timestamp / 2 ^ 8 % 2 ^ 8
          ∷ timestamp % 2 ^ 8
          ∷ ssrc / 2 ^ 24 % 2 ^ 8
          ∷ ssrc / 2 ^ 16 % 2 ^ 8
          ∷ ssrc / 2 ^ 8 % 2 ^ 8
          ∷ ssrc % 2 ^ 8
          ∷ payload)
  unfolding write_rtp_header
  header_bytes ssrc seq timestamp payload = rw (be.put_u8_be 0x80) (
      rw (be.put_u8_be 33)
        (rw (be.put_u16_be seq) (rw (be.put_u32_be timestamp) (rw (be.put_u32_be ssrc) refl))))

  -- The copy that a retransmit sends differs from the datagram in its SSRC alone, which is the next
  -- number, the odd one that marks a retransmit.
  pub retx_copy-write_rtp_header :
      (half seq timestamp : ℕ) (payload : List ℕ)
      → half < 2 ^ 31
      → retx_copy (write_rtp_header w (half * 2) seq timestamp ++ payload)
        ≡ write_rtp_header w (half * 2 + 1) seq timestamp ++ payload
  unfolding retx_copy
  retx_copy-write_rtp_header half seq timestamp payload h =
      let x = half * 2 in
      let b3 : x / 2 ^ 24 % 2 ^ 8 ≡ (x + 1) / 2 ^ 24 % 2 ^ 8 = omega arith in
      let b2 : x / 2 ^ 16 % 2 ^ 8 ≡ (x + 1) / 2 ^ 16 % 2 ^ 8 = omega arith in
      let b1 : x / 2 ^ 8 % 2 ^ 8 ≡ (x + 1) / 2 ^ 8 % 2 ^ 8 = omega arith in
      let even : x % 2 ^ 8 ≡ x % 2 ^ 8 / 2 * 2 = omega arith in
      let b0 : bit_or (x % 2 ^ 8) 1 ≡ (x + 1) % 2 ^ 8 =
        ap (λ t. bit_or t 1) even ∙ or_one (x % 2 ^ 8) ∙ omega arith in
      ap retx_copy (header_bytes x seq timestamp payload)
      ∙ flag_last _ _ _ _ _ _ _ _ _ _ _ _ payload
      ∙ rw b3 (rw b2 (rw b1 (rw b0 refl)))
      ∙ sym (header_bytes (x + 1) seq timestamp payload)
