-- ===== src/App.antt =====
-- The RTCP APP packets of rist-protocol/src/packet/rtcp_app.rs.
pub mod Packet
pub mod Tests
use bilbycast_rist.Prelude.{
  ℕ, zero, suc, ◌+◌, ◌-◌, ◌*◌, ◌/◌, ◌^◌, Bool, true, false, List, [], ◌∷◌, ◌++◌, if◌then◌else◌, ltb,
  ◌==◌, ◌&&◌, not, bit_and, bit_or, length, u16,
}
use bilbycast_rist.Wire.{
  Buf, Result, ok, err, panic, packet_too_short, or_panic, guard, ◌>>=◌, ◌>>◌,
}

abbrev pub rtcp_pt_app : ℕ
rtcp_pt_app = 204

abbrev pub rist_app_range_nack : ℕ
rist_app_range_nack = 0

abbrev pub rtt_echo_request : ℕ
rtt_echo_request = 2

abbrev pub rtt_echo_response : ℕ
rtt_echo_response = 3

-- `*b"RIST"`
abbrev pub rist_app_name : List ℕ
rist_app_name = 0x52 ∷ 0x49 ∷ 0x53 ∷ 0x54 ∷ []

abbrev pub max_range_nack_entries : ℕ
max_range_nack_entries = 512

pub record RttEchoRequest : Type 0 where
  pub ssrc : ℕ
  pub timestamp_msw : ℕ
  pub timestamp_lsw : ℕ

pub record RttEchoResponse : Type 0 where
  pub ssrc : ℕ
  pub timestamp_msw : ℕ
  pub timestamp_lsw : ℕ
  pub processing_delay_us : ℕ

-- `RangeNack` of this file, with its pairs of a start and a count.
pub record AppRangeNack : Type 0 where
  pub media_ssrc : ℕ
  pub entries : List (ℕ × ℕ)

pub data RistApp : Type 0 where
  echo_request : RttEchoRequest → RistApp
  echo_response : RttEchoResponse → RistApp
  range_nack : AppRangeNack → RistApp
  unknown : ℕ → List ℕ → RistApp

-- `==` of two byte strings
abbrev pub same_bytes : List ℕ → List ℕ → Bool
same_bytes [] [] = true
same_bytes [] (b ∷ bs) = false
same_bytes (a ∷ as') [] = false
same_bytes (a ∷ as') (b ∷ bs) = a == b && same_bytes as' bs

module _ (w : Buf) where
  -- The loop over the entries, with room for `n` more.
  unfoldable pub parse_pairs : ℕ → List ℕ → Result (List (ℕ × ℕ))
  parse_pairs zero r = ok []
  parse_pairs (suc n) r =
      let more = do
        (start, r1) ← or_panic (w.get_u16 r)
        (extra, r2) ← or_panic (w.get_u16 r1)
        rest ← parse_pairs n r2
        ok ((start, extra) ∷ rest)
      in if ltb (length r) 4 then ok [] else more

  abbrev pub parse_request : ℕ → List ℕ → ℕ → Result RistApp
  parse_request ssrc r len = do
    guard (not (ltb (length r) 8)) (packet_too_short 16 len)
    (msw, r1) ← or_panic (w.get_u32 r)
    (lsw, r2) ← or_panic (w.get_u32 r1)
    ok (echo_request (record { ssrc = ssrc; timestamp_msw = msw; timestamp_lsw = lsw }))

  abbrev pub parse_response : ℕ → List ℕ → ℕ → Result RistApp
  parse_response ssrc r len = do
    guard (not (ltb (length r) 12)) (packet_too_short 20 len)
    (msw, r1) ← or_panic (w.get_u32 r)
    (lsw, r2) ← or_panic (w.get_u32 r1)
    (delay, r3) ← or_panic (w.get_u32 r2)
    ok (
        echo_response (record {
          ssrc = ssrc;
          timestamp_msw = msw;
          timestamp_lsw = lsw;
          processing_delay_us = delay;
        }))

  unfoldable pub parse_body : ℕ → ℕ → List ℕ → List ℕ → Result RistApp
  unfolding parse_pairs
  parse_body subtype ssrc r buf =
      if subtype == rist_app_range_nack
      then (parse_pairs max_range_nack_entries r >>= λ entries.
          ok (range_nack (record { media_ssrc = ssrc; entries = entries })))
      else if subtype == rtt_echo_request
      then parse_request ssrc r (length buf)
      else if subtype == rtt_echo_response
      then parse_response ssrc r (length buf)
      else ok (unknown subtype buf)

  unfoldable pub parse : List ℕ → ℕ → Result RistApp
  unfolding parse_body
  parse buf subtype = do
    guard (not (ltb (length buf) 8)) (packet_too_short 8 (length buf))
    (ssrc, r1) ← or_panic (w.get_u32 buf)
    (name, r2) ← or_panic (w.copy_to_slice 4 r1)
    if same_bytes name rist_app_name
        then parse_body subtype ssrc r2 buf
        else ok (unknown subtype buf)

  unfoldable pub put_pairs : List (ℕ × ℕ) → List ℕ
  put_pairs [] = []
  put_pairs (e ∷ es) = w.put_u16 e.0 ++ (w.put_u16 e.1 ++ put_pairs es)

  abbrev pub put_header : ℕ → ℕ → List ℕ → List ℕ
  put_header subtype words rest =
      w.put_u8 (bit_or 0x80 subtype) ++ (w.put_u8 rtcp_pt_app ++ (w.put_u16 (u16 words) ++ rest))

  unfoldable pub serialize : RistApp → List ℕ
  unfolding put_pairs
  serialize (echo_request q) = put_header rtt_echo_request 4 (
      w.put_u32 q.ssrc
      ++ (w.put_slice rist_app_name ++ (w.put_u32 q.timestamp_msw ++ w.put_u32 q.timestamp_lsw)))
  serialize (echo_response q) = put_header rtt_echo_response 5 (
      w.put_u32 q.ssrc
      ++ (w.put_slice rist_app_name
          ++ (w.put_u32 q.timestamp_msw
              ++ (w.put_u32 q.timestamp_lsw ++ w.put_u32 q.processing_delay_us))))
  serialize (range_nack n) =
      put_header rist_app_range_nack ((12 + 4 * length n.entries) / 4 - 1)
        (w.put_u32 n.media_ssrc ++ (w.put_slice rist_app_name ++ put_pairs n.entries))
  serialize (unknown subtype bytes) =
      put_header (bit_and subtype 0x1f) ((4 + length bytes) / 4 - 1) (w.put_slice bytes)
