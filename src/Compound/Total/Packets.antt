-- ===== src/Compound/Total/Packets.antt =====
-- Every packet of a compound ends as a packet.
use bilbycast_rist.Prelude.{
  ℕ, zero, suc, ◌+◌, ◌-◌, ◌*◌, ◌/◌, ◌≤◌, ◌≡◌, inl, inr, refl, arith, Bool, true, false, List, [],
  ◌∷◌, ltb, not, ◌==◌, length, not_ltb→le, Bool-cases, if◌then◌else◌,
}
use bilbycast_rist.Wire.{Buf, Result, ok, err, panic}
use bilbycast_rist.Wire.BigEndian.{IsBigEndian}
use bilbycast_rist.Wire.Safe.{
  Safe, Safe-guard, Safe-bind, Safe-get_u16, Safe-get_u32, Safe-copy_to_slice4,
}
use bilbycast_rist.Report
use bilbycast_rist.Report.Description
use bilbycast_rist.Compound
use bilbycast_rist.Report.{parse_sr, parse_block, parse_blocks, parse_rr}
use bilbycast_rist.Report.Description.{parse_sdes}
use bilbycast_rist.Nack.{
  parse_bitmasks, parse_ranges, parse_entries, nack_fmt_generic, nack_fmt_range,
}
use bilbycast_rist.Nack
use bilbycast_rist.App.{
  parse_pairs, parse_body, parse_request, parse_response, same_bytes, rist_app_name,
}
use bilbycast_rist.App
use bilbycast_rist.Compound.{
  RtcpPacket, or_unknown, parse_packet, parse_packets, parse_compound, max_rtcp_sub_packets,
}

long_enough : (n k : ℕ) → not (ltb n k) ≡ true → k ≤ n
long_enough n k h = ground arith

module _ {w : Buf} (be : IsBigEndian w) where
  parse_sr-Safe : (buf : List ℕ) → Safe (parse_sr w buf)
  unfolding parse_sr
  parse_sr-Safe buf = Safe-guard _ _ _ λ h.
      let n = long_enough (length buf) 24 h in
      Safe-get_u32 be buf _ (omega (arith, n)) λ v1 r1 e1.
        Safe-get_u32 be r1 _ (omega (arith, n, e1)) λ v2 r2 e2.
          Safe-get_u32 be r2 _ (omega (arith, n, e1, e2)) λ v3 r3 e3.
            Safe-get_u32 be r3 _ (omega (arith, n, e1, e2, e3)) λ v4 r4 e4.
              Safe-get_u32 be r4 _ (omega (arith, n, e1, e2, e3, e4)) λ v5 r5 e5.
                Safe-get_u32 be r5 _ (omega (arith, n, e1, e2, e3, e4, e5)) λ v6 r6 e6. tt

  parse_block-Safe : (buf : List ℕ) → Safe (parse_block w buf)
  unfolding parse_block
  parse_block-Safe buf = Safe-guard _ _ _ λ h.
      let n = long_enough (length buf) 24 h in
      Safe-get_u32 be buf _ (omega (arith, n)) λ v1 r1 e1.
        Safe-get_u32 be r1 _ (omega (arith, n, e1)) λ v2 r2 e2.
          Safe-get_u32 be r2 _ (omega (arith, n, e1, e2)) λ v3 r3 e3.
            Safe-get_u32 be r3 _ (omega (arith, n, e1, e2, e3)) λ v4 r4 e4.
              Safe-get_u32 be r4 _ (omega (arith, n, e1, e2, e3, e4)) λ v5 r5 e5.
                Safe-get_u32 be r5 _ (omega (arith, n, e1, e2, e3, e4, e5)) λ v6 r6 e6. tt

  parse_blocks-Safe : (rc : ℕ) (buf : List ℕ) → Safe (parse_blocks w rc buf)
  unfolding parse_blocks
  parse_blocks-Safe zero buf = tt
  parse_blocks-Safe (suc rc) buf =
      Safe-bind _ _ (parse_block-Safe buf)
        λ b e. Safe-bind _ _ (parse_blocks-Safe rc b.1) λ bs e'. tt

  parse_rr-Safe : (buf : List ℕ) (rc : ℕ) → Safe (parse_rr w buf rc)
  unfolding parse_rr
  parse_rr-Safe buf rc = Safe-guard _ _ _ λ h.
      Safe-get_u32 be buf _ (long_enough (length buf) 4 h)
        λ v r e. Safe-bind _ _ (parse_blocks-Safe rc r) λ bs e'. tt

  parse_bitmasks-Safe : (n : ℕ) (r : List ℕ) → 4 * n ≤ length r → Safe (parse_bitmasks w n r)
  unfolding parse_bitmasks
  parse_bitmasks-Safe zero r h = tt
  parse_bitmasks-Safe (suc n) r h = Safe-get_u16 be r _ (omega arith) λ v1 r1 e1.
      Safe-get_u16 be r1 _ (omega (arith, e1, h))
        λ v2 r2 e2. Safe-bind _ _ (parse_bitmasks-Safe n r2 (omega (arith, e1, e2, h))) λ es e. tt

  parse_ranges-Safe : (n : ℕ) (r : List ℕ) → 4 * n ≤ length r → Safe (parse_ranges w n r)
  unfolding parse_ranges
  parse_ranges-Safe zero r h = tt
  parse_ranges-Safe (suc n) r h = Safe-get_u16 be r _ (omega arith) λ v1 r1 e1.
      Safe-get_u16 be r1 _ (omega (arith, e1, h))
        λ v2 r2 e2. Safe-bind _ _ (parse_ranges-Safe n r2 (omega (arith, e1, e2, h))) λ es e. tt

  parse_entries-Safe : (fmt n : ℕ) (r : List ℕ) → 4 * n ≤ length r → Safe (parse_entries w fmt n r)
  parse_entries-Safe fmt n r h = elim (Bool-cases (fmt == nack_fmt_generic)) [
    | inl e ↦ rw e (Safe-bind _ _ (parse_bitmasks-Safe n r h) λ v e'. tt)
    | inr e ↦ rw e (elim (Bool-cases (fmt == nack_fmt_range)) [
      | inl e' ↦ rw e' (Safe-bind _ _ (parse_ranges-Safe n r h) λ v e''. tt)
      | inr e' ↦ rw e' tt
    ])
  ]

  parse_nack-Safe : (buf : List ℕ) (fmt : ℕ) → Safe (Nack.parse w buf fmt (length buf))
  unfolding Nack.parse
  parse_nack-Safe buf fmt = Safe-guard _ _ _ λ h.
      let n = long_enough (length buf) 8 h in
      Safe-get_u32 be buf _ (omega (arith, n)) λ v1 r1 e1.
        Safe-get_u32 be r1 _ (omega (arith, n, e1)) λ v2 r2 e2.
          Safe-bind _ _
            (parse_entries-Safe fmt ((length buf - 8) / 4) r2 (omega (arith, n, e1, e2))) λ es e. tt

  parse_pairs-Safe : (n : ℕ) (r : List ℕ) → Safe (parse_pairs w n r)
  unfolding parse_pairs
  parse_pairs-Safe zero r = tt
  parse_pairs-Safe (suc n) r = elim (Bool-cases (ltb (length r) 4)) [
    | inl e ↦ rw e tt
    | inr e ↦ rw e (
        let h = not_ltb→le (length r) 4 e in
        Safe-get_u16 be r _ (omega (arith, h)) λ v1 r1 e1.
          Safe-get_u16 be r1 _ (omega (arith, e1, h))
            λ v2 r2 e2. Safe-bind _ _ (parse_pairs-Safe n r2) λ es e'. tt)
  ]

  parse_request-Safe : (ssrc : ℕ) (r : List ℕ) (len : ℕ) → Safe (parse_request w ssrc r len)
  parse_request-Safe ssrc r len = Safe-guard _ _ _ λ h.
      let n = long_enough (length r) 8 h in
      Safe-get_u32 be r _ (omega (arith, n))
        λ v1 r1 e1. Safe-get_u32 be r1 _ (omega (arith, n, e1)) λ v2 r2 e2. tt

  parse_response-Safe : (ssrc : ℕ) (r : List ℕ) (len : ℕ) → Safe (parse_response w ssrc r len)
  parse_response-Safe ssrc r len = Safe-guard _ _ _ λ h.
      let n = long_enough (length r) 12 h in
      Safe-get_u32 be r _ (omega (arith, n)) λ v1 r1 e1.
        Safe-get_u32 be r1 _ (omega (arith, n, e1))
          λ v2 r2 e2. Safe-get_u32 be r2 _ (omega (arith, n, e1, e2)) λ v3 r3 e3. tt

  Safe-if : (b : Bool) (x y : Result App.RistApp) → Safe x → Safe y → Safe (if b then x else y)
  Safe-if true x y h k = h
  Safe-if false x y h k = k

  parse_body-Safe : (subtype ssrc : ℕ) (r buf : List ℕ) → Safe (parse_body w subtype ssrc r buf)
  unfolding parse_body
  parse_body-Safe subtype ssrc r buf =
      Safe-if (subtype == App.rist_app_range_nack) _ _
        (Safe-bind _ _ (parse_pairs-Safe App.max_range_nack_entries r) λ es e. tt)
        (Safe-if (subtype == App.rtt_echo_request) _ _ (parse_request-Safe ssrc r (length buf)) (
          Safe-if (subtype == App.rtt_echo_response) _ _ (parse_response-Safe ssrc r (length buf))
            tt))

  parse_app-Safe : (buf : List ℕ) (subtype : ℕ) → Safe (App.parse w buf subtype)
  unfolding App.parse
  parse_app-Safe buf subtype = Safe-guard _ _ _ λ h.
      let n = long_enough (length buf) 8 h in
      Safe-get_u32 be buf _ (omega (arith, n)) λ ssrc r1 e1.
        Safe-copy_to_slice4 be r1 _ (omega (arith, n, e1)) λ name r2 e2.
          Safe-if (same_bytes name rist_app_name) _ _ (parse_body-Safe subtype ssrc r2 buf) tt

  parse_sdes-Safe : (utf8 : List ℕ → List ℕ) (buf : List ℕ) → Safe (parse_sdes utf8 buf)
  unfolding parse_sdes
  parse_sdes-Safe utf8 (a ∷ b ∷ c ∷ d ∷ t ∷ n ∷ r) =
      Safe-guard (t == 1) _ _ λ h. Safe-guard (not (ltb (6 + length r) (6 + n))) _ _ λ h'. tt
  parse_sdes-Safe utf8 [] = tt
  parse_sdes-Safe utf8 (a ∷ []) = tt
  parse_sdes-Safe utf8 (a ∷ b ∷ []) = tt
  parse_sdes-Safe utf8 (a ∷ b ∷ c ∷ []) = tt
  parse_sdes-Safe utf8 (a ∷ b ∷ c ∷ d ∷ []) = tt
  parse_sdes-Safe utf8 (a ∷ b ∷ c ∷ d ∷ t ∷ []) = tt

  or_unknown-ok {ℓ} :
      {A : Type ℓ} (f : A → RtcpPacket) (t : ℕ) (payload : List ℕ) (m : Result A)
      → Safe m
      → (p : RtcpPacket) × (or_unknown f t payload m ≡ ok p)
  or_unknown-ok f t payload (ok a) s = (f a, refl)
  or_unknown-ok f t payload (err e) s = (Compound.unknown_packet t payload, refl)
  or_unknown-ok f t payload panic s = absurd s

  Succeeds-if :
      (b : Bool) (x y : Result RtcpPacket)
      → (p : RtcpPacket) × (x ≡ ok p)
      → (p : RtcpPacket) × (y ≡ ok p)
      → (p : RtcpPacket) × ((if b then x else y) ≡ ok p)
  Succeeds-if true x y h k = h
  Succeeds-if false x y h k = k

  -- A packet that does not parse is kept as unknown.
  pub parse_packet-ok :
      (utf8 : List ℕ → List ℕ) (t count : ℕ) (payload : List ℕ)
      → (p : RtcpPacket) × (parse_packet w utf8 t count payload ≡ ok p)
  unfolding parse_packet
  parse_packet-ok utf8 t count payload =
      Succeeds-if (t == Report.rtcp_pt_sr) _ _ (or_unknown-ok _ t payload _ (parse_sr-Safe payload))
        (Succeeds-if (t == Report.rtcp_pt_rr) _ _
          (or_unknown-ok _ t payload _ (parse_rr-Safe payload count))
          (Succeeds-if (t == Description.rtcp_pt_sdes) _ _
            (or_unknown-ok _ t payload _ (parse_sdes-Safe utf8 payload))
            (Succeeds-if (t == Nack.rtcp_pt_rtpfb) _ _
              (or_unknown-ok _ t payload _ (parse_nack-Safe payload count))
              (Succeeds-if (t == App.rtcp_pt_app) _ _
                (or_unknown-ok _ t payload _ (parse_app-Safe payload count))
                (Compound.unknown_packet t payload, refl)))))
