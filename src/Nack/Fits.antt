-- ===== src/Nack/Fits.antt =====
-- What the bitmask builder makes fits a packet.
use bilbycast_rist.Prelude.{
  ℕ, suc, ◌-◌, ◌^◌, ◌≤◌, ◌<◌, arith, inl, inr, List, [], ◌∷◌, ◌&&◌, leb, length, All, bit_or,
  wrapping_sub, Bool-cases,
}
use bilbycast_rist.Prelude.Bits.{bit_or_lt, pow_lt}
use bilbycast_rist.Nack.{NackListBuilder, build_bitmask, pack_bits, bitmask, entry_count}
use bilbycast_rist.Nack.Builder.{IsU16}
use bilbycast_rist.Nack.Packet.{EntriesFit, PacketFits}

pack_bits-Fits :
    (pid blp : ℕ) (seqs : List ℕ)
    → pid < 2 ^ 16
    → blp < 2 ^ 16
    → All IsU16 seqs
    → EntriesFit (bitmask (pack_bits (record { pid = pid; blp = blp }) seqs))
      × (length (pack_bits (record { pid = pid; blp = blp }) seqs) ≤ suc (length seqs))
unfolding pack_bits
pack_bits-Fits pid blp [] p b h = (((p, b), tt), omega arith)
pack_bits-Fits pid blp (s ∷ seqs) p b h =
    let diff = wrapping_sub s pid in
    elim (Bool-cases (leb 1 diff && leb diff 16)) [
      | inl e ↦
          let small : diff - 1 < 16 = ground (arith, e) in
          let rest =
            pack_bits-Fits pid (bit_or blp (2 ^ (diff - 1))) seqs p
              (bit_or_lt 16 blp (2 ^ (diff - 1)) b (pow_lt (diff - 1) 16 small)) h.1 in
          rw e (rest.0, omega (arith, rest.1))
      | inr e ↦
          let rest = pack_bits-Fits s 0 seqs h.0 (omega arith) h.1 in
          rw e (((p, b), rest.0), omega (arith, rest.1))
    ]

pub build_bitmask-Fits :
    (b : NackListBuilder) (seqs : List ℕ)
    → b.sender_ssrc < 2 ^ 32
    → b.media_ssrc < 2 ^ 32
    → All IsU16 seqs
    → PacketFits (build_bitmask b seqs) × (entry_count (build_bitmask b seqs).entries ≤ length seqs)
unfolding build_bitmask
build_bitmask-Fits b [] hs hm h =
    (record { sender_fits = hs; media_fits = hm; entries_fit = tt }, omega arith)
build_bitmask-Fits b (s ∷ seqs) hs hm h =
    let f = pack_bits-Fits s 0 seqs h.0 (omega arith) h.1 in
    (record { sender_fits = hs; media_fits = hm; entries_fit = f.0 }, f.1)
