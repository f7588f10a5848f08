-- ===== src/Nack.antt =====
-- The NACK packets of rist-protocol/src/packet/rtcp_nack.rs. An iterator of sequence numbers is the
-- list of them, and a `while` loop over a slice is a recursion on what is left of it.
pub mod Tests
pub mod Builder
pub mod Bitmask
pub mod Packet
pub mod Fits
pub mod Count
use bilbycast_rist.Prelude.{
  ℕ, zero, suc, ◌+◌, ◌-◌, ◌*◌, ◌/◌, ◌%◌, ◌^◌, Bool, true, false, List, [], ◌∷◌, ◌++◌, if◌then◌else◌,
  ltb, leb, ◌==◌, ◌&&◌, not, bit_and, bit_or, wrapping_add, wrapping_sub, length, u16,
}
use bilbycast_rist.Wire.{
  Buf, Result, ok, err, panic, packet_too_short, invalid_nack_format, or_panic, guard, ◌>>=◌, ◌>>◌,
}

abbrev pub rtcp_pt_rtpfb : ℕ
rtcp_pt_rtpfb = 205

abbrev pub nack_fmt_generic : ℕ
nack_fmt_generic = 1

abbrev pub nack_fmt_range : ℕ
nack_fmt_range = 15

pub record BitmaskNack : Type 0 where
  pub pid : ℕ
  pub blp : ℕ

pub record RangeNack : Type 0 where
  pub start : ℕ
  pub extra : ℕ

-- The bits `i`, `i + 1`, … of the mask, `n` of them.
unfoldable pub masked_seqs : ℕ → ℕ → BitmaskNack → List ℕ
masked_seqs zero i e = []
masked_seqs (suc n) i e =
    let rest = masked_seqs n (i + 1) e in
    if not (bit_and e.blp (2 ^ i) == 0) then wrapping_add e.pid (i + 1) ∷ rest else rest

unfoldable pub bitmask_lost_seqs : BitmaskNack → List ℕ
unfolding masked_seqs
bitmask_lost_seqs e = e.pid ∷ masked_seqs 16 0 e

-- `start.wrapping_add(i as u16)` for `n` values of `i` from `i` on.
unfoldable pub range_from : ℕ → ℕ → ℕ → List ℕ
range_from zero i start = []
range_from (suc n) i start = wrapping_add start (u16 i) ∷ range_from n (i + 1) start

unfoldable pub range_lost_seqs : RangeNack → List ℕ
unfolding range_from
range_lost_seqs e = range_from (e.extra + 1) 0 e.start

pub data NackEntries : Type 0 where
  bitmask : List BitmaskNack → NackEntries
  range : List RangeNack → NackEntries

pub record NackPacket : Type 0 where
  pub sender_ssrc : ℕ
  pub media_ssrc : ℕ
  pub entries : NackEntries

-- `v.iter().flat_map(|e| e.lost_seqs())`
abbrev pub bitmask_seqs : List BitmaskNack → List ℕ
bitmask_seqs [] = []
bitmask_seqs (e ∷ es) = bitmask_lost_seqs e ++ bitmask_seqs es

abbrev pub range_seqs : List RangeNack → List ℕ
range_seqs [] = []
range_seqs (e ∷ es) = range_lost_seqs e ++ range_seqs es

-- The numbers that a packet asks for, as the sender walks it.
abbrev pub packet_seqs : NackPacket → List ℕ
packet_seqs p = elim p.entries [ bitmask v ↦ bitmask_seqs v | range v ↦ range_seqs v ]

-- The two loops of `build_bitmask`, from inside an entry: a number up to 16 past its PID sets a bit,
-- any other closes the entry and opens the next.
unfoldable pub pack_bits : BitmaskNack → List ℕ → List BitmaskNack
pack_bits e [] = e ∷ []
pack_bits e (s ∷ seqs) =
    let diff = wrapping_sub s e.pid in
    let joined = pack_bits (record e { blp = bit_or e.blp (2 ^ (diff - 1)) }) seqs in
    let closed = pack_bits (record { pid = s; blp = 0 }) seqs in
    if leb 1 diff && leb diff 16 then joined else e ∷ closed

abbrev pub bitmask_entries : List ℕ → List BitmaskNack
bitmask_entries [] = []
bitmask_entries (s ∷ seqs) = pack_bits (record { pid = s; blp = 0 }) seqs

-- The loops of `build_range`, likewise. `extra + 1` is a `u16` sum.
unfoldable pub pack_range : RangeNack → List ℕ → List RangeNack
pack_range e [] = e ∷ []
pack_range e (s ∷ seqs) =
    let joined = pack_range (record e { extra = u16 (e.extra + 1) }) seqs in
    let closed = pack_range (record { start = s; extra = 0 }) seqs in
    if s == wrapping_add e.start (u16 (e.extra + 1)) then joined else e ∷ closed

abbrev pub range_entries : List ℕ → List RangeNack
range_entries [] = []
range_entries (s ∷ seqs) = pack_range (record { start = s; extra = 0 }) seqs

-- `NackListBuilder`
pub record NackListBuilder : Type 0 where
  pub sender_ssrc : ℕ
  pub media_ssrc : ℕ

unfoldable pub build_bitmask : NackListBuilder → List ℕ → NackPacket
unfolding pack_bits
build_bitmask b lost_seqs = record {
  sender_ssrc = b.sender_ssrc;
  media_ssrc = b.media_ssrc;
  entries = bitmask (bitmask_entries lost_seqs);
}

unfoldable pub build_range : NackListBuilder → List ℕ → NackPacket
unfolding pack_range
build_range b lost_seqs = record {
  sender_ssrc = b.sender_ssrc;
  media_ssrc = b.media_ssrc;
  entries = range (range_entries lost_seqs);
}

abbrev pub entries_fmt : NackEntries → ℕ
entries_fmt (bitmask v) = nack_fmt_generic
entries_fmt (range v) = nack_fmt_range

abbrev pub entry_count : NackEntries → ℕ
entry_count (bitmask v) = length v
entry_count (range v) = length v

module _ (w : Buf) where
  -- The two loops of `NackPacket::parse`.
  unfoldable pub parse_bitmasks : ℕ → List ℕ → Result (List BitmaskNack)
  parse_bitmasks zero r = ok []
  parse_bitmasks (suc n) r = do
    (pid, r1) ← or_panic (w.get_u16 r)
    (blp, r2) ← or_panic (w.get_u16 r1)
    rest ← parse_bitmasks n r2
    ok (record { pid = pid; blp = blp } ∷ rest)

  unfoldable pub parse_ranges : ℕ → List ℕ → Result (List RangeNack)
  parse_ranges zero r = ok []
  parse_ranges (suc n) r = do
    (start, r1) ← or_panic (w.get_u16 r)
    (extra, r2) ← or_panic (w.get_u16 r1)
    rest ← parse_ranges n r2
    ok (record { start = start; extra = extra } ∷ rest)

  abbrev pub parse_entries : ℕ → ℕ → List ℕ → Result NackEntries
  parse_entries fmt num_entries r =
      if fmt == nack_fmt_generic
      then (parse_bitmasks num_entries r >>= λ v. ok (bitmask v))
      else if fmt == nack_fmt_range
      then (parse_ranges num_entries r >>= λ v. ok (range v))
      else err (invalid_nack_format fmt)

  unfoldable pub parse : List ℕ → ℕ → ℕ → Result NackPacket
  unfolding parse_bitmasks parse_ranges
  parse buf fmt payload_len = do
    guard (not (ltb (length buf) 8)) (packet_too_short 8 (length buf))
    (sender_ssrc, r1) ← or_panic (w.get_u32 buf)
    (media_ssrc, r2) ← or_panic (w.get_u32 r1)
    entries ← parse_entries fmt ((payload_len - 8) / 4) r2
    ok (record { sender_ssrc = sender_ssrc; media_ssrc = media_ssrc; entries = entries })

  unfoldable pub put_bitmasks : List BitmaskNack → List ℕ
  put_bitmasks [] = []
  put_bitmasks (e ∷ es) = w.put_u16 e.pid ++ (w.put_u16 e.blp ++ put_bitmasks es)

  unfoldable pub put_ranges : List RangeNack → List ℕ
  put_ranges [] = []
  put_ranges (e ∷ es) = w.put_u16 e.start ++ (w.put_u16 e.extra ++ put_ranges es)

  abbrev pub put_entries : NackEntries → List ℕ
  put_entries (bitmask v) = put_bitmasks v
  put_entries (range v) = put_ranges v

  unfoldable pub serialize : NackPacket → List ℕ
  unfolding put_bitmasks put_ranges
  serialize p =
      let length_words = 2 + entry_count p.entries in
      w.put_u8 (bit_or 0x80 (bit_and (entries_fmt p.entries) 0x1f))
      ++ (w.put_u8 rtcp_pt_rtpfb
          ++ (w.put_u16 (u16 length_words)
              ++ (w.put_u32 p.sender_ssrc ++ (w.put_u32 p.media_ssrc ++ put_entries p.entries))))
