-- ===== src/Retransmit.antt =====
-- The sender's retransmit ring, rist-protocol/src/protocol/nack_tracker.rs. `Bytes` is the list of
-- the bytes of the whole RTP packet.
pub mod Tests
pub mod History
use bilbycast_rist.Prelude.{
  ℕ, ◌-◌, Option, none, some, List, if◌then◌else◌, ◌==◌, update, next_power_of_two, bit_and,
}

pub record RetransmitSlot : Type 0 where
  pub seq : ℕ
  pub packet : List ℕ

pub record RetransmitBuffer : Type 0 where
  pub slots : ℕ → Option RetransmitSlot
  pub capacity : ℕ

unfoldable pub new : ℕ → RetransmitBuffer
new capacity = record { slots = λ _. none; capacity = next_power_of_two capacity }

unfoldable pub insert : RetransmitBuffer → ℕ → List ℕ → RetransmitBuffer
insert b seq packet = record b {
  slots =
      update b.slots (bit_and seq (b.capacity - 1)) (some (record { seq = seq; packet = packet }));
}

abbrev pub matching : Option RetransmitSlot → ℕ → Option (List ℕ)
matching none seq = none
matching (some slot) seq = if slot.seq == seq then some slot.packet else none

unfoldable pub get : RetransmitBuffer → ℕ → Option (List ℕ)
get b seq = matching (b.slots (bit_and seq (b.capacity - 1))) seq
