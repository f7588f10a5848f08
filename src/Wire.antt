-- ===== src/Wire.antt =====
-- The errors of rist-protocol/src/error.rs, fallible code, and the byte buffers that every packet
-- module reads and writes through the `bytes` crate (`Buf` and `BufMut`), which is a parameter.
pub mod BigEndian
pub mod Safe
use bilbycast_rist.Prelude.{
  ℕ, Option, none, some, List, Bool, true, false, ◌≤◌, ◌≡◌, length, take, take-all,
}

pub data RistError : Type 0 where
  packet_too_short : ℕ → ℕ → RistError
  invalid_rtp_version : ℕ → RistError
  invalid_rtcp_type : ℕ → RistError
  invalid_rtcp_length : ℕ → ℕ → RistError
  invalid_nack_format : ℕ → RistError
  invalid_port : ℕ → RistError
  buffer_overflow : RistError
  tunnel_error : List ℕ → RistError
  crypto_error : List ℕ → RistError
  other : List ℕ → RistError

-- `panic` is a read past the end of a buffer, which the `bytes` crate and a slice answer alike.
pub data Result {ℓ} (A : Type ℓ) : Type ℓ where
  ok : A → Result A
  err : RistError → Result A
  panic : Result A

infixl 5 ◌>>=◌ ◌>>◌
abbrev pub ◌>>=◌ {ℓ κ} : {A : Type ℓ} {B : Type κ} → Result A → (A → Result B) → Result B
ok a >>= f = f a
err e >>= f = err e
panic >>= f = panic

abbrev pub ◌>>◌ {ℓ} : {B : Type ℓ} → Result (Unit {0}) → Result B → Result B
m >> k = m >>= λ _. k

-- `if !test { return Err(e) }`
abbrev pub guard : Bool → RistError → Result (Unit {0})
guard true e = ok tt
guard false e = err e

abbrev pub or_panic {ℓ} : {A : Type ℓ} → Option A → Result A
or_panic none = panic
or_panic (some a) = ok a

-- The `bytes` crate: a `put` appends these bytes, a `get` takes a number off the front of a slice
-- and panics (`none`) where too few bytes remain.
pub record Buf : Type 0 where
  pub put_u8 : ℕ → List ℕ
  pub put_u16 : ℕ → List ℕ
  pub put_u32 : ℕ → List ℕ
  pub put_slice : List ℕ → List ℕ
  pub get_u8 : List ℕ → Option (ℕ × List ℕ)
  pub get_u16 : List ℕ → Option (ℕ × List ℕ)
  pub get_u32 : List ℕ → Option (ℕ × List ℕ)
  pub copy_to_slice : ℕ → List ℕ → Option (List ℕ × List ℕ)

-- The length of the buffers that the sockets are read into. Of a longer datagram the rest is lost.
abbrev pub max_udp_recv : ℕ
max_udp_recv = 2048

abbrev pub received : List ℕ → List ℕ
received datagram = take max_udp_recv datagram

pub received-whole :
    (datagram : List ℕ) → length datagram ≤ max_udp_recv → received datagram ≡ datagram
received-whole datagram h = take-all max_udp_recv datagram h
