-- ===== src/Guard.antt =====
-- The admission guards of rist-transport/src/guard.rs. An `IpAddr` is a v4 or v6 address as a
-- number, a `SocketAddr` an address and a port, times are nanoseconds.
pub mod Tests
pub mod Takeover
pub mod Budget
use bilbycast_rist.Prelude.{
  ℕ, ◌+◌, ◌-◌, ◌*◌, ◌^◌, min, max, Bool, true, false, Option, none, some, if◌then◌else◌, ltb, ◌==◌,
  ◌||◌, ◌&&◌, not, bit_and,
}

pub data IpAddr : Type 0 where
  v4 : ℕ → IpAddr
  v6 : ℕ → IpAddr

pub record SocketAddr : Type 0 where
  pub ip : IpAddr
  pub port : ℕ

-- `==` of the standard library's addresses
abbrev pub same_ip : IpAddr → IpAddr → Bool
same_ip (v4 a) (v4 b) = a == b
same_ip (v4 a) (v6 b) = false
same_ip (v6 a) (v4 b) = false
same_ip (v6 a) (v6 b) = a == b

abbrev pub same_addr : SocketAddr → SocketAddr → Bool
same_addr a b = same_ip a.ip b.ip && a.port == b.port

-- 12 s
abbrev pub peer_takeover_grace : ℕ
peer_takeover_grace = 12_000_000_000

unfoldable pub peer_is_protected : Option ℕ → ℕ → Bool
peer_is_protected none now = false
peer_is_protected (some t) now = ltb (now - t) peer_takeover_grace

unfoldable pub peer_move_allowed : SocketAddr → SocketAddr → Option ℕ → ℕ → Bool
unfolding peer_is_protected
peer_move_allowed from current last_live now =
    same_ip from.ip current.ip || not (peer_is_protected last_live now)

-- The pin check of `source_allowed`, and its match on the latched peer.
abbrev pub foreign_to_pin : SocketAddr → Option IpAddr → Bool
foreign_to_pin from none = false
foreign_to_pin from (some ip) = not (same_ip from.ip ip)

abbrev pub move_from : SocketAddr → Option SocketAddr → Option ℕ → ℕ → Bool
move_from from none last_live now = true
move_from from (some cur) last_live now = peer_move_allowed from cur last_live now

unfoldable pub source_allowed : SocketAddr → Option IpAddr → Option SocketAddr → Option ℕ → ℕ → Bool
unfolding peer_move_allowed
source_allowed from pinned_ip current last_live now =
    if foreign_to_pin from pinned_ip then false else move_from from current last_live now

-- `x & !1`, on a `u32`
abbrev pub clear_lsb : ℕ → ℕ
clear_lsb x = bit_and x (2 ^ 32 - 2)

unfoldable pub nack_targets_us : ℕ → ℕ → Bool
nack_targets_us media_ssrc our_ssrc = media_ssrc == 0 || clear_lsb media_ssrc == clear_lsb our_ssrc

pub record NackWorkBudget : Type 0 where
  pub scan : ℕ
  pub retx : ℕ

abbrev pub min_retx : ℕ
min_retx = 512

abbrev pub max_retx : ℕ
max_retx = 8192

unfoldable pub for_capacity : ℕ → NackWorkBudget
for_capacity retransmit_capacity =
    let retx = min (max (min retransmit_capacity (2 ^ 32 - 1)) min_retx) max_retx in
    record { scan = min (retx * 4) (2 ^ 32 - 1); retx = retx }

-- The new budget, and whether the charge was granted.
unfoldable pub charge_scan : NackWorkBudget → NackWorkBudget × Bool
charge_scan b = if b.scan == 0 then (b, false) else (record b { scan = b.scan - 1 }, true)

unfoldable pub charge_retx : NackWorkBudget → NackWorkBudget × Bool
charge_retx b = if b.retx == 0 then (b, false) else (record b { retx = b.retx - 1 }, true)
