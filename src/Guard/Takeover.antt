-- ===== src/Guard/Takeover.antt =====
-- The hold-down: when a latched peer slot moves to another address.
use bilbycast_rist.Prelude.{◌≡◌, ◌↔◌, arith, true}
use bilbycast_rist.Guard.{IpAddr, v4, v6, same_ip}

pub same_ip_iff : (a b : IpAddr) → (same_ip a b ≡ true) ↔ (a ≡ b)
same_ip_iff (v4 a) (v4 b) = ground arith
same_ip_iff (v4 a) (v6 b) = ground arith
same_ip_iff (v6 a) (v4 b) = ground arith
same_ip_iff (v6 a) (v6 b) = ground arith
