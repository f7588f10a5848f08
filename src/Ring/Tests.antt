-- ===== src/Ring/Tests.antt =====
-- A ring of 64 slots.
use bilbycast_rist.Prelude.{refl}
use bilbycast_rist.Ring.{IsRing}

abbrev pub ring_64 : IsRing 63 64
ring_64 = record { masked = refl; exponent = 6; power = refl; turns = 1024; divides = refl }
