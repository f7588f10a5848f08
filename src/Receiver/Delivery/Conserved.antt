-- ===== src/Receiver/Delivery/Conserved.antt =====
-- What becomes of the packets that a turn of the delivery thread drains.
use mathlib.Core.Option
use bilbycast_rist.Prelude.{
  ℕ, suc, ◌+◌, ◌^◌, ◌<◌, ◌≡◌, refl, ap, arith, Bool, true, false, Option, some, List, [], ◌∷◌,
  if◌then◌else◌, length,
}
use bilbycast_rist.Reorder.{DrainItem, delivered, lost}
use bilbycast_rist.Reorder.Window.{Window, content}
use bilbycast_rist.Reorder.Drain.{drain_ready-Drained, Drained}
use bilbycast_rist.Reorder.Drain.Released.{released}
use bilbycast_rist.Receiver.State.{Receiver, ReceiverStats, fetch_add}
use bilbycast_rist.Receiver.Delivery.{RistDelivered, Wait, hand_on, after_drain, turn}

module _ {App : Type 0} (try_send : App → RistDelivered → App × Bool) (taken : App → ℕ)
    (counted : (to : App) (d : RistDelivered)
      → taken (try_send to d).0 ≡ taken to + (if (try_send to d).1 then 1 else 0)) where
  -- All that the packets drained so far have become.
  abbrev pub total : ReceiverStats × App → ℕ
  total s = taken s.1 + s.0.reorder_drops + s.0.packets_lost

  add_fits : (c n : ℕ) → c + suc n < 2 ^ 64 → fetch_add c 1 ≡ c + 1
  add_fits c n h = omega arith

  abbrev drop_one : ReceiverStats → ReceiverStats
  drop_one s = record s { reorder_drops = fetch_add s.reorder_drops 1 }

  dropped :
      (b : Bool) (s : ReceiverStats) (n : ℕ)
      → s.reorder_drops + suc n < 2 ^ 64
      → ((if b then s else drop_one s).reorder_drops + (if b then 1 else 0) ≡ s.reorder_drops + 1)
        × ((if b then s else drop_one s).packets_lost ≡ s.packets_lost)
        × ((if b then s else drop_one s).reorder_drops + n < 2 ^ 64)
  dropped true s n h = (refl, refl, omega arith)
  dropped false s n h = (
    omega (arith, add_fits s.reorder_drops n h),
    refl,
    omega (arith, add_fits s.reorder_drops n h),
  )

  hand_on-total :
      (items : List DrainItem) (stats : ReceiverStats) (to : App)
      → stats.reorder_drops + length items < 2 ^ 64
      → stats.packets_lost + length items < 2 ^ 64
      → total (hand_on try_send items (stats, to)) ≡ total (stats, to) + length items
  unfolding hand_on
  hand_on-total [] stats to h k = omega arith
  hand_on-total (delivered bytes seq arrival ∷ items) stats to h k =
      let d : RistDelivered = record { bytes = bytes; arrival = arrival; rtp_seq = seq } in
      let b = (try_send to d).1 in
      let one = dropped b stats (length items) h in
      omega (
        arith,
        hand_on-total items (if b then stats else drop_one stats) (try_send to d).0
            (omega (arith, one.2)) (omega (arith, one.1, k)),
        counted to d,
        one.0,
        one.1,
      )
  hand_on-total (lost ∷ items) stats to h k =
      let more = add_fits stats.packets_lost (length items) k in
      omega (
        arith,
        hand_on-total items (record stats { packets_lost = fetch_add stats.packets_lost 1 }) to
            (omega (arith, h)) (omega (arith, more, k)),
        more,
      )

  -- A turn ends, and with counters that have room for a window of `n` numbers: each number that the
  -- window gives up has been taken by the application, or counted as dropped, or counted as lost,
  -- and each of these once; the reorder buffer is drained of exactly what was due.
  pub turn_conserves :
      {base highest n : ℕ} (now now' now'' : ℕ) (st : Receiver) (to : App)
      → Window st.reorder base highest n
      → st.stats.reorder_drops + n < 2 ^ 64
      → st.stats.packets_lost + n < 2 ^ 64
      → (st' : Receiver) × (to' : App) × (wait : Option Wait) × (k : ℕ) × (turn try_send now now'
            now''
            (st, to)
          ≡ some ((st', to'), wait))
        × Drained st.reorder st'.reorder base highest n k now
        × (taken to' + st'.stats.reorder_drops + st'.stats.packets_lost
            ≡ taken to + st.stats.reorder_drops + st.stats.packets_lost + k)
  unfolding turn
  turn_conserves {base} {highest} {n} now now' now'' st to v h k =
      let items = released st.reorder.buffer_time now (content st.reorder base) base n 0 in
      let (b', e, d) = drain_ready-Drained now [] v in
      let after = after_drain try_send (st, to) (b', items) now' now'' in
      (
        after.0.0,
        after.0.1,
        after.1,
        length items,
        ap (λ r. Option.map (λ x. after_drain try_send (st, to) x now' now'') r) e,
        d,
        hand_on-total items st.stats to (omega (arith, d.within, h)) (omega (arith, d.within, k)),
      )
