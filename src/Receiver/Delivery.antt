-- ===== src/Receiver/Delivery.antt =====
-- One turn of the delivery thread (rist-transport/src/receiver.rs, `run_drain_thread`): the drain
-- under the lock, and the items handed on outside it. The channel to the application is a
-- parameter.
use bilbycast_rist.Prelude.{
  ℕ, ◌+◌, ◌-◌, Bool, true, false, Option, none, some, List, [], ◌∷◌, if◌then◌else◌, ltb,
}
pub mod Conserved
use mathlib.Core.Option
use bilbycast_rist.Reorder.{ReorderBuffer, DrainItem, delivered, lost, drain_ready, next_drain_time}
use bilbycast_rist.Receiver.State.{Receiver, ReceiverStats, fetch_add}

pub record RistDelivered : Type 0 where
  pub bytes : List ℕ
  pub arrival : ℕ
  pub rtp_seq : ℕ

-- What the thread does when nothing is ready: it sleeps until it is woken, or at most so long, or
-- not at all.
pub data Wait : Type 0 where
  until_notified : Wait
  at_most : ℕ → Wait
  not_at_all : Wait

unfoldable pub wait_for : Option ℕ → ℕ → Wait
wait_for none now = until_notified
wait_for (some deadline) now = if ltb now deadline then at_most (deadline - now) else not_at_all

module _ {App : Type 0} (try_send : App → RistDelivered → App × Bool) where
  -- A packet that the channel does not take is counted as dropped.
  unfoldable pub hand_on : List DrainItem → ReceiverStats × App → ReceiverStats × App
  hand_on [] (stats, to) = (stats, to)
  hand_on (delivered bytes seq arrival ∷ items) (stats, to) =
      let (to', taken) = try_send to (record { bytes = bytes; arrival = arrival; rtp_seq = seq }) in
      hand_on items (
        if taken then stats else record stats { reorder_drops = fetch_add stats.reorder_drops 1 },
        to',
      )
  hand_on (lost ∷ items) (stats, to) =
      hand_on items (record stats { packets_lost = fetch_add stats.packets_lost 1 }, to)

  abbrev pub waits : List DrainItem → ReorderBuffer → ℕ → ℕ → Option Wait
  waits [] reorder now' now'' = some (wait_for (next_drain_time reorder now') now'')
  waits (i ∷ items) reorder now' now'' = none

  -- A turn, from what the drain leaves and releases: the new state, and the wait if nothing is
  -- released.
  abbrev pub after_drain :
      Receiver × App → ReorderBuffer × List DrainItem → ℕ → ℕ → (Receiver × App) × Option Wait
  after_drain (st, to) (reorder, items) now' now'' =
      let (stats, to') = hand_on items (st.stats, to) in
      ((record st { reorder = reorder; stats = stats }, to'), waits items reorder now' now'')

  -- The three instants are those at which the clock is read; `none` is the drain's.
  unfoldable pub turn : ℕ → ℕ → ℕ → Receiver × App → Option ((Receiver × App) × Option Wait)
  unfolding hand_on wait_for
  turn now now' now'' (st, to) =
      Option.map (λ drained. after_drain (st, to) drained now' now'')
        (drain_ready st.reorder now [])
