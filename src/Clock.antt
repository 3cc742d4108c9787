-- ===== src/Clock.antt =====
-- core/src/transport/clock.rs: the send clock, which keeps for each id of a window when its request was
-- sent. Instants are counted in nanoseconds. `none` is the panic of `stamp` outside the window.
pub mod Window
mod Tests
use redsuite.Prelude.{
  ℕ, suc, ◌+◌, ◌-◌, ◌/◌, ◌%◌, ◌^◌, min, List, Option, none, some, eqb, if◌then◌else◌, get_elem?,
  set, length, ltb, replicate, map, checked_sub, u64_mod,
}

pub record SendClock : Type 0 where
  pub epoch : ℕ
  pub first_id : ℕ
  pub sent_micros : List ℕ

abbrev pub u32_max : ℕ
u32_max = 2 ^ 32 - 1

-- The microseconds from the epoch to an instant, as a `u64`.
unfoldable pub micros : ℕ → ℕ → ℕ
micros epoch at = (at - epoch) / 1000 % u64_mod

unfoldable pub new : ℕ → ℕ → ℕ → SendClock
new now first_id capacity = record {
  epoch = now;
  first_id = first_id;
  sent_micros = replicate capacity 0;
}

unfoldable pub within : ℕ → Option ℕ → Option ℕ
within capacity none = none
within capacity (some index) = if ltb index capacity then some index else none

-- The index of an id's slot.
unfoldable pub slot_of : SendClock → ℕ → Option ℕ
unfolding within
slot_of c id = within (length c.sent_micros) (checked_sub id c.first_id)

unfoldable pub reset : ℕ → SendClock → SendClock
reset first_id c = record c { sent_micros = map (λ _. 0) c.sent_micros; first_id = first_id }

unfoldable pub store : ℕ → Option ℕ → SendClock → Option SendClock
store value none c = none
store value (some index) c = some (record c { sent_micros = set c.sent_micros index value })

unfoldable pub stamp : ℕ → ℕ → SendClock → Option SendClock
unfolding slot_of micros store
stamp id at c = store (micros c.epoch at + 1) (slot_of c id) c

unfoldable pub elapsed_of : ℕ → ℕ → Option ℕ
elapsed_of now stamped = if eqb stamped 0 then none else some (min (now - (stamped - 1)) u32_max)

unfoldable pub elapsed_at : ℕ → Option ℕ → Option ℕ
unfolding elapsed_of
elapsed_at now none = none
elapsed_at now (some stamped) = elapsed_of now stamped

unfoldable pub load : Option ℕ → SendClock → Option ℕ
load none c = none
load (some index) c = get_elem? c.sent_micros index

unfoldable pub elapsed_micros : ℕ → ℕ → SendClock → Option ℕ
unfolding slot_of elapsed_at micros load
elapsed_micros now id c = elapsed_at (micros c.epoch now) (load (slot_of c id) c)

-- `Stamped::deliver`, up to the delivery that it wraps.
unfoldable pub stamp_delivery : Option SendClock → ℕ → ℕ → Option (Option SendClock)
unfolding stamp
stamp_delivery none id sent = some none
stamp_delivery (some c) id sent = elim (stamp id sent c) [ none ↦ none | some c' ↦ some (some c') ]
