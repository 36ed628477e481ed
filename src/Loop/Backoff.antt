-- ===== src/Loop/Backoff.antt =====
-- The delays of `mosquitto_loop_forever` between its attempts to reconnect.
use moscapsule.Prelude.{
  ℕ, ◌+◌, ◌*◌, ◌%◌, ◌^◌, ◌⊎◌, ◌≤◌, ◌≡◌, refl, Bool-cases, inl, inr, ltb, ◌&&◌, if◌then◌else◌, arith,
}
use moscapsule.Client.{Mosquitto}
use moscapsule.Loop.{reconnect_step}

-- The delay never exceeds `reconnect_delay_max`, and an attempt either raises the counter by one,
-- around at 2 ^ 32, or is followed by one at `reconnect_delay_max` with the same counter.
pub reconnect_step-bounded :
    (m : Mosquitto) (reconnects : ℕ)
    → ((reconnect_step m reconnects).0 ≤ m.reconnect_delay_max)
      × (((reconnect_step m reconnects).1 ≡ (reconnects + 1) % 2 ^ 32)
          ⊎ (reconnect_step m (reconnect_step m reconnects).1
              ≡ (m.reconnect_delay_max, reconnects)))
unfolding reconnect_step
reconnect_step-bounded m r =
    elim (Bool-cases (
      ltb m.reconnect_delay_max (
        if ltb 0 m.reconnect_delay && m.reconnect_exponential_backoff
        then m.reconnect_delay * r * r % 2 ^ 32
        else m.reconnect_delay))) [
          | inl t ↦ rw (t, reconnect_step) (omega arith, inr (rw t refl))
          | inr t ↦ rw (t, reconnect_step) (ground (arith, t), inl refl)
        ]
