-- ===== src/RelayClient/Delay.antt =====
-- The delay before a reconnection of connector/relay_client.py.
use Prim.Native.Nat.{ℕ, ◌+◌, ◌*◌, ◌-◌, ◌^◌, ◌≤◌, ◌<◌, min}
use native.Mathlib.Nat.{
  min-le_right, min-eq_right, mul-le-mul, mul-le-mul_left, mul-lt-mul_of_pos_left,
}
use remote_llmconnector.Shared.{◌≡◌, arith}
use remote_llmconnector.RelayClient.{capped_delay, jittered_delay}

-- With a draw of `random()` below one, the delay is at least the capped exponential one and at most
-- five quarters of the maximum.
pub jittered_delay-bounds :
    (base_delay max_delay attempt scale draw : ℕ)
    → draw < scale
    → (capped_delay base_delay max_delay attempt * (4 * scale)
        ≤ jittered_delay base_delay max_delay attempt scale draw)
      × (jittered_delay base_delay max_delay attempt scale draw ≤ max_delay * (5 * scale))
unfolding capped_delay jittered_delay
jittered_delay-bounds b m a s d h =
    let power = b * 2 ^ min (a - 1) 10 in
    let short : 4 * s ≤ 4 * s + d = omega arith in
    let long : 4 * s + d ≤ 5 * s = omega arith in
    (mul-le-mul_left (min power m) short, mul-le-mul (min-le_right power m) long)

-- The delay is not capped at the maximum: where the backoff has reached a maximum that is not zero,
-- and the draw is not zero, the jitter goes beyond.
pub jittered_delay-over_max :
    (base_delay max_delay attempt scale draw : ℕ)
    → max_delay ≤ base_delay * 2 ^ min (attempt - 1) 10
    → 0 < max_delay
    → 0 < draw
    → max_delay * (4 * scale) < jittered_delay base_delay max_delay attempt scale draw
unfolding capped_delay jittered_delay
jittered_delay-over_max b m a s d h p q =
    let power = b * 2 ^ min (a - 1) 10 in
    let top : min power m ≡ m = min-eq_right h in
    let more : 4 * s < 4 * s + d = omega arith in rw top (mul-lt-mul_of_pos_left more p)
