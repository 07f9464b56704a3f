-- ===== src/Modem/Ready.antt =====
-- How long the firmware waits for the modem, and the command that sets the APN.
use air_quality_sensor_node.Base.{
  ℕ, zero, suc, ◌+◌, ◌-◌, ◌≤◌, ◌<◌, ◌≡◌, ◌∙◌, Bool, true, false, ◌++◌, Bytes, length, length-append,
  codes, arith,
}
use air_quality_sensor_node.Base.Outcome.{ok}
use air_quality_sensor_node.Base.Libc.{Libc}
use air_quality_sensor_node.Modem.{
  Line, modem_is_ready, wait_until_ready, apn_retry_delay, define_context,
}

module _ {W : Type 0} (libc : Libc) (line : Line W) where
  open line use {sleep}

  -- Asked from `w` on, the modem says no `n` times, with a pause behind each answer, up to `w'`.
  abbrev pub InVain : ℕ → W → W → Type 0
  InVain zero w w' = w ≡ w'
  InVain (suc n) w w' =
      (w1 : W) × (modem_is_ready libc line w ≡ ok (false, w1))
      × InVain n (sleep apn_retry_delay w1) w'

  wait_until_ready-InVain :
      (n left : ℕ) (w w' : W)
      → InVain n w w'
      → wait_until_ready libc line (n + left) w ≡ wait_until_ready libc line left w'
  unfolding wait_until_ready
  wait_until_ready-InVain zero left w w' h = let e : 0 + left ≡ left = omega arith in rw (e, h)
  wait_until_ready-InVain (suc n) left w w' h =
      let e : suc n + left ≡ suc (n + left) = omega arith in
      let ind = wait_until_ready-InVain n left (sleep apn_retry_delay h.0) w' h.2 in rw (e, h.1) ind

  -- The wait ends at the first answer that the modem is ready, if it comes after at most as many
  -- answers in vain as there are retries.
  pub wait_until_ready_succeeds :
      (n total : ℕ) (w w' w'' : W)
      → n ≤ total
      → InVain n w w'
      → modem_is_ready libc line w' ≡ ok (true, w'')
      → wait_until_ready libc line total w ≡ ok w''
  unfolding wait_until_ready
  wait_until_ready_succeeds n total w w' w'' le h e =
      let split : total ≡ n + (total - n) = omega arith in
      rw (split, wait_until_ready-InVain n (total - n) w w' h) (last (total - n))
    where
      last : (left : ℕ) → wait_until_ready libc line left w' ≡ ok w''
      last zero = rw e
      last (suc left) = rw e

  -- After `total` answers in vain, as many as there are retries, the modem is asked once more, and the
  -- wait ends whatever it answers.
  pub wait_until_ready_gives_up :
      (total : ℕ) (w w' w'' : W) (ready : Bool)
      → InVain total w w'
      → modem_is_ready libc line w' ≡ ok (ready, w'')
      → wait_until_ready libc line total w ≡ ok w''
  unfolding wait_until_ready
  wait_until_ready_gives_up total w w' w'' ready h e =
      let split : total + 0 ≡ total = omega arith in
      rw split at (wait_until_ready-InVain total 0 w w' h) ∙ rw e

-- The text of the APN command fits its array for every APN that fits `CURRENT_APN_BUFFER`.
pub define_context_fits :
    (apn : Bytes)
    → length apn < 64
    → define_context apn ≡ ok (codes "AT+CGDCONT=0,\"IP\",\"" ++ apn ++ codes "\"\r")
unfolding define_context
define_context_fits apn h = ground (arith, length-append apn (codes "\"\r"))
