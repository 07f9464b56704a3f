-- ===== src/Fota/Download/Waiting.antt =====
-- How long `wait_for_response` polls.
use air_quality_sensor_node.Base.{ℕ, zero, suc, ◌+◌, ◌-◌, ◌≤◌, ◌≡◌, true, false, arith}
use air_quality_sensor_node.Fota.Download.{Platform, wait_polls, wait_for_response, max_polls}

module _ {D : Type 0} (platform : Platform D) (flash_bank_size : ℕ) where
  open platform use {poll}

  -- From `d` to `d'` there are `k` polls, none of which finds data.
  abbrev pub Silent : ℕ → D → D → Type 0
  Silent zero d d' = d ≡ d'
  Silent (suc k) d d' = ((poll d).1 ≡ false) × Silent k (poll d).0 d'

  wait_polls-Silent :
      (k left : ℕ) (d d' : D)
      → Silent k d d'
      → wait_polls platform flash_bank_size (k + left) d
        ≡ wait_polls platform flash_bank_size left d'
  unfolding wait_polls
  wait_polls-Silent zero left d d' h = let e : 0 + left ≡ left = omega arith in rw (e, h)
  wait_polls-Silent (suc k) left d d' h =
      let e : suc k + left ≡ suc (k + left) = omega arith in
      rw (e, h.0) (wait_polls-Silent k left (poll d).0 d' h.1)

  ready_within :
      (k left total : ℕ) (d d' : D)
      → total ≡ k + suc left
      → Silent k d d'
      → (poll d').1 ≡ true
      → wait_polls platform flash_bank_size total d ≡ ((poll d').0, true)
  unfolding wait_polls
  ready_within k left total d d' e h ready = rw (e, wait_polls-Silent k (suc left) d d' h, ready)

  quiet_through :
      (k total : ℕ) (d d' : D)
      → total ≡ k + 0
      → Silent k d d'
      → wait_polls platform flash_bank_size total d ≡ (d', false)
  unfolding wait_polls
  quiet_through k total d d' e h = rw (e, wait_polls-Silent k 0 d d' h)

  -- If the data are there at some poll among the first 121, the wait ends at that poll and succeeds.
  pub wait_for_response_succeeds :
      (k : ℕ) (d d' : D)
      → k ≤ 120
      → Silent k d d'
      → (poll d').1 ≡ true
      → wait_for_response platform flash_bank_size d ≡ ((poll d').0, true)
  unfolding wait_for_response
  wait_for_response_succeeds k d d' le h ready =
      ready_within k (120 - k) max_polls d d' (omega arith) h ready

  -- After 121 polls without data the wait fails.
  pub wait_for_response-Silent :
      (d d' : D) → Silent 121 d d' → wait_for_response platform flash_bank_size d ≡ (d', false)
  unfolding wait_for_response
  wait_for_response-Silent d d' h = quiet_through 121 max_polls d d' (omega arith) h
