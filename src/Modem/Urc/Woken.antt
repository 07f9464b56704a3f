-- ===== src/Modem/Urc/Woken.antt =====
-- A ring buffer of Firmware/src/comms.c and the semaphore that is given for each of its bytes.
use air_quality_sensor_node.Base.{
  ℕ, zero, suc, ◌+◌, ◌≤◌, ◌<◌, ◌≡◌, refl, ap, ◌∙◌, ◌⊎◌, inl, inr, [], ◌∷◌, Bytes, ◌==◌, length,
  length-append, some, arith, Bool-cases,
}
use air_quality_sensor_node.Modem.Urc.{Kernel}

module _ {R S : Type 0} (kernel : Kernel R S) where
  open kernel use {
    put, get, contents, room, give, take_sem, count, limit, put_room, put_full, get_some, get_none,
    give_below, give_limit, limit-give, take_none, take_some,
  }

  -- A ring buffer and its semaphore: no more bytes fit than the semaphore counts, and each byte that
  -- waits has its permit.
  pub record IsWoken (r : R) (s : S) : Type 0 where
    pub counted : length (contents r) ≤ count s
    pub fits : length (contents r) + room r ≤ limit s
    pub bounded : count s ≤ limit s

  give-count :
      (s : S)
      → count s ≤ limit s
      → ((count s < limit s) × (count (give s) ≡ suc (count s)))
        ⊎ ((count s ≡ limit s) × (count (give s) ≡ count s))
  give-count s h = elim (Bool-cases (count s == limit s)) [
    | inl full ↦ inr (ground arith, give_limit s (ground arith))
    | inr free ↦ inl (ground arith, give_below s (ground arith))
  ]

  module _ (b : ℕ) (r : R) (s : S) (h : IsWoken r s) where
    put-stored : 0 < room r → length (contents (put b r).0) ≡ suc (length (contents r))
    put-stored fits =
        ap length ((put_room b r fits).1) ∙ length-append (contents r) (b ∷ []) ∙ omega arith

    pub put-IsWoken : IsWoken (put b r).0 (give s)
    put-IsWoken = elim (Bool-cases (room r == 0)) [
      | inl full ↦
          rw (put_full b r (ground arith)) (ground (arith, give-count s h.bounded, limit-give s))
      | inr free ↦ ground (arith, put-stored, put_room b r, give-count s h.bounded, limit-give s)
    ]

    pub put-matched :
        0 < room r → length (contents r) ≡ count s → length (contents (put b r).0) ≡ count (give s)
    put-matched free matched =
        ground (arith, put-stored free, put_room b r free, give-count s h.bounded)

  -- Taking a permit and then a byte.
  pub get-IsWoken : (r : R) (s s' : S) → IsWoken r s → take_sem s ≡ some s' → IsWoken (get r).0 s'
  get-IsWoken r s s' h taken = by_contents (contents r) (count s) refl refl
    where
      by_contents : (bs : Bytes) (n : ℕ) → contents r ≡ bs → count s ≡ n → IsWoken (get r).0 s'
      by_contents bs zero e f = absurd (cc (take_none s f))
      by_contents [] (suc n) e f =
          let (s'', t, counted, limited) = take_some s n f in
          rw (get_none r e) (ground (arith, h.fits, h.bounded))
      by_contents (b ∷ bs) (suc n) e f =
          let (s'', t, counted, limited) = take_some s n f in
          let (_, gone, roomy) = get_some r b bs e in
          ground (arith, h.fits, h.bounded, ap length e, ap length gone)
