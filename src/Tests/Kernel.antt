-- ===== src/Tests/Kernel.antt =====
-- What the tests put in the place of Zephyr's ring buffers and semaphores.
use air_quality_sensor_node.Base.{
  ℕ, zero, suc, ◌<◌, ◌≡◌, refl, Bool, true, false, ltb, [], ◌∷◌, ◌++◌, Bytes, Option, none, some,
  if◌then◌else◌, arith,
}
use air_quality_sensor_node.Modem.Urc.{Kernel, Comms}

-- A ring buffer is what it holds and how many bytes still fit; a semaphore its count and its limit.
abbrev pub put : ℕ → Bytes × ℕ → (Bytes × ℕ) × Bool
put b (bs, zero) = ((bs, zero), false)
put b (bs, suc n) = ((bs ++ b ∷ [], n), true)

abbrev pub get : Bytes × ℕ → (Bytes × ℕ) × Option ℕ
get ([], n) = (([], n), none)
get (b ∷ bs, n) = ((bs, suc n), some b)

abbrev pub give : ℕ × ℕ → ℕ × ℕ
give (n, limit) = (if ltb n limit then suc n else n, limit)

abbrev pub take_sem : ℕ × ℕ → Option (ℕ × ℕ)
take_sem (zero, limit) = none
take_sem (suc n, limit) = some (n, limit)

pub put_room :
    (b : ℕ) (r : Bytes × ℕ)
    → 0 < r.1
    → ((put b r).1 ≡ true) × ((put b r).0.0 ≡ r.0 ++ b ∷ []) × (suc (put b r).0.1 ≡ r.1)
put_room b (bs, zero) h = absurd (omega arith)
put_room b (bs, suc n) h = (refl, refl, refl)

pub put_full : (b : ℕ) (r : Bytes × ℕ) → r.1 ≡ 0 → put b r ≡ (r, false)
put_full b (bs, zero) h = refl
put_full b (bs, suc n) h = absurd (omega arith)

pub get_some :
    (r : Bytes × ℕ) (b : ℕ) (bs : Bytes)
    → r.0 ≡ b ∷ bs
    → ((get r).1 ≡ some b) × ((get r).0.0 ≡ bs) × ((get r).0.1 ≡ suc r.1)
get_some ([], n) b bs h = absurd (cc)
get_some (x ∷ xs, n) b bs h = (cc, cc, refl)

pub get_none : (r : Bytes × ℕ) → r.0 ≡ [] → get r ≡ (r, none)
get_none ([], n) h = refl
get_none (x ∷ xs, n) h = absurd (cc)

pub give_below : (s : ℕ × ℕ) → s.0 < s.1 → (give s).0 ≡ suc s.0
give_below (n, limit) h = ground arith

pub give_limit : (s : ℕ × ℕ) → s.0 ≡ s.1 → (give s).0 ≡ s.0
give_limit (n, limit) h = ground arith

pub take_none : (s : ℕ × ℕ) → s.0 ≡ 0 → take_sem s ≡ none
take_none (zero, limit) h = refl
take_none (suc n, limit) h = absurd (omega arith)

pub take_some :
    (s : ℕ × ℕ) (n : ℕ)
    → s.0 ≡ suc n
    → (s' : ℕ × ℕ) × (take_sem s ≡ some s') × (s'.0 ≡ n) × (s'.1 ≡ s.1)
take_some (zero, limit) n h = absurd (omega arith)
take_some (suc m, limit) n h = ((m, limit), refl, omega arith, refl)

abbrev pub test_kernel : Kernel (Bytes × ℕ) (ℕ × ℕ)
test_kernel = record {
  put = put;
  get = get;
  contents = λ r. r.0;
  room = λ r. r.1;
  give = give;
  take_sem = take_sem;
  count = λ s. s.0;
  limit = λ s. s.1;
  put_room = put_room;
  put_full = put_full;
  get_some = get_some;
  get_none = get_none;
  give_below = give_below;
  give_limit = give_limit;
  limit-give = λ s. refl;
  take_none = take_none;
  take_some = take_some;
}

abbrev pub idle : Comms (Bytes × ℕ) (ℕ × ℕ)
idle = record {
  prev = 10;
  in_urc = false;
  rx_rb = ([], 40);
  rx_sem = (0, 255);
  urc_rb = ([], 20);
  urc_sem = (0, 64);
}
