-- ===== src/Tests/Platform.antt =====
-- What the tests put in the place of the C library, the modem and the flash.
use air_quality_sensor_node.Base.{
  ℕ, ◌≡◌, refl, ap, true, false, [], ◌∷◌, ◌++◌, List, Bytes, some, codes, All, if◌then◌else◌,
}
use air_quality_sensor_node.Base.Int.{pos}
use air_quality_sensor_node.Base.Libc.{Libc, is_digit, is_space, decimal}
use air_quality_sensor_node.Modem.{Line}
use air_quality_sensor_node.Net.{Format}

-- A C library that has what the development relies on.
abbrev pub leading_digits : Bytes → Bytes
leading_digits [] = []
leading_digits (c ∷ cs) = if is_digit c then c ∷ leading_digits cs else []

pub leading_digits-append :
    (ds rest : Bytes) (c : ℕ)
    → All (λ d. is_digit d ≡ true) ds
    → is_digit c ≡ false
    → leading_digits (ds ++ c ∷ rest) ≡ ds
leading_digits-append [] rest c h e = rw e
leading_digits-append (d ∷ ds) rest c h e =
    rw h.0 (ap (◌∷◌ d) (leading_digits-append ds rest c h.1 e))

pub leading_digits_all : (ds : Bytes) → All (λ d. is_digit d ≡ true) ds → leading_digits ds ≡ ds
leading_digits_all [] h = refl
leading_digits_all (d ∷ ds) h = rw h.0 (ap (◌∷◌ d) (leading_digits_all ds h.1))

abbrev pub test_libc : Libc
test_libc = record {
  isspace = is_space;
  isspace_ascii = λ c h. refl;
  atoi = λ s. pos (decimal 0 (leading_digits s));
  atoi_digits =
      λ ds rest c h e lt. ap (λ t. pos (decimal 0 t)) (leading_digits-append ds rest c h e);
  atoi_all_digits = λ ds h lt. ap (λ t. pos (decimal 0 t)) (leading_digits_all ds h);
}

abbrev pub test_format : Format
test_format = record { print_int = λ n. codes "1"; inet_ntop = λ a. some (codes "10.0.0.1") }

-- A modem whose next replies are known.
abbrev pub replies : Line (List Bytes)
replies = record {
  write = λ cmd w. w;
  readable = λ w. elim w [ [] ↦ [] | reply ∷ later ↦ reply ];
  left_unread = λ rest w. elim w [ [] ↦ [] | reply ∷ later ↦ later ];
  sleep = λ t w. w;
}
