-- ===== src/Message/Version.antt =====
-- The number that a firmware version is sent as.
use air_quality_sensor_node.Base.{
  ◌+◌, ◌*◌, ◌%◌, ◌^◌, ◌≤◌, ◌<◌, ◌≡◌, refl, ◌∙◌, bit_or, bit_or_low, true, false, ◌||◌, [], ◌∷◌,
  ◌++◌, Bytes, ltb, ◌==◌, length, All, some, arith,
}
use air_quality_sensor_node.Base.Libc.{Libc, is_digit, decimal}
use air_quality_sensor_node.Message.{
  split_dot, pack_version, encode_rest, encode_parts, encode_firmware_version,
}

split_dot-digits :
    (ds rest : Bytes)
    → All (λ d. is_digit d ≡ true) ds
    → split_dot (ds ++ b'.' ∷ rest) ≡ some (ds, rest)
unfolding split_dot
split_dot-digits [] rest h = refl
split_dot-digits (d ∷ ds) rest h =
    let e : (d == 46) ≡ false = ground (arith, h.0) in rw (e, split_dot-digits ds rest h.1)

-- A version of three numbers with dots between them, of 5 to 31 characters in all, is sent with the
-- major number from bit 32 on, the minor one from bit 16 on and the patch below, if the last two
-- fit 16 bits and the first 31.
pub encode_firmware_version_lem :
    (libc : Libc) (major minor patch : Bytes)
    → All (λ d. is_digit d ≡ true) major
    → All (λ d. is_digit d ≡ true) minor
    → All (λ d. is_digit d ≡ true) patch
    → 5 ≤ length (major ++ b'.' ∷ (minor ++ b'.' ∷ patch))
    → length (major ++ b'.' ∷ (minor ++ b'.' ∷ patch)) ≤ 31
    → decimal 0 major < 2147483648
    → decimal 0 minor < 65536
    → decimal 0 patch < 65536
    → encode_firmware_version libc.atoi (major ++ b'.' ∷ (minor ++ b'.' ∷ patch))
      ≡ decimal 0 major * 2 ^ 32 + decimal 0 minor * 2 ^ 16 + decimal 0 patch
unfolding encode_firmware_version encode_parts encode_rest pack_version
encode_firmware_version_lem libc major minor patch h k l long short small small' small'' =
    let a = decimal 0 major in
    let b = decimal 0 minor in
    let c = decimal 0 patch in
    let text = major ++ 46 ∷ (minor ++ 46 ∷ patch) in
    let fits : (ltb (length text) 5 || ltb 31 (length text)) ≡ false = ground arith in
    let a' : a % 2 ^ 64 * 2 ^ 32 % 2 ^ 64 ≡ a * 2 ^ 32 = omega arith in
    let b' : b % 2 ^ 64 * 2 ^ 16 % 2 ^ 64 ≡ b * 2 ^ 16 = omega arith in
    let c' : c % 2 ^ 64 ≡ c = omega arith in
    let high : bit_or (a * 2 ^ 32) (b * 2 ^ 16) ≡ (a * 2 ^ 16 + b) * 2 ^ 16 =
      bit_or_low 32 a (b * 2 ^ 16) (omega arith) ∙ omega arith in
    let all : bit_or ((a * 2 ^ 16 + b) * 2 ^ 16) c ≡ a * 2 ^ 32 + b * 2 ^ 16 + c =
      bit_or_low 16 (a * 2 ^ 16 + b) c (omega arith) ∙ omega arith in
    rw
      (
        fits,
        split_dot-digits major (minor ++ 46 ∷ patch) h,
        split_dot-digits minor patch k,
        libc.atoi_all_digits major h small,
        libc.atoi_all_digits minor k (omega arith),
        libc.atoi_all_digits patch l (omega arith),
        a',
        b',
        c',
        high,
      )
      all
