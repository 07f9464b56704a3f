-- ===== src/At/Buffer.antt =====
-- `struct buf` and the functions on it.
pub mod Prefix
use air_quality_sensor_node.Base.{
  ℕ, zero, suc, ◌+◌, ◌%◌, ◌^◌, Bool, true, false, ◌&&◌, [], ◌∷◌, Bytes, ltb, ◌==◌, if◌then◌else◌,
  set, get_or, replicate,
}

abbrev pub b_size : ℕ
b_size = 10

-- `index` is a `uint8_t` that stops at 10, `size` a `uint16_t`.
pub record Buf : Type 0 where
  pub bytes : Bytes
  pub index : ℕ
  pub size : ℕ

-- `b_reset`, and so `b_init`.
abbrev pub b_reset : Buf
b_reset = record { bytes = replicate b_size 0; index = 0; size = 0 }

unfoldable pub b_add : Buf → ℕ → Buf
b_add rb b =
    let size' = (rb.size + 1) % 2 ^ 16 in
    if ltb rb.index b_size
    then record { bytes = set rb.bytes rb.index b; index = rb.index + 1; size = size' }
    else record rb { size = size' }

-- `strncmp(data, str, len) == 0` for a text `str` of `len` bytes without a zero.
unfoldable pub is_prefix : Bytes → Bytes → Bool
is_prefix [] bytes = true
is_prefix (c ∷ cs) [] = false
is_prefix (c ∷ cs) (b ∷ bs) = (c == b) && is_prefix cs bs

unfoldable pub b_is : Buf → Bytes → Bool
b_is rb str = is_prefix str rb.bytes

unfoldable pub b_is_urc : Buf → Bool
b_is_urc rb = ltb 0 rb.size && (get_or rb.bytes 0 0 == b'+')
