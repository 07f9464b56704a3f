-- ===== src/Fota/Tlv.antt =====
-- Tag-length-value fields: Firmware/src/fota_tlv.c.
pub mod Strings
use air_quality_sensor_node.Base.{
  ℕ, zero, suc, ◌+◌, ◌*◌, ◌%◌, ◌^◌, Bool, [], ◌∷◌, ◌++◌, Bytes, ltb, ◌==◌, if◌then◌else◌, length,
  get_elem?,
}
use air_quality_sensor_node.Base.Outcome.{
  Outcome, ok, failed, out_of_bounds, out_of_fuel, ◌>>=◌, in_bounds,
}

-- The copying loop of `encode_tlv_string`, from `i` on: the bytes that it writes. `i` is a
-- `uint8_t`, so it wraps before it reaches a length above 255.
unfoldable pub copy_string : ℕ → ℕ → Bytes → Outcome Bytes
copy_string zero i str = out_of_fuel
copy_string (suc fuel) i str =
    let rest = (do
      b ← in_bounds (get_elem? str i)
      bs ← copy_string fuel ((i + 1) % 256) str
      ok (b ∷ bs)) in
    if ltb i (length str) then rest else ok []

-- The bytes written from `buf` on; the return value is their number. `str` is the text without its
-- terminator.
unfoldable pub encode_tlv_string : ℕ → ℕ → Bytes → Outcome Bytes
encode_tlv_string fuel id str = do
  body ← copy_string fuel 0 str
  ok (id ∷ (length str % 256) ∷ body)

-- The copying loop of `decode_tlv_string`: `n` rounds are left, and `room` bytes of `str` are left
-- for them and for the terminator. Gives the new index and the bytes.
unfoldable pub decode_string : Bytes → ℕ → ℕ → ℕ → Outcome (ℕ × Bytes)
decode_string buf zero zero idx = out_of_bounds
decode_string buf (suc room) zero idx = ok (idx, [])
decode_string buf zero (suc n) idx = out_of_bounds
decode_string buf (suc room) (suc n) idx = do
  b ← in_bounds (get_elem? buf idx)
  (idx', bs) ← decode_string buf room n (idx + 1)
  ok (idx', b ∷ bs)

-- `size` is the size of the array behind `str`, which the caller provides and the code never asks.
unfoldable pub decode_tlv_string : Bytes → ℕ → ℕ → Outcome (ℕ × Bytes)
decode_tlv_string buf size idx = do
  len ← in_bounds (get_elem? buf idx)
  decode_string buf size len (idx + 1)

unfoldable pub decode_tlv_uint32 : Bytes → ℕ → Outcome (ℕ × ℕ)
decode_tlv_uint32 buf idx = do
  len ← in_bounds (get_elem? buf idx)
  let value = (do
    b3 ← in_bounds (get_elem? buf (idx + 1))
    b2 ← in_bounds (get_elem? buf (idx + 2))
    b1 ← in_bounds (get_elem? buf (idx + 3))
    b0 ← in_bounds (get_elem? buf (idx + 4))
    ok (idx + 5, (b3 * 2 ^ 24 + b2 * 2 ^ 16 + b1 * 2 ^ 8 + b0) % 2 ^ 32))
  if len == 4 then value else failed

unfoldable pub decode_tlv_bool : Bytes → ℕ → Outcome (ℕ × Bool)
decode_tlv_bool buf idx = do
  len ← in_bounds (get_elem? buf idx)
  let value = (do b ← in_bounds (get_elem? buf (idx + 1)); ok (idx + 2, b == 1))
  if len == 1 then value else failed
