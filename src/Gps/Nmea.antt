-- ===== src/Gps/Nmea.antt =====
-- `nmea_valid` and `to_hexchar` of Firmware/src/nmealib.c.
pub mod Checksum
pub mod Parse
pub mod Loop
pub mod Fields
use air_quality_sensor_node.Base.{
  ℕ, zero, suc, ◌+◌, ◌-◌, ◌/◌, ◌%◌, ◌^◌, bit_xor, Bool, true, false, not, ◌&&◌, ◌||◌, [], ◌∷◌,
  Bytes, ltb, ◌==◌, if◌then◌else◌, get_elem?, Option, none, some,
}
use air_quality_sensor_node.Base.Outcome.{Outcome, ok, out_of_bounds, ◌>>=◌, in_bounds}

abbrev pub max_nmea_buffer : ℕ
max_nmea_buffer = 254

unfoldable pub to_hexchar : ℕ → ℕ
to_hexchar val = let low = val % 16 in if ltb low 10 then b'0' + low else b'A' + (low - 10)

-- The local variables of `nmea_valid`; the numbers are of 8 bits.
pub record Scan : Type 0 where
  pub checksum : ℕ
  pub end : ℕ
  pub checksum_pos : ℕ
  pub has_checksum : Bool
  pub in_sentence : Bool
  pub has_preamble : Bool

abbrev pub init_scan : Scan
init_scan = record {
  checksum = 0;
  end = 0;
  checksum_pos = 0;
  has_checksum = false;
  in_sentence = false;
  has_preamble = false;
}

-- The `switch` on the byte `b` at `i`; `none` is the return for a byte that is not printable.
unfoldable pub scan_byte : ℕ → ℕ → Scan → Option Scan
scan_byte i b s =
    if b == b'$'
    then some (record s { checksum = 0; in_sentence = true; has_preamble = true })
    else if b == b'*'
    then some (record s { has_checksum = true; checksum_pos = i % 2 ^ 8; end = i % 2 ^ 8 })
    else if (b == b'\r') || ((b == b'\n') || (b == 0))
    then some (record s { end = i % 2 ^ 8 })
    else if not s.in_sentence
    then some s
    else if ltb b 32 || ltb 126 b
    then none
    else some (record s { checksum = bit_xor s.checksum b })

-- The loop: `rounds` are left, `bytes` stand in the array from `i` on. `none` is the return of false.
unfoldable pub scan : ℕ → ℕ → Bytes → Scan → Outcome (Option Scan)
scan zero i bytes s = ok (some s)
scan (suc rounds) i [] s = if s.end == 0 then out_of_bounds else ok (some s)
scan (suc rounds) i (b ∷ bytes) s =
    if s.end == 0
    then elim (scan_byte i b s) [ none ↦ ok none | some s' ↦ scan rounds (i + 1) bytes s' ]
    else ok (some s)

-- Behind the loop.
unfoldable pub check_sum : Bytes → Option Scan → Outcome Bool
check_sum buffer none = ok false
check_sum buffer (some s) =
    let compared = (do
      high ← in_bounds (get_elem? buffer (s.checksum_pos + 1))
      low ← in_bounds (get_elem? buffer (s.checksum_pos + 2))
      ok ((high == to_hexchar (s.checksum / 16)) && (low == to_hexchar (s.checksum % 16)))) in
    if not s.has_preamble then ok false else if s.has_checksum then compared else ok true

unfoldable pub nmea_valid : Bytes → Outcome Bool
nmea_valid buffer = do s ← scan max_nmea_buffer 0 buffer init_scan; check_sum buffer s
