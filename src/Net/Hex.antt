-- ===== src/Net/Hex.antt =====
-- The hexadecimal form of a packet: what `offload_sendto` writes is what `nsorf_char` reads.
use air_quality_sensor_node.Base.{
  ℕ, ◌+◌, ◌-◌, ◌/◌, ◌%◌, ◌<◌, ◌≤◌, ◌≡◌, ◌≢◌, refl, true, false, [], ◌∷◌, ◌++◌, Bytes, length, ◌==◌,
  ==_iff, arith, passes_below, passes_below_sound, All, append_assoc, append-nil, get_or, set,
  length-set, sym, ◌∙◌,
}
use air_quality_sensor_node.Base.Libc.{Libc}
use air_quality_sensor_node.Base.Outcome.{Outcome, ok, ◌>>=◌}
use air_quality_sensor_node.At.Buffer.{b_reset}
use air_quality_sensor_node.At.Receive.{NsorfCtx, from_hex, hex_byte, add_to_field, nsorf_char}
use air_quality_sensor_node.Net.{to_hex, hex_text}

from_hex_table : passes_below (λ b. hex_byte (to_hex (b / 16)) (to_hex (b % 16)) == b) 256 ≡ true
unfolding passes_below hex_byte from_hex to_hex
from_hex_table = refl

-- A byte comes back from its two digits.
pub hex_byte-to_hex : (b : ℕ) → b < 256 → hex_byte (to_hex (b / 16)) (to_hex (b % 16)) ≡ b
hex_byte-to_hex b h = (==_iff _ b).0 (passes_below_sound _ 256 b h from_hex_table)

to_hex_cases : (i : ℕ) → i < 16 → (b'0' ≤ to_hex i) × (to_hex i ≤ b'F')
unfolding to_hex
to_hex_cases i h = ground arith

digits_read :
    (f : Bytes) (a b : ℕ)
    → 2 ≤ length f
    → (get_or (set (set f 0 a) 1 b) 0 0 ≡ a) × (get_or (set (set f 0 a) 1 b) 1 0 ≡ b)
digits_read [] a b h = absurd (omega arith)
digits_read (x ∷ []) a b h = absurd (omega arith)
digits_read (x ∷ y ∷ f) a b h = (refl, refl)

differ : (a b : ℕ) → a ≢ b → (a == b) ≡ false
differ a b h = ground arith

module _ (libc : Libc) where
  open libc use {isspace, isspace_ascii}

  -- `nsorf_char` on one byte after another of a line that is not a URC.
  pub collect : NsorfCtx → Bytes → Outcome NsorfCtx
  collect c [] = ok c
  collect c (b ∷ bs) = nsorf_char libc c b_reset b false (isspace b) >>= λ c'. collect c' bs

  -- At the start of a byte of the packet.
  pub record InPacket (c : NsorfCtx) : Type 0 where
    pub in_data : c.fieldno ≡ 4
    pub at_start : c.fieldindex ≡ 0
    pub goes_on : c.complete ≡ false
    pub has_room : length c.field ≡ 16

  digit-isspace : (i : ℕ) → i < 16 → isspace (to_hex i) ≡ false
  digit-isspace i h =
      let (low, high) = to_hex_cases i h in
      isspace_ascii (to_hex i) (omega (arith, high)) ∙ ground (arith, low, high)

  -- A digit goes to the field.
  digit_added :
      (c : NsorfCtx) (i : ℕ)
      → i < 16
      → c.complete ≡ false
      → nsorf_char libc c b_reset (to_hex i) false (isspace (to_hex i))
        ≡ add_to_field libc c (to_hex i)
  unfolding nsorf_char
  digit_added c i h go =
      let (low, high) = to_hex_cases i h in
      rw (
        digit-isspace i h,
        go,
        differ (to_hex i) b',' (omega (arith, low)),
        differ (to_hex i) b'"' (omega (arith, low)),
      )

  -- The context behind a byte `b` of the packet.
  abbrev with_byte : NsorfCtx → ℕ → NsorfCtx
  with_byte c b = record c {
    field = set (set c.field 0 (to_hex (b / 16))) 1 (to_hex (b % 16));
    fieldindex = 0;
    packet = c.packet ++ b ∷ [];
    room = c.room - 1;
    received = c.received + 1;
  }

  first_digit :
      (c : NsorfCtx) (a : ℕ)
      → InPacket c
      → add_to_field libc c a ≡ ok (record c { field = set c.field 0 a; fieldindex = 1 })
  unfolding add_to_field
  first_digit c a h = rw (h.in_data, h.at_start)

  second_digit :
      (c : NsorfCtx) (b : ℕ)
      → InPacket c
      → b < 256
      → 0 < c.room
      → add_to_field libc
          (record c { field = set c.field 0 (to_hex (b / 16)); fieldindex = 1 })
          (to_hex (b % 16))
        ≡ ok (with_byte c b)
  unfolding add_to_field
  second_digit c b h lt room =
      let (high, low) =
        digits_read c.field (to_hex (b / 16)) (to_hex (b % 16)) (omega (arith, h.has_room)) in
      rw (h.in_data, differ c.room 0 (omega arith), high, low, hex_byte-to_hex b lt)

  byte_added :
      (c : NsorfCtx) (b : ℕ) (bs : Bytes)
      → InPacket c
      → b < 256
      → 0 < c.room
      → collect c (to_hex (b / 16) ∷ to_hex (b % 16) ∷ bs) ≡ collect (with_byte c b) bs
  unfolding collect
  byte_added c b bs h lt room = rw (
    digit_added c (b / 16) (omega arith) h.goes_on,
    first_digit c (to_hex (b / 16)) h,
    digit_added (record c { field = set c.field 0 (to_hex (b / 16)); fieldindex = 1 }) (b % 16)
        (omega arith) h.goes_on,
    second_digit c b h lt room,
  )

  -- At the start of a byte of the data field, the bytes of a packet, written in hexadecimal as
  -- `offload_sendto` does, are read into the buffer behind those that are there, if they fit, and
  -- the decoder is then again at the start of a byte.
  pub collect-hex_text :
      (packet : Bytes) (c : NsorfCtx)
      → All (λ b. b < 256) packet
      → InPacket c
      → length packet ≤ c.room
      → (c' : NsorfCtx) × (collect c (hex_text packet) ≡ ok c')
        × (c'.packet ≡ c.packet ++ packet)
        × (c'.received ≡ c.received + length packet)
        × (c'.room ≡ c.room - length packet)
        × InPacket c'
  unfolding hex_text collect
  collect-hex_text [] c bytes h fits =
      (c, refl, sym (append-nil c.packet), omega arith, omega arith, h)
  collect-hex_text (b ∷ packet) c bytes h fits =
      let same_length = length-set (set c.field 0 (to_hex (b / 16))) 1 (to_hex (b % 16)) in
      let inside : InPacket (with_byte c b) = record {
        in_data = h.in_data;
        at_start = refl;
        goes_on = h.goes_on;
        has_room = same_length ∙ length-set c.field 0 (to_hex (b / 16)) ∙ h.has_room;
      } in
      let (c', read, got, count, left, still) =
        collect-hex_text packet (with_byte c b) bytes.1 inside (omega (arith, fits)) in
      (
        c',
        byte_added c b (hex_text packet) h bytes.0 (omega (arith, fits)) ∙ read,
        got ∙ append_assoc c.packet (b ∷ []) packet,
        omega (arith, count),
        omega (arith, left),
        still,
      )
