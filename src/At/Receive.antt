-- ===== src/At/Receive.antt =====
-- The reply to AT+NSORF, which carries a received packet in hexadecimal: `nsorf_char`, `nsorf_eol`
-- and `atnsorf_decode`.
use air_quality_sensor_node.Base.{
  ℕ, ◌+◌, ◌-◌, ◌*◌, ◌%◌, bit_or, Bool, true, false, not, ◌&&◌, ◌||◌, [], ◌∷◌, ◌++◌, Bytes, ltb,
  ◌==◌, if◌then◌else◌, set, get_or, replicate,
}
use air_quality_sensor_node.Base.Int.{ℤ}
use air_quality_sensor_node.Base.Libc.{Libc}
use air_quality_sensor_node.Base.Outcome.{Outcome, ok, out_of_bounds}
use air_quality_sensor_node.At.Buffer.{Buf}
use air_quality_sensor_node.At.Input.{AtResult, Callbacks, decode_input}

abbrev pub max_field_size : ℕ
max_field_size = 16

-- `FROM_HEX`, of which the code keeps the low byte. `x - '0'` is an `int`.
unfoldable pub from_hex : ℕ → ℕ
from_hex x = if ltb b'9' x then (x + 10 + 256 - b'A') % 256 else (x + 256 - b'0') % 256

-- `FROM_HEX(a) << 4 | FROM_HEX(b)` in a `uint8_t`.
unfoldable pub hex_byte : ℕ → ℕ → ℕ
hex_byte a b = bit_or (from_hex a * 16) (from_hex b) % 256

-- `struct nsorf_ctx` with what its pointers lead to. `ip` is a text; the bytes received stand in
-- the caller's array from its start, and `room` is how many more fit.
pub record NsorfCtx : Type 0 where
  pub sockfd : ℤ
  pub ip : Bytes
  pub port : ℤ
  pub packet : Bytes
  pub room : ℕ
  pub remaining : ℕ
  pub received : ℕ
  pub fieldno : ℕ
  pub fieldindex : ℕ
  pub field : Bytes
  pub complete : Bool

-- The text in `field`, up to its first zero.
unfoldable pub c_string : Bytes → Bytes
c_string [] = []
c_string (c ∷ cs) = if c == 0 then [] else c ∷ c_string cs

module _ (libc : Libc) where
  open libc use {isspace, atoi}

  unfoldable pub nsorf_eol : NsorfCtx → Buf → Bool → Outcome NsorfCtx
  nsorf_eol c rb is_urc = ok (if c.complete then record c { remaining = 0 } else c)

  -- What the end of field `fieldno` stores, behind `fieldindex = 0`.
  unfoldable pub end_field : NsorfCtx → NsorfCtx
  end_field c =
      let next = record c {
        fieldindex = 0;
        field = replicate max_field_size 0;
        fieldno = c.fieldno + 1;
      } in
      if c.fieldno == 0
      then record next { sockfd = atoi (c_string c.field) }
      else if c.fieldno == 1
      then record next { ip = c_string c.field }
      else if c.fieldno == 2
      then record next { port = atoi (c_string c.field) }
      else if c.fieldno == 3
      then next
      else if c.fieldno == 4
      then record c { fieldindex = 0; complete = true }
      else record c { fieldindex = 0 }

  -- Any other byte: it goes to `field`; two of them in field 4 are a byte of the packet.
  unfoldable pub add_to_field : NsorfCtx → ℕ → Outcome NsorfCtx
  add_to_field c b =
      let field' = set c.field c.fieldindex b in
      if not (ltb c.fieldindex max_field_size)
      then out_of_bounds
      else if not ((c.fieldno == 4) && (c.fieldindex + 1 == 2))
      then ok (record c { field = field'; fieldindex = c.fieldindex + 1 })
      else if c.room == 0
      then out_of_bounds
      else ok (record c {
        field = field';
        fieldindex = 0;
        packet = c.packet ++ (hex_byte (get_or field' 0 0) (get_or field' 1 0) ∷ []);
        room = c.room - 1;
        received = c.received + 1;
      })

  unfoldable pub nsorf_char : NsorfCtx → Buf → ℕ → Bool → Bool → Outcome NsorfCtx
  nsorf_char c rb b is_urc is_space =
      if is_urc || (is_space || c.complete)
      then ok c
      else if b == b','
      then ok (end_field c)
      else if b == b'"'
      then ok c
      else add_to_field c b

  abbrev pub nsorf_callbacks : Callbacks NsorfCtx
  nsorf_callbacks = record { char_cb = nsorf_char; eol_cb = nsorf_eol }

  -- `field` is not set in the initialiser, which clears it. The caller's variables come first.
  abbrev pub init_nsorf_ctx : ℤ → Bytes → ℤ → ℕ → ℕ → ℕ → NsorfCtx
  init_nsorf_ctx sockfd ip port room received remaining = record {
    sockfd = sockfd;
    ip = ip;
    port = port;
    packet = [];
    room = room;
    remaining = remaining;
    received = received;
    fieldno = 0;
    fieldindex = 0;
    field = replicate max_field_size 0;
    complete = false;
  }

  unfoldable pub atnsorf_decode :
      ℤ → Bytes → ℤ → ℕ → ℕ → ℕ → Bytes → Outcome (AtResult × NsorfCtx × Bytes)
  atnsorf_decode sockfd ip port room received remaining bytes =
      decode_input isspace nsorf_callbacks (init_nsorf_ctx sockfd ip port room received remaining)
        bytes
