-- ===== src/At/Address.antt =====
-- The reply to AT+CGPADDR: `cgpaddr_char`, `cgpaddr_eol` and `atcgpaddr_decode`.
pub mod Quoted
use air_quality_sensor_node.Base.{
  ℕ, zero, suc, ◌+◌, ◌%◌, ◌^◌, Bool, true, false, not, ◌&&◌, [], ◌∷◌, ◌++◌, Bytes, ltb, ◌==◌,
  if◌then◌else◌, set, take, replicate, length, codes,
}
use air_quality_sensor_node.Base.Outcome.{Outcome, ok, out_of_bounds, ◌>>=◌}
use air_quality_sensor_node.At.Buffer.{Buf, b_is}
use air_quality_sensor_node.At.Input.{AtResult, Callbacks, decode_input}

abbrev pub address_buffer_size : ℕ
address_buffer_size = 20

-- `struct cgp_ctx`. `address` is the text that was last written through the caller's pointer.
pub record CgpCtx : Type 0 where
  pub in_address : Bool
  pub buffer : Bytes
  pub i : ℕ
  pub address : Bytes
  pub len : ℕ

-- The loop of `cgpaddr_eol` over the bytes collected: the three tests in turn, each on what the one
-- before it left.
unfoldable pub quoted : Bool → Bytes → Bytes
quoted in_str [] = []
quoted in_str (c ∷ cs) =
    let closed = if in_str && (c == b'"') then false else in_str in
    let opened = if not closed && (c == b'"') then true else closed in
    if closed then c ∷ quoted opened cs else quoted opened cs

-- `room` is the size of the caller's array.
unfoldable pub cgpaddr_eol : ℕ → CgpCtx → Buf → Bool → Outcome CgpCtx
cgpaddr_eol room c rb is_urc =
    let text = quoted false (take c.i c.buffer) in
    if not c.in_address
    then ok (record c { in_address = false })
    else if ltb (length text) room
    then ok (record c { in_address = false; address = text; len = length text })
    else out_of_bounds

unfoldable pub cgpaddr_char : CgpCtx → Buf → ℕ → Bool → Bool → Outcome CgpCtx
cgpaddr_char c rb b is_urc is_space =
    let starts = is_urc && ((rb.size == 9) && b_is rb (codes "+CGPADDR:")) in
    let collects = c.in_address && not is_space in
    if collects && not (ltb c.i address_buffer_size)
    then out_of_bounds
    else ok (record c {
      buffer = if collects then set c.buffer c.i b else c.buffer;
      i = if collects then (c.i + 1) % 2 ^ 8 else c.i;
      in_address = if starts then true else c.in_address;
    })

abbrev pub cgpaddr_callbacks : ℕ → Callbacks CgpCtx
cgpaddr_callbacks room = record { char_cb = cgpaddr_char; eol_cb = cgpaddr_eol room }

-- `len` is what the caller's variable holds before the call.
abbrev pub init_cgp_ctx : ℕ → CgpCtx
init_cgp_ctx len = record {
  in_address = false;
  buffer = replicate address_buffer_size 0;
  i = 0;
  address = [];
  len = len;
}

unfoldable pub atcgpaddr_decode : (ℕ → Bool) → ℕ → ℕ → Bytes → Outcome (AtResult × CgpCtx × Bytes)
atcgpaddr_decode isspace room len bytes =
    decode_input isspace (cgpaddr_callbacks room) (init_cgp_ctx len) bytes
