-- ===== src/At/Identity.antt =====
-- The replies to AT+CIMI and AT+CGSN: `cimi_char`, `cimi_eol`, `cgsn_char`, `cgsn_eol`,
-- `atcimi_decode` and `atcgsn_decode`.
pub mod Reply
use air_quality_sensor_node.Base.{
  ℕ, ◌+◌, ◌%◌, ◌^◌, Bool, true, false, not, ◌&&◌, Bytes, ltb, if◌then◌else◌, set, length,
}
use air_quality_sensor_node.Base.Outcome.{Outcome, ok, out_of_bounds}
use air_quality_sensor_node.At.Buffer.{Buf}
use air_quality_sensor_node.At.Input.{AtResult, Callbacks, decode_input}

-- `struct cimi_ctx` and `struct cgsn_ctx`. `bytes` is the caller's array.
pub record IdCtx : Type 0 where
  pub bytes : Bytes
  pub index : ℕ
  pub done : Bool

-- A write that must stay inside the caller's array.
unfoldable pub store_digit : IdCtx → ℕ → Outcome IdCtx
store_digit c b =
    if ltb c.index (length c.bytes)
    then ok (record c { bytes = set c.bytes c.index b; index = (c.index + 1) % 2 ^ 8 })
    else out_of_bounds

unfoldable pub cimi_char : IdCtx → Buf → ℕ → Bool → Bool → Outcome IdCtx
cimi_char c rb b is_urc is_space =
    if not c.done && (not is_urc && not is_space) then store_digit c b else ok c

unfoldable pub cgsn_char : IdCtx → Buf → ℕ → Bool → Bool → Outcome IdCtx
cgsn_char c rb b is_urc is_space = if not c.done && not is_space then store_digit c b else ok c

-- `cimi_eol` and `cgsn_eol` are the same.
unfoldable pub id_eol : IdCtx → Buf → Bool → Outcome IdCtx
id_eol c rb is_urc =
    if not (not c.done && ltb 0 c.index)
    then ok c
    else if ltb c.index (length c.bytes)
    then ok (record c { bytes = set c.bytes c.index 0; done = true })
    else out_of_bounds

abbrev pub init_id_ctx : Bytes → IdCtx
init_id_ctx array = record { bytes = array; index = 0; done = false }

unfoldable pub atcimi_decode : (ℕ → Bool) → Bytes → Bytes → Outcome (AtResult × IdCtx × Bytes)
atcimi_decode isspace imsi bytes =
    decode_input isspace (record { char_cb = cimi_char; eol_cb = id_eol }) (init_id_ctx imsi) bytes

abbrev pub cgsn_callbacks : Callbacks IdCtx
cgsn_callbacks = record { char_cb = cgsn_char; eol_cb = id_eol }

unfoldable pub atcgsn_decode : (ℕ → Bool) → Bytes → Bytes → Outcome (AtResult × IdCtx × Bytes)
atcgsn_decode isspace imei bytes = decode_input isspace cgsn_callbacks (init_id_ctx imei) bytes
