-- ===== src/Config.antt =====
-- `config.c`: the APN configuration in RAM and in flash, and the choice of an APN.
pub mod Message
pub mod Ping
pub mod Select
use air_quality_sensor_node.Base.{
  ℕ, zero, suc, Bool, true, false, not, ◌&&◌, ◌||◌, [], ◌∷◌, Bytes, List, codes, eqb, if◌then◌else◌,
  Option, none, some,
}
use air_quality_sensor_node.Base.Libc.{Libc}
use air_quality_sensor_node.Base.Outcome.{Outcome, ok, ◌>>=◌}
use air_quality_sensor_node.Modem.{Line, try_apn, current_apn_size}

-- The texts of `apn_config`, without their terminators: fewer than 64 and 128 bytes.
pub record ApnConfig : Type 0 where
  pub apn1 : Bytes
  pub apn2 : Bytes
  pub apn3 : Bytes
  pub apn4 : Bytes
  pub coap1 : Bytes
  pub coap2 : Bytes
  pub coap3 : Bytes
  pub coap4 : Bytes

-- What `config.c` and `config_message.c` call of Zephyr's storage, in the state `F`. `nvs_read`
-- gives nothing where its result is not positive.
pub record Nvs (F : Type 0) : Type 0 where
  pub nvs_read : F → Option ApnConfig
  pub nvs_write : ApnConfig → F → F

-- CURRENT_APN_CONFIG and the flash.
pub record Stored (F : Type 0) : Type 0 where
  pub current : ApnConfig
  pub flash : F

-- The initial value.
abbrev pub init_default_config : ApnConfig
init_default_config = record {
  apn1 = codes "mda.lab5e";
  apn2 = codes "mda.ee";
  apn3 = codes "telenor.iotgw";
  apn4 = codes "telenor.iot";
  coap1 = codes "172.16.15.14";
  coap2 = codes "172.16.15.14";
  coap3 = codes "172.16.32.1";
  coap4 = codes "88.99.192.151";
}

-- `if (0 != strlen(new)) strcpy(old, new)`
unfoldable pub unless_empty : Bytes → Bytes → Bytes
unless_empty [] old = old
unless_empty (c ∷ cs) old = c ∷ cs

-- The copies at the end of `has_flash_config`.
unfoldable pub merge_config : ApnConfig → ApnConfig → ApnConfig
merge_config tmp current = record current {
  apn1 = unless_empty tmp.apn1 current.apn1;
  apn2 = unless_empty tmp.apn2 current.apn2;
  apn3 = unless_empty tmp.apn3 current.apn3;
  coap1 = unless_empty tmp.coap1 current.coap1;
  coap2 = unless_empty tmp.coap2 current.coap2;
  coap3 = unless_empty tmp.coap3 current.coap3;
}

module _ {F : Type 0} (nvs : Nvs F) where
  open nvs use {nvs_read, nvs_write}

  unfoldable pub save_apn_config : Stored F → Stored F
  save_apn_config s = record s { flash = nvs_write s.current s.flash }

  -- Behind `nvs_read`: the two comparisons and the copies.
  unfoldable pub use_flash_config : Option ApnConfig → Stored F → Bool × Stored F
  use_flash_config none s = (false, s)
  use_flash_config (some tmp) s =
      if not (eqb tmp.apn4 s.current.apn4)
      then (false, s)
      else if not (eqb tmp.coap4 s.current.coap4)
      then (false, s)
      else (true, record s { current = merge_config tmp s.current })

  -- The result and the configuration in RAM.
  unfoldable pub has_flash_config : Stored F → Bool × Stored F
  has_flash_config s = use_flash_config (nvs_read s.flash) s

  -- Without the calls that set the file system up.
  unfoldable pub init_config_nvs : F → Stored F
  init_config_nvs flash =
      let (found, s) = has_flash_config (record { current = init_default_config; flash = flash }) in
      if found then s else save_apn_config s

-- CURRENT_APN_BUFFER and CURRENT_COAP_BUFFER, with the modem.
pub record Active (W : Type 0) : Type 0 where
  pub apn : Bytes
  pub coap : Bytes
  pub modem : W

-- `select_active_apn` returns, or sleeps for an hour and reboots.
pub data Selection (W : Type 0) : Type 0 where
  selected : Active W → Selection W
  rebooting : Active W → Selection W

-- What the `switch` gives for the four values of `i`.
abbrev pub candidates : ApnConfig → List (Bytes × Bytes)
candidates c = (c.apn1, c.coap1) ∷ (c.apn2, c.coap2) ∷ (c.apn3, c.coap3) ∷ (c.apn4, c.coap4) ∷ []

module _ {W : Type 0} (libc : Libc) (line : Line W) where
  open line use {sleep}

  -- The loop over the APNs that are left, each with its server.
  unfoldable pub select_from : List (Bytes × Bytes) → Active W → Outcome (Selection W)
  select_from [] a = ok (rebooting (record a { modem = sleep 3600000 a.modem }))
  select_from ((apn, coap) ∷ rest) a = do
    (ready, w) ← try_apn libc line apn a.modem
    let a' : Active W = record { apn = apn; coap = coap; modem = w } in
        elim ready [ true ↦ ok (selected a') | false ↦ select_from rest a' ]

  unfoldable pub select_active_apn : ApnConfig → Active W → Outcome (Selection W)
  select_active_apn c a = select_from (candidates c) a

  unfoldable pub select_ping_apn : ApnConfig → Active W → Outcome (Bool × Active W)
  select_ping_apn c a = do
    (ready, w) ← try_apn libc line c.apn4 a.modem
    ok (ready, record { apn = c.apn4; coap = c.coap4; modem = w })
