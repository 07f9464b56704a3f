-- ===== src/Config/Message.antt =====
-- `config_message.c`: what a configuration request changes. `pb_decode` of nanopb is a parameter.
pub mod Accepted
pub mod Hosts
use air_quality_sensor_node.Base.{
  ℕ, zero, suc, Bool, true, false, not, ◌&&◌, ◌||◌, [], ◌∷◌, Bytes, codes, eqb, ◌==◌, if◌then◌else◌,
  drop, Option, none, some,
}
use air_quality_sensor_node.Base.Outcome.{Outcome, ok, out_of_bounds, ◌>>=◌}
use air_quality_sensor_node.Base.Int.{ℤ, pos, negsuc}
use air_quality_sensor_node.At.Buffer.{is_prefix}
use air_quality_sensor_node.Config.{ApnConfig, Nvs, Stored, save_apn_config}

-- The texts of `aqconfig_setapn`.
pub record SetApn : Type 0 where
  pub apn1 : Bytes
  pub apn2 : Bytes
  pub apn3 : Bytes
  pub coap1 : Bytes
  pub coap2 : Bytes
  pub coap3 : Bytes

-- `%99[^:]`: at most `n` bytes, up to a colon.
unfoldable pub scan_host : ℕ → Bytes → Bytes
scan_host zero cs = []
scan_host (suc n) [] = []
scan_host (suc n) (c ∷ cs) = if c == b':' then [] else c ∷ scan_host n cs

-- `ip` has no value where `sscanf` does not come to the host or finds it empty.
unfoldable pub rewrite_url_to_ip_only : Bytes → Outcome Bytes
rewrite_url_to_ip_only url =
    let host = scan_host 99 (drop 7 url) in
    if is_prefix (codes "coap://") url && not (eqb host []) then ok host else out_of_bounds

unfoldable pub rewrite_urls : SetApn → Outcome SetApn
rewrite_urls m = do
  coap1 ← rewrite_url_to_ip_only m.coap1
  coap2 ← rewrite_url_to_ip_only m.coap2
  coap3 ← rewrite_url_to_ip_only m.coap3
  ok (record m { coap1 = coap1; coap2 = coap2; coap3 = coap3 })

unfoldable pub has_empty : SetApn → Bool
has_empty m =
    eqb m.apn1 []
    || (eqb m.apn2 [] || (eqb m.apn3 [] || (eqb m.coap1 [] || (eqb m.coap2 [] || eqb m.coap3 []))))

unfoldable pub differs : ApnConfig → SetApn → Bool
differs c m =
    not (eqb c.apn1 m.apn1)
    || (not (eqb c.apn2 m.apn2)
        || (not (eqb c.apn3 m.apn3)
            || (not (eqb c.coap1 m.coap1)
                || (not (eqb c.coap2 m.coap2) || not (eqb c.coap3 m.coap3)))))

unfoldable pub set_config : ApnConfig → SetApn → ApnConfig
set_config c m = record c {
  apn1 = m.apn1;
  apn2 = m.apn2;
  apn3 = m.apn3;
  coap1 = m.coap1;
  coap2 = m.coap2;
  coap3 = m.coap3;
}

module _ {F : Type 0} (nvs : Nvs F) where
  -- Behind the rewriting of the addresses.
  unfoldable pub accept_config : SetApn → Stored F → ℤ × Stored F
  accept_config m s =
      if has_empty m
      then (negsuc 1, s)
      else if not (differs s.current m)
      then (negsuc 2, s)
      else (pos 0, save_apn_config nvs (record s { current = set_config s.current m }))

  -- Behind `pb_decode`.
  unfoldable pub use_message : Option SetApn → Stored F → Outcome (ℤ × Stored F)
  use_message none s = ok (negsuc 0, s)
  use_message (some m) s = do m' ← rewrite_urls m; ok (accept_config m' s)

  unfoldable pub decode_config_message :
      (Bytes → Option SetApn) → Bytes → Stored F → Outcome (ℤ × Stored F)
  decode_config_message pb_decode buf s = use_message (pb_decode buf) s
