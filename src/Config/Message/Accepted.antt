-- ===== src/Config/Message/Accepted.antt =====
-- When a configuration request is accepted, and that it stays.
use air_quality_sensor_node.Base.{
  ℕ, ◌≡◌, ◌≢◌, refl, ap, ◌∙◌, Bool, true, false, ◌||◌, [], ◌∷◌, Bytes, eqb, eqb_refl, Option, none,
  some, ◌⊎◌, inl, inr, Bool-cases,
}
use air_quality_sensor_node.Base.Outcome.{ok, bind-eq-ok}
use air_quality_sensor_node.Base.Int.{ℤ, pos, negsuc}
use air_quality_sensor_node.Config.{
  ApnConfig, Nvs, Stored, save_apn_config, init_config_nvs, init_default_config, has_flash_config,
  use_flash_config, merge_config, unless_empty,
}
use air_quality_sensor_node.Config.Message.{
  SetApn, rewrite_url_to_ip_only, rewrite_urls, has_empty, differs, set_config, accept_config,
  decode_config_message, use_message,
}
use air_quality_sensor_node.Config.Message.Hosts.{IsHostOf, rewrite_url_to_ip_only-IsHostOf}

differs-set_config : (c : ApnConfig) (m : SetApn) → differs (set_config c m) m ≡ false
unfolding differs set_config
differs-set_config c m = rw (
  eqb_refl m.apn1,
  eqb_refl m.apn2,
  eqb_refl m.apn3,
  eqb_refl m.coap1,
  eqb_refl m.coap2,
  eqb_refl m.coap3,
)

||-false : (a b : Bool) → (a || b) ≡ false → (a ≡ false) × (b ≡ false)
||-false false b h = (refl, h)
||-false true b h = cc

unless_empty-kept : (new old : Bytes) → eqb new [] ≡ false → unless_empty new old ≡ new
unfolding unless_empty
unless_empty-kept [] old h = cc
unless_empty-kept (c ∷ cs) old h = refl

-- Read back over the initial configuration, a complete configuration is what it was.
merge_config-set_config :
    (c : ApnConfig) (m : SetApn)
    → has_empty m ≡ false
    → c.apn4 ≡ init_default_config.apn4
    → c.coap4 ≡ init_default_config.coap4
    → merge_config (set_config c m) init_default_config ≡ set_config c m
unfolding has_empty merge_config set_config
merge_config-set_config c m h e4 e4' =
    let (h1, t1) = ||-false _ _ h in
    let (h2, t2) = ||-false _ _ t1 in
    let (h3, t3) = ||-false _ _ t2 in
    let (h4, t4) = ||-false _ _ t3 in
    let (h5, h6) = ||-false _ _ t4 in
    rw (
      unless_empty-kept m.apn1 init_default_config.apn1 h1,
      unless_empty-kept m.apn2 init_default_config.apn2 h2,
      unless_empty-kept m.apn3 init_default_config.apn3 h3,
      unless_empty-kept m.coap1 init_default_config.coap1 h4,
      unless_empty-kept m.coap2 init_default_config.coap2 h5,
      unless_empty-kept m.coap3 init_default_config.coap3 h6,
      e4,
      e4',
    )

same_text : (xs ys : Bytes) → xs ≡ ys → eqb xs ys ≡ true
same_text xs ys e = rw e (eqb_refl ys)

-- Such a configuration passes the two tests of `has_flash_config`.
init_config_nvs_found :
    {F : Type 0} (nvs : Nvs F) (flash : F) (c : ApnConfig)
    → nvs.nvs_read flash ≡ some c
    → c.apn4 ≡ init_default_config.apn4
    → c.coap4 ≡ init_default_config.coap4
    → init_config_nvs nvs flash
      ≡ record { current = merge_config c init_default_config; flash = flash }
unfolding init_config_nvs has_flash_config use_flash_config
init_config_nvs_found nvs flash c r e4 e4' =
    let a = same_text c.apn4 init_default_config.apn4 e4 in
    let b = same_text c.coap4 init_default_config.coap4 e4' in simp (r, a, b) refl

-- The rewritten request has the hosts in place of the addresses.
rewrite_urls-hosts :
    (m m' : SetApn)
    → rewrite_urls m ≡ ok m'
    → (host1 : Bytes) × (host2 : Bytes) × (host3 : Bytes) × IsHostOf m.coap1 host1
      × IsHostOf m.coap2 host2
      × IsHostOf m.coap3 host3
      × (m' ≡ record m { coap1 = host1; coap2 = host2; coap3 = host3 })
unfolding rewrite_urls
rewrite_urls-hosts m m' h =
    let (host1, h1, r1) = bind-eq-ok (rewrite_url_to_ip_only m.coap1) _ h in
    let (host2, h2, r2) = bind-eq-ok (rewrite_url_to_ip_only m.coap2) _ r1 in
    let (host3, h3, r3) = bind-eq-ok (rewrite_url_to_ip_only m.coap3) _ r2 in
    (
      host1,
      host2,
      host3,
      rewrite_url_to_ip_only-IsHostOf m.coap1 host1 h1,
      rewrite_url_to_ip_only-IsHostOf m.coap2 host2 h2,
      rewrite_url_to_ip_only-IsHostOf m.coap3 host3 h3,
      cc,
    )

ne_empty : (xs : Bytes) → eqb xs [] ≡ false → xs ≢ []
ne_empty [] h e = cc
ne_empty (x ∷ xs) h e = cc

has_empty-apns : (m : SetApn) → has_empty m ≡ false → (m.apn1 ≢ []) × (m.apn2 ≢ []) × (m.apn3 ≢ [])
unfolding has_empty
has_empty-apns m h =
    let (h1, t1) = ||-false _ _ h in
    let (h2, t2) = ||-false _ _ t1 in
    let (h3, t3) = ||-false _ _ t2 in (ne_empty m.apn1 h1, ne_empty m.apn2 h2, ne_empty m.apn3 h3)

module _ {F : Type 0} (nvs : Nvs F) where
  open nvs use {nvs_read, nvs_write}

  -- The three results.
  abbrev pub Verdict : SetApn → Stored F → ℤ × Stored F → Type 0
  Verdict m s (r, s') =
      ((r ≡ negsuc 1) × (has_empty m ≡ true) × (s' ≡ s))
      ⊎ (((r ≡ negsuc 2) × (has_empty m ≡ false) × (differs s.current m ≡ false) × (s' ≡ s))
          ⊎ ((r ≡ pos 0)
              × (has_empty m ≡ false)
              × (s'.current ≡ set_config s.current m)
              × (s'.flash ≡ nvs_write s'.current s.flash)))

  pub accept_config-Verdict : (m : SetApn) (s : Stored F) → Verdict m s (accept_config nvs m s)
  unfolding accept_config save_apn_config
  accept_config-Verdict m s = elim (Bool-cases (has_empty m)) [
    | inl e ↦ rw e (inl (refl, refl, refl))
    | inr e ↦ elim (Bool-cases (differs s.current m)) [
      | inl d ↦ rw (e, d) (inr (inr (refl, refl, refl, refl)))
      | inr d ↦ rw (e, d) (inr (inl (refl, refl, refl, refl)))
    ]
  ]

  accept_config_zero :
      (m : SetApn) (s s' : Stored F)
      → accept_config nvs m s ≡ (pos 0, s')
      → (has_empty m ≡ false)
        × (s'.current ≡ set_config s.current m)
        × (s'.flash ≡ nvs_write s'.current s.flash)
  accept_config_zero m s s' h = elim (rw h at (accept_config-Verdict m s)) [
    | inl v ↦ cc
    | inr (inl v) ↦ cc
    | inr (inr (_, full, kept, written)) ↦ (full, kept, written)
  ]

  accept_config_again :
      (m : SetApn) (s s' : Stored F)
      → accept_config nvs m s ≡ (pos 0, s')
      → accept_config nvs m s' ≡ (negsuc 2, s')
  unfolding accept_config
  accept_config_again m s s' h =
      let (full, kept, _) = accept_config_zero m s s' h in
      let known : differs s'.current m ≡ false = rw kept (differs-set_config s.current m) in
      rw (full, known)

  accept_config_stays :
      (m : SetApn) (s s' : Stored F)
      → accept_config nvs m s ≡ (pos 0, s')
      → nvs_read (nvs_write s'.current s.flash) ≡ some s'.current
      → s.current.apn4 ≡ init_default_config.apn4
      → s.current.coap4 ≡ init_default_config.coap4
      → init_config_nvs nvs s'.flash ≡ s'
  unfolding set_config
  accept_config_stays m s s' h r e4 e4' =
      let (full, kept, written) = accept_config_zero m s s' h in
      let found : nvs_read s'.flash ≡ some s'.current = rw written r in
      let a4 : s'.current.apn4 ≡ init_default_config.apn4 = rw kept e4 in
      let c4 : s'.current.coap4 ≡ init_default_config.coap4 = rw kept e4' in
      let back : merge_config s'.current init_default_config ≡ s'.current =
        rw kept (merge_config-set_config s.current m full e4 e4') in
      init_config_nvs_found nvs s'.flash s'.current found a4 c4 ∙ rw back

  use_message-ok :
      (o : Option SetApn) (s s' : Stored F)
      → use_message nvs o s ≡ ok (pos 0, s')
      → (m m' : SetApn) × (o ≡ some m)
        × (rewrite_urls m ≡ ok m')
        × (accept_config nvs m' s ≡ (pos 0, s'))
  unfolding use_message
  use_message-ok none s s' h = cc
  use_message-ok (some m) s s' h =
      let (m', rewritten, accepted) = bind-eq-ok (rewrite_urls m) _ h in
      (m, m', refl, rewritten, cc)

  -- Where a request is answered with 0: it was decoded; each of its three servers is an address with a
  -- host; the configuration has the three APNs of the request, not empty, each with its own host, and
  -- the old last APN with its server; and the flash was written with that configuration.
  pub decode_config_message_accepts :
      (pb_decode : Bytes → Option SetApn) (buf : Bytes) (s s' : Stored F)
      → decode_config_message nvs pb_decode buf s ≡ ok (pos 0, s')
      → (m : SetApn) × (host1 : Bytes) × (host2 : Bytes) × (host3 : Bytes) × (pb_decode buf
          ≡ some m)
        × IsHostOf m.coap1 host1
        × IsHostOf m.coap2 host2
        × IsHostOf m.coap3 host3
        × (m.apn1 ≢ [])
        × (m.apn2 ≢ [])
        × (m.apn3 ≢ [])
        × (s'.current ≡ record {
          apn1 = m.apn1;
          coap1 = host1;
          apn2 = m.apn2;
          coap2 = host2;
          apn3 = m.apn3;
          coap3 = host3;
          apn4 = s.current.apn4;
          coap4 = s.current.coap4;
        })
        × (s'.flash ≡ nvs_write s'.current s.flash)
  unfolding decode_config_message set_config
  decode_config_message_accepts pb_decode buf s s' h =
      let (m, m', decoded, rewritten, accepted) = use_message-ok (pb_decode buf) s s' h in
      let (full, kept, written) = accept_config_zero m' s s' accepted in
      let (host1, host2, host3, is1, is2, is3, same) = rewrite_urls-hosts m m' rewritten in
      let (some1, some2, some3) = has_empty-apns m' full in
      (
        m,
        host1,
        host2,
        host3,
        decoded,
        is1,
        is2,
        is3,
        (λ e. some1 (ap (λ (x : SetApn). x.apn1) same ∙ e)),
        (λ e. some2 (ap (λ (x : SetApn). x.apn2) same ∙ e)),
        (λ e. some3 (ap (λ (x : SetApn). x.apn3) same ∙ e)),
        kept ∙ ap (set_config s.current) same,
        written,
      )

  use_message_refused :
      (o : Option SetApn) (s s' : Stored F) (n : ℕ)
      → use_message nvs o s ≡ ok (negsuc n, s')
      → s' ≡ s
  unfolding use_message
  use_message_refused none s s' n h = cc
  use_message_refused (some m) s s' n h =
      let (m', rewritten, e) = bind-eq-ok (rewrite_urls m) _ h in
      let e' : accept_config nvs m' s ≡ (negsuc n, s') = cc in
      elim (rw e' at (accept_config-Verdict m' s)) [
        | inl (_, _, same) ↦ same
        | inr (inl (_, _, _, same)) ↦ same
        | inr (inr (zero_result, _, _, _)) ↦ cc
      ]

  -- A request that is answered with a negative number changes neither the configuration nor the
  -- flash.
  pub decode_config_message_refused :
      (pb_decode : Bytes → Option SetApn) (buf : Bytes) (s s' : Stored F) (n : ℕ)
      → decode_config_message nvs pb_decode buf s ≡ ok (negsuc n, s')
      → s' ≡ s
  unfolding decode_config_message
  decode_config_message_refused pb_decode buf s s' n h =
      use_message_refused (pb_decode buf) s s' n h

  -- The request that was just accepted is answered with -3, and changes nothing.
  pub decode_config_message_again :
      (pb_decode : Bytes → Option SetApn) (buf : Bytes) (s s' : Stored F)
      → decode_config_message nvs pb_decode buf s ≡ ok (pos 0, s')
      → decode_config_message nvs pb_decode buf s' ≡ ok (negsuc 2, s')
  unfolding decode_config_message use_message
  decode_config_message_again pb_decode buf s s' h =
      let (m, m', decoded, rewritten, accepted) = use_message-ok (pb_decode buf) s s' h in
      rw (decoded, rewritten, accept_config_again m' s s' accepted)

  -- An accepted configuration is the one in force after a restart, if the flash gives back what was
  -- written to it and the last APN is the initial one.
  pub decode_config_message_stays :
      (pb_decode : Bytes → Option SetApn) (buf : Bytes) (s s' : Stored F)
      → decode_config_message nvs pb_decode buf s ≡ ok (pos 0, s')
      → nvs_read (nvs_write s'.current s.flash) ≡ some s'.current
      → s.current.apn4 ≡ init_default_config.apn4
      → s.current.coap4 ≡ init_default_config.coap4
      → init_config_nvs nvs s'.flash ≡ s'
  unfolding decode_config_message
  decode_config_message_stays pb_decode buf s s' h r e4 e4' =
      let (m, m', decoded, rewritten, accepted) = use_message-ok (pb_decode buf) s s' h in
      accept_config_stays m' s s' accepted r e4 e4'
