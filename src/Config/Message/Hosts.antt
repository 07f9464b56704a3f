-- ===== src/Config/Message/Hosts.antt =====
-- What `rewrite_url_to_ip_only` of config_message.c takes out of an address.
use air_quality_sensor_node.Base.{
  ap₂, Bool, ℕ, zero, suc, ◌≡◌, refl, ap, ◌∙◌, sym, ◌≢◌, true, false, not, ◌&&◌, [], ◌∷◌, ◌++◌,
  Bytes, codes, eqb, ◌==◌, ==_iff, drop, length, All, ◌⊎◌, inl, inr, Bool-cases, arith,
}
use air_quality_sensor_node.Base.Outcome.{ok, out_of_bounds}
use air_quality_sensor_node.At.Buffer.{is_prefix}
use air_quality_sensor_node.Config.Message.{scan_host, rewrite_url_to_ip_only}

-- What stands behind a host of `n` bytes at most: nothing, a colon, or anything if it has all `n`.
abbrev pub EndsHost : ℕ → Bytes → Bytes → Type 0
EndsHost n host rest = (rest ≡ []) ⊎ (((more : Bytes) × (rest ≡ b':' ∷ more)) ⊎ (length host ≡ n))

-- `host` is the host of the address `url`: not empty, without a colon, at most 99 bytes.
abbrev pub IsHostOf : Bytes → Bytes → Type 0
IsHostOf url host =
    (rest : Bytes) × (url ≡ codes "coap://" ++ host ++ rest)
    × (host ≢ [])
    × All (λ c. c ≢ b':') host
    × EndsHost 99 host rest

EndsHost-longer :
    (n c : ℕ) (host rest : Bytes) → EndsHost n host rest → EndsHost (suc n) (c ∷ host) rest
EndsHost-longer n c host rest (inl e) = inl e
EndsHost-longer n c host rest (inr (inl e)) = inr (inl e)
EndsHost-longer n c host rest (inr (inr full)) = inr (inr (omega (arith, full)))

scan_host_splits :
    (n : ℕ) (cs : Bytes)
    → (rest : Bytes) × (cs ≡ scan_host n cs ++ rest)
      × All (λ c. c ≢ b':') (scan_host n cs)
      × EndsHost n (scan_host n cs) rest
unfolding scan_host
scan_host_splits zero cs = (cs, refl, tt, inr (inr refl))
scan_host_splits (suc n) [] = ([], refl, tt, inl refl)
scan_host_splits (suc n) (c ∷ cs) = elim (Bool-cases (c == b':')) [
  | inl e ↦ rw e (c ∷ cs, refl, tt, inr (inl (cs, ap (λ x. x ∷ cs) ((==_iff c _).0 e))))
  | inr e ↦
      let (rest, split, clean, end) = scan_host_splits n cs in
      rw e (rest, ap (λ xs. c ∷ xs) split, (ground arith, clean), EndsHost-longer n c _ rest end)
]

both_true : (a b : Bool) → (a && b) ≡ true → (a ≡ true) × (b ≡ true)
both_true true b h = (refl, h)
both_true false b h = cc

is_prefix-split : (p xs : Bytes) → is_prefix p xs ≡ true → xs ≡ p ++ drop (length p) xs
unfolding is_prefix
is_prefix-split [] xs h = refl
is_prefix-split (c ∷ p) [] h = cc
is_prefix-split (c ∷ p) (x ∷ xs) h =
    let (same, rest) = both_true (c == x) (is_prefix p xs) h in
    ap₂ (λ (y : ℕ) (ys : Bytes). y ∷ ys) (sym ((==_iff c x).0 same)) (is_prefix-split p xs rest)

ok_host : (a b : Bytes) → ok a ≡ ok b → a ≡ b
ok_host a b e = cc

host_of :
    (url host : Bytes)
    → (is_prefix (codes "coap://") url ≡ true)
    → not (eqb host []) ≡ true
    → scan_host 99 (drop 7 url) ≡ host
    → IsHostOf url host
host_of url host starts full same =
    let (rest, split, clean, ends) = scan_host_splits 99 (drop 7 url) in
    rw (← same) (
      rest,
      is_prefix-split (codes "coap://") url starts ∙ ap (λ (t : Bytes). codes "coap://" ++ t) split,
      (λ e. let none_left : host ≡ [] = sym same ∙ e in cc),
      clean,
      ends,
    )

-- Where the result is defined it is the host of the address.
pub rewrite_url_to_ip_only-IsHostOf :
    (url host : Bytes) → rewrite_url_to_ip_only url ≡ ok host → IsHostOf url host
unfolding rewrite_url_to_ip_only
rewrite_url_to_ip_only-IsHostOf url host h =
    elim (Bool-cases
      (is_prefix (codes "coap://") url && not (eqb (scan_host 99 (drop 7 url)) []))) [
        | inl good ↦
            let (starts, full) = both_true _ _ good in
            let same : scan_host 99 (drop 7 url) ≡ host = ok_host _ _ (rw good at h) in
            host_of url host starts (rw (← same) full) same
        | inr bad ↦ let e : out_of_bounds ≡ ok host = rw bad at h in absurd (cc)
      ]
