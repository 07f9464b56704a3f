-- ===== src/Fota/Response/Limits.antt =====
-- The loop of the response decoder ends, and where it leaves its arrays.
use air_quality_sensor_node.Base.{
  ℕ, zero, suc, ◌+◌, ◌≤◌, ◌<◌, ◌≡◌, ◌≢◌, refl, ◌∷◌, ◌++◌, Bool, true, false, Bytes, ltb, ◌==◌,
  if◌then◌else◌, length, arith, get_elem?, none, some, Option, lt→ltb, Bool-cases, inl, inr,
}
use air_quality_sensor_node.Base.Outcome.{
  Outcome, ok, failed, out_of_bounds, out_of_fuel, ◌>>=◌, in_bounds,
}
use air_quality_sensor_node.Fota.Tlv.{
  decode_string, decode_tlv_string, decode_tlv_uint32, decode_tlv_bool,
}
use air_quality_sensor_node.Fota.Tlv.Strings.{encode_tlv_string_lem, decode_tlv_string_overruns}
use air_quality_sensor_node.Fota.Response.{
  FotaResponse, encode_simple_report, decode_field, decode_fields, decode_simple_response,
}

-- The call ends, and a success leaves the index at `idx` or behind it.
abbrev Advances {ℓ} : {A : Type ℓ} → ℕ → Outcome (ℕ × A) → Type 0
Advances idx (ok r) = idx ≤ r.0
Advances idx failed = Unit
Advances idx out_of_bounds = Unit
Advances idx out_of_fuel = ⊥

Advances-mono {ℓ} :
    {A : Type ℓ} (i j : ℕ) (m : Outcome (ℕ × A)) → i ≤ j → Advances j m → Advances i m
Advances-mono i j (ok r) h a = omega arith
Advances-mono i j failed h a = tt
Advances-mono i j out_of_bounds h a = tt
Advances-mono i j out_of_fuel h a = a

Advances-map {ℓ κ} :
    {A : Type ℓ} {B : Type κ} (idx : ℕ) (m : Outcome (ℕ × A)) (f : A → B)
    → Advances idx m
    → Advances idx (m >>= λ r. ok (r.0, f r.1))
Advances-map idx (ok r) f a = a
Advances-map idx failed f a = tt
Advances-map idx out_of_bounds f a = tt
Advances-map idx out_of_fuel f a = a

Advances-in_bounds {ℓ κ} :
    {A : Type ℓ} {B : Type κ} (idx : ℕ) (o : Option A) (f : A → Outcome (ℕ × B))
    → ((a : A) → Advances idx (f a))
    → Advances idx (in_bounds o >>= f)
Advances-in_bounds idx none f h = tt
Advances-in_bounds idx (some a) f h = h a

decode_string-Advances :
    (buf : Bytes) (room n idx : ℕ) → Advances idx (decode_string buf room n idx)
unfolding decode_string
decode_string-Advances buf zero zero idx = tt
decode_string-Advances buf (suc room) zero idx = omega arith
decode_string-Advances buf zero (suc n) idx = tt
decode_string-Advances buf (suc room) (suc n) idx =
    Advances-in_bounds idx (get_elem? buf idx) _ (λ b.
      Advances-map idx (decode_string buf room n (idx + 1)) (λ bs. b ∷ bs)
        (Advances-mono idx (idx + 1) (decode_string buf room n (idx + 1)) (omega arith)
          (decode_string-Advances buf room n (idx + 1))))

either-Advances {ℓ} :
    {A : Type ℓ} (idx : ℕ) (b : Bool) (x y : Outcome (ℕ × A))
    → Advances idx x
    → Advances idx y
    → Advances idx (if b then x else y)
either-Advances idx true x y hx hy = hx
either-Advances idx false x y hx hy = hy

decode_tlv_string-Advances :
    (buf : Bytes) (size idx : ℕ) → Advances idx (decode_tlv_string buf size idx)
unfolding decode_tlv_string
decode_tlv_string-Advances buf size idx = Advances-in_bounds idx (get_elem? buf idx) _ (λ n.
    Advances-mono idx (idx + 1) (decode_string buf size n (idx + 1)) (omega arith)
      (decode_string-Advances buf size n (idx + 1)))

decode_tlv_uint32-Advances : (buf : Bytes) (idx : ℕ) → Advances idx (decode_tlv_uint32 buf idx)
unfolding decode_tlv_uint32
decode_tlv_uint32-Advances buf idx = Advances-in_bounds idx (get_elem? buf idx) _ (λ n.
    either-Advances idx (n == 4) _ _
      (Advances-in_bounds idx (get_elem? buf (idx + 1)) _ (λ b3.
        Advances-in_bounds idx (get_elem? buf (idx + 2)) _ (λ b2.
          Advances-in_bounds idx (get_elem? buf (idx + 3)) _
            (λ b1. Advances-in_bounds idx (get_elem? buf (idx + 4)) _ (λ b0. omega arith)))))
      tt)

decode_tlv_bool-Advances : (buf : Bytes) (idx : ℕ) → Advances idx (decode_tlv_bool buf idx)
unfolding decode_tlv_bool
decode_tlv_bool-Advances buf idx = Advances-in_bounds idx (get_elem? buf idx) _ (λ n.
    either-Advances idx (n == 1) _ _
      (Advances-in_bounds idx (get_elem? buf (idx + 1)) _ (λ b. omega arith)) tt)

decode_field-Advances :
    (buf : Bytes) (r : FotaResponse) (id idx : ℕ) → Advances idx (decode_field buf r id idx)
unfolding decode_field
decode_field-Advances buf r id idx =
    either-Advances idx (id == 1) _ _
      (Advances-map idx (decode_tlv_string buf 25 idx) (λ s. record r { host = s })
        (decode_tlv_string-Advances buf 25 idx))
      (either-Advances idx (id == 2) _ _
        (Advances-map idx (decode_tlv_uint32 buf idx) (λ v. record r { port = v })
          (decode_tlv_uint32-Advances buf idx))
        (either-Advances idx (id == 3) _ _
          (Advances-map idx (decode_tlv_string buf 25 idx) (λ s. record r { path = s })
            (decode_tlv_string-Advances buf 25 idx))
          (either-Advances idx (id == 4) _ _
            (Advances-map idx (decode_tlv_bool buf idx) (λ b. record r { scheduled_update = b })
              (decode_tlv_bool-Advances buf idx))
            tt)))

after_field :
    (idx : ℕ) (m : Outcome (ℕ × FotaResponse)) (f : ℕ × FotaResponse → Outcome FotaResponse)
    → Advances idx m
    → ((i : ℕ) (r : FotaResponse) → idx ≤ i → f (i, r) ≢ out_of_fuel)
    → (m >>= f) ≢ out_of_fuel
after_field idx (ok r) f a h = h r.0 r.1 a
after_field idx failed f a h = λ e. cc
after_field idx out_of_bounds f a h = λ e. cc
after_field idx out_of_fuel f a h = absurd a

after_read :
    (o : Option ℕ) (f : ℕ → Outcome FotaResponse)
    → ((b : ℕ) → f b ≢ out_of_fuel)
    → (in_bounds o >>= f) ≢ out_of_fuel
after_read none f h = λ e. cc
after_read (some b) f h = h b

decode_fields_ends :
    (fuel : ℕ) (buf : Bytes) (len : ℕ) (r : FotaResponse) (idx : ℕ)
    → len ≤ idx + fuel
    → decode_fields fuel buf len r idx ≢ out_of_fuel
unfolding decode_fields
decode_fields_ends zero buf len r idx h = λ e. ground arith
decode_fields_ends (suc fuel) buf len r idx h = elim (Bool-cases (ltb idx len)) [
  | inl more ↦ rw more (
      after_read (get_elem? buf idx) _ (λ id.
        after_field (idx + 1) (decode_field buf r id (idx + 1)) _
          (decode_field-Advances buf r id (idx + 1))
          (λ i r' le. decode_fields_ends fuel buf len r' i (omega arith))))
  | inr done ↦ rw done (λ e. cc)
]

-- The decoder ends on every payload, well formed or not: no tag and no length makes its loop stay.
pub decode_simple_response_ends :
    (r : FotaResponse) (buf : Bytes) (len : ℕ) → decode_simple_response r buf len ≢ out_of_fuel
unfolding decode_simple_response
decode_simple_response_ends r buf len = decode_fields_ends len buf len r 0 (omega arith)

-- A payload, not empty, that begins with a host name of 25 bytes or more is copied past the end of
-- `host`.
pub decode_simple_response_overruns :
    (r : FotaResponse) (s behind : Bytes) (len : ℕ)
    → 25 ≤ length s
    → 0 < len
    → decode_simple_response r (1 ∷ length s ∷ (s ++ behind)) len ≡ out_of_bounds
unfolding decode_simple_response decode_fields decode_field
decode_simple_response_overruns r s behind zero long h = absurd (omega arith)
decode_simple_response_overruns r s behind (suc len) long h =
    let over =
      decode_tlv_string_overruns (1 ∷ length s ∷ (s ++ behind)) 25 1 (length s) (s ++ behind) refl
        long in
    rw (lt→ltb 0 (suc len) (omega arith), over)

-- The report holds the four texts in the order version, manufacturer, serial number, model, each
-- behind its tag and length, if each has at most 255 bytes.
pub encode_simple_report_lem :
    (v c s m : Bytes)
    → length v < 256
    → length c < 256
    → length s < 256
    → length m < 256
    → encode_simple_report v c s m
      ≡ ok
          ((1 ∷ length v ∷ v) ++ ((4 ∷ length c ∷ c) ++ ((3 ∷ length s ∷ s) ++ (2 ∷ length m ∷ m))))
unfolding encode_simple_report
encode_simple_report_lem v c s m hv hc hs hm = rw (
  encode_tlv_string_lem 1 v hv,
  encode_tlv_string_lem 4 c hc,
  encode_tlv_string_lem 3 s hs,
  encode_tlv_string_lem 2 m hm,
)
