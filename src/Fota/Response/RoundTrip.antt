-- ===== src/Fota/Response/RoundTrip.antt =====
-- What the response decoder makes of the fields that a server sends.
use air_quality_sensor_node.Base.{
  ℕ, zero, suc, ◌+◌, ◌/◌, ◌%◌, ◌^◌, ◌≤◌, ◌<◌, ◌≡◌, refl, ap, ◌∙◌, List, [], ◌∷◌, ◌++◌, Bool, true,
  false, Bytes, if◌then◌else◌, length, drop, All, arith, lt→ltb, get_elem?, get_elem?_of_drop,
  drop-add_one_of_drop, drop-append_length, some, length-append, append_assoc,
}
use air_quality_sensor_node.Base.Outcome.{ok}
use air_quality_sensor_node.Fota.Tlv.Strings.{
  decode_tlv_string_lem, decode_tlv_uint32_lem, decode_tlv_bool_lem,
}
use air_quality_sensor_node.Fota.Response.{
  FotaResponse, decode_field, decode_fields, decode_simple_response,
}

-- A field of a response, as the server means it.
pub data Field : Type 0 where
  host : Bytes → Field
  port : ℕ → Field
  path : Bytes → Field
  available : Bool → Field

abbrev pub write_field : Field → Bytes
write_field (host s) = 1 ∷ length s ∷ s
write_field (port v) =
    2 ∷ 4 ∷ (v / 2 ^ 24) ∷ (v / 2 ^ 16 % 256) ∷ (v / 2 ^ 8 % 256) ∷ (v % 256) ∷ []
write_field (path s) = 3 ∷ length s ∷ s
write_field (available b) = 4 ∷ 1 ∷ (if b then 1 else 0) ∷ []

abbrev pub write_fields : List Field → Bytes
write_fields [] = []
write_fields (f ∷ fs) = write_field f ++ write_fields fs

-- What the receiver has room for.
abbrev pub Fits : Field → Type 0
Fits (host s) = length s < 25
Fits (port v) = v < 2 ^ 32
Fits (path s) = length s < 25
Fits (available b) = Unit

abbrev pub store : FotaResponse → Field → FotaResponse
store r (host s) = record r { host = s }
store r (port v) = record r { port = v }
store r (path s) = record r { path = s }
store r (available b) = record r { scheduled_update = b }

abbrev pub store_all : FotaResponse → List Field → FotaResponse
store_all r [] = r
store_all r (f ∷ fs) = store_all (store r f) fs

field_tag : Field → ℕ
field_tag (host s) = 1
field_tag (port v) = 2
field_tag (path s) = 3
field_tag (available b) = 4

decode_field-write :
    (buf : Bytes) (r : FotaResponse) (idx : ℕ) (f : Field) (rest : Bytes)
    → drop idx buf ≡ write_field f ++ rest
    → Fits f
    → decode_field buf r (field_tag f) (idx + 1) ≡ ok (idx + length (write_field f), store r f)
unfolding decode_field field_tag
decode_field-write buf r idx (host s) rest d h =
    rw (decode_tlv_string_lem buf 25 (idx + 1) s rest (drop-add_one_of_drop buf idx d) h)
      (ap (λ k. ok (k, record r { host = s })) (omega arith))
decode_field-write buf r idx (port v) rest d h =
    rw (decode_tlv_uint32_lem buf (idx + 1) v rest (drop-add_one_of_drop buf idx d) h)
      (ap (λ k. ok (k, record r { port = v })) (omega arith))
decode_field-write buf r idx (path s) rest d h =
    rw (decode_tlv_string_lem buf 25 (idx + 1) s rest (drop-add_one_of_drop buf idx d) h)
      (ap (λ k. ok (k, record r { path = s })) (omega arith))
decode_field-write buf r idx (available true) rest d h =
    rw (decode_tlv_bool_lem buf (idx + 1) 1 rest (drop-add_one_of_drop buf idx d))
      (ap (λ k. ok (k, record r { scheduled_update = true })) (omega arith))
decode_field-write buf r idx (available false) rest d h =
    rw (decode_tlv_bool_lem buf (idx + 1) 0 rest (drop-add_one_of_drop buf idx d))
      (ap (λ k. ok (k, record r { scheduled_update = false })) (omega arith))

head_of_field :
    (buf : Bytes) (idx : ℕ) (f : Field) (rest : Bytes)
    → drop idx buf ≡ write_field f ++ rest
    → get_elem? buf idx ≡ some (field_tag f)
unfolding field_tag
head_of_field buf idx (host s) rest d = get_elem?_of_drop buf idx d
head_of_field buf idx (port v) rest d = get_elem?_of_drop buf idx d
head_of_field buf idx (path s) rest d = get_elem?_of_drop buf idx d
head_of_field buf idx (available b) rest d = get_elem?_of_drop buf idx d

length-write_field : (f : Field) → 2 ≤ length (write_field f)
length-write_field (host s) = omega arith
length-write_field (port v) = omega arith
length-write_field (path s) = omega arith
length-write_field (available b) = omega arith

decode_fields-write :
    (fs : List Field) (fuel : ℕ) (buf : Bytes) (len idx : ℕ) (r : FotaResponse) (rest : Bytes)
    → drop idx buf ≡ write_fields fs ++ rest
    → All Fits fs
    → len ≡ idx + length (write_fields fs)
    → length (write_fields fs) ≤ fuel
    → decode_fields fuel buf len r idx ≡ ok (store_all r fs)
unfolding decode_fields
decode_fields-write [] zero buf len idx r rest d h l b = ground arith
decode_fields-write [] (suc fuel) buf len idx r rest d h l b = ground arith
decode_fields-write (f ∷ fs) zero buf len idx r rest d h l b =
    absurd (omega (arith, length-append (write_field f) (write_fields fs), length-write_field f))
decode_fields-write (f ∷ fs) (suc fuel) buf len idx r rest d h l b =
    let sum = length-append (write_field f) (write_fields fs) in
    let two = length-write_field f in
    let d' = d ∙ append_assoc (write_field f) (write_fields fs) rest in
    rw
      (
        lt→ltb idx len (omega arith),
        head_of_field buf idx f (write_fields fs ++ rest) d',
        decode_field-write buf r idx f (write_fields fs ++ rest) d' h.0,
      )
      (decode_fields-write fs fuel buf len (idx + length (write_field f)) (store r f) rest
        (drop-append_length buf idx (write_field f) d') h.1 (omega arith) (omega arith))

-- A payload that holds any fields in any order, each with room in the response, is decoded to the
-- response with these fields stored in turn, whatever stands behind the payload in the buffer.
pub decode_simple_response-write :
    (fs : List Field) (r : FotaResponse) (behind : Bytes)
    → All Fits fs
    → decode_simple_response r (write_fields fs ++ behind) (length (write_fields fs))
      ≡ ok (store_all r fs)
unfolding decode_simple_response
decode_simple_response-write fs r behind h =
    decode_fields-write fs (length (write_fields fs)) (write_fields fs ++ behind)
      (length (write_fields fs)) 0 r behind refl h (omega arith) (omega arith)
