-- ===== src/Fota/Tlv/Strings.antt =====
-- What `encode_tlv_string` writes, and that the decoders read fields back.
use air_quality_sensor_node.Base.{
  ℕ, zero, suc, ◌+◌, ◌/◌, ◌%◌, ◌^◌, ◌≤◌, ◌<◌, ◌≡◌, refl, ap, [], ◌∷◌, ◌++◌, Bytes, ◌==◌, length,
  drop, arith, lt→ltb, get_elem?_of_drop, get_elem?-add_of_drop, get_elem?_of_lt,
  drop-add_one_of_drop,
}
use air_quality_sensor_node.Base.Outcome.{ok, out_of_bounds, out_of_fuel}
use air_quality_sensor_node.Fota.Tlv.{
  copy_string, encode_tlv_string, decode_string, decode_tlv_string, decode_tlv_uint32,
  decode_tlv_bool,
}

copy_string_from :
    (fuel i : ℕ) (str rest : Bytes)
    → drop i str ≡ rest
    → i + length rest ≡ length str
    → length str < 256
    → length rest < fuel
    → copy_string fuel i str ≡ ok rest
unfolding copy_string
copy_string_from zero i str rest d l b f = absurd (omega arith)
copy_string_from (suc fuel) i str [] d l b f = ground arith
copy_string_from (suc fuel) i str (x ∷ rest) d l b f =
    let next : (i + 1) % 256 ≡ i + 1 = omega arith in
    rw (
      lt→ltb i (length str) (omega arith),
      get_elem?_of_drop str i d,
      next,
      copy_string_from fuel (i + 1) str rest (drop-add_one_of_drop str i d) (omega arith) b
          (omega arith),
    )

-- A text of at most 255 bytes is written whole behind its tag and its length, and the loop ends.
pub encode_tlv_string_lem :
    (id : ℕ) (str : Bytes)
    → length str < 256
    → encode_tlv_string 256 id str ≡ ok (id ∷ length str ∷ str)
unfolding encode_tlv_string
encode_tlv_string_lem id str h =
    let short : length str % 256 ≡ length str = omega arith in
    rw (copy_string_from 256 0 str str refl (omega arith) h h, short)

-- The loop over a text of 256 bytes or more never ends, from any value of its counter and whatever
-- the fuel: the counter wraps below the length.
pub copy_string_diverges :
    (fuel i : ℕ) (str : Bytes) → 256 ≤ length str → i < 256 → copy_string fuel i str ≡ out_of_fuel
unfolding copy_string
copy_string_diverges zero i str h b = refl
copy_string_diverges (suc fuel) i str h b =
    let (x, e) = get_elem?_of_lt str i (omega arith) in
    rw (
      lt→ltb i (length str) (omega arith),
      e,
      copy_string_diverges fuel ((i + 1) % 256) str h (omega arith),
    )

-- The decoders are given the array, and the lemmas what stands at the index that they start from.
decode_string_lem :
    (buf : Bytes) (room idx : ℕ) (str rest : Bytes)
    → drop idx buf ≡ str ++ rest
    → length str < room
    → decode_string buf room (length str) idx ≡ ok (idx + length str, str)
unfolding decode_string
decode_string_lem buf zero idx str rest d h = absurd (omega arith)
decode_string_lem buf (suc room) idx [] rest d h = ap (λ k. ok (k, [])) (omega arith)
decode_string_lem buf (suc room) idx (x ∷ str) rest d h =
    rw
      (
        get_elem?_of_drop buf idx d,
        decode_string_lem buf room (idx + 1) str rest (drop-add_one_of_drop buf idx d)
            (omega arith),
      )
      (ap (λ k. ok (k, x ∷ str)) (omega arith))

-- A field that fits the array behind `str` is read back, up to its end.
pub decode_tlv_string_lem :
    (buf : Bytes) (size idx : ℕ) (str rest : Bytes)
    → drop idx buf ≡ length str ∷ (str ++ rest)
    → length str < size
    → decode_tlv_string buf size idx ≡ ok (idx + 1 + length str, str)
unfolding decode_tlv_string
decode_tlv_string_lem buf size idx str rest d h =
    rw (get_elem?_of_drop buf idx d)
      (decode_string_lem buf size (idx + 1) str rest (drop-add_one_of_drop buf idx d) h)

decode_string_overruns :
    (buf : Bytes) (room idx n : ℕ) → room ≤ n → decode_string buf room n idx ≡ out_of_bounds
unfolding decode_string
decode_string_overruns buf zero idx zero h = refl
decode_string_overruns buf zero idx (suc n) h = refl
decode_string_overruns buf (suc room) idx zero h = absurd (omega arith)
decode_string_overruns buf (suc room) idx (suc n) h =
    ground (arith, decode_string_overruns buf room (idx + 1) n)

-- A field whose length reaches the size of the array behind `str` is copied past the array's end.
pub decode_tlv_string_overruns :
    (buf : Bytes) (size idx len : ℕ) (rest : Bytes)
    → drop idx buf ≡ len ∷ rest
    → size ≤ len
    → decode_tlv_string buf size idx ≡ out_of_bounds
unfolding decode_tlv_string
decode_tlv_string_overruns buf size idx len rest d h =
    rw (get_elem?_of_drop buf idx d) (decode_string_overruns buf size (idx + 1) len h)

-- A number in big-endian order is read back.
pub decode_tlv_uint32_lem :
    (buf : Bytes) (idx v : ℕ) (rest : Bytes)
    → drop idx buf ≡ 4 ∷ (v / 2 ^ 24) ∷ (v / 2 ^ 16 % 256) ∷ (v / 2 ^ 8 % 256) ∷ (v % 256) ∷ rest
    → v < 2 ^ 32
    → decode_tlv_uint32 buf idx ≡ ok (idx + 5, v)
unfolding decode_tlv_uint32
decode_tlv_uint32_lem buf idx v rest d h =
    rw
      (
        get_elem?_of_drop buf idx d,
        get_elem?-add_of_drop buf idx 1 d,
        get_elem?-add_of_drop buf idx 2 d,
        get_elem?-add_of_drop buf idx 3 d,
        get_elem?-add_of_drop buf idx 4 d,
      )
      (ap (λ k. ok (idx + 5, k)) (omega arith))

pub decode_tlv_bool_lem :
    (buf : Bytes) (idx b : ℕ) (rest : Bytes)
    → drop idx buf ≡ 1 ∷ b ∷ rest
    → decode_tlv_bool buf idx ≡ ok (idx + 2, b == 1)
unfolding decode_tlv_bool
decode_tlv_bool_lem buf idx b rest d =
    rw (
      get_elem?_of_drop buf idx d,
      get_elem?_of_drop buf (idx + 1) (drop-add_one_of_drop buf idx d),
    )
